-- ===== src/Discovery/Failures.antt =====
-- peers/discovery.go: a peer that does not answer any more.
use gobalance.Common.{
  ltb, Bool-cases, Option-cases, length, is_some, ==_refl, ℕ, ◌+◌, ◌<◌, String, ◌≡◌, refl, ◌⊎◌, inl,
  inr, not, none, some, List, [], ◌∷◌, arith,
}
use gobalance.Discovery.Kept.{mark-IsKnown, IsKnown, found-IsKept, found_failed}
use gobalance.Discovery.{handler_del_peer, PeerHandler, handler_mark_unreachable, find_peer, assign}
use gobalance.Peer.{set_unreachable, Peer}
use gobalance.Net.{Net}
use gobalance.OrderedMap.{OrderedMap}
use gobalance.Discovery.Known.{member-without}

module _ (n : Net) (o : OrderedMap) where
  -- the handler after the peer failed at each of the times
  abbrev pub fail_all : List ℕ → String → PeerHandler n o → PeerHandler n o
  fail_all [] addr h = h
  fail_all (now ∷ times) addr h = fail_all times addr (handler_mark_unreachable n o now addr h).0

  mark_absent :
      (now : ℕ) (addr : String) (h : PeerHandler n o)
      → find_peer n o addr h ≡ none
      → (handler_mark_unreachable n o now addr h).0 ≡ h
  unfolding handler_mark_unreachable
  mark_absent now addr h absent = rw (absent, handler_mark_unreachable) refl

  retries-set_unreachable :
      (now : ℕ) (peer : Peer n)
      → peer.connection_retries < 4294967295
      → (set_unreachable n now peer).connection_retries ≡ peer.connection_retries + 1
  unfolding set_unreachable
  retries-set_unreachable now peer small = omega arith

  fail_all_absent :
      (times : List ℕ) (addr : String) (h : PeerHandler n o)
      → find_peer n o addr h ≡ none
      → find_peer n o addr (fail_all times addr h) ≡ none
  fail_all_absent [] addr h absent = absent
  fail_all_absent (now ∷ times) addr h absent =
      rw (mark_absent now addr h absent) (fail_all_absent times addr h absent)

  find_peer-del_peer :
      (addr : String) (h : PeerHandler n o)
      → find_peer n o addr (handler_del_peer n o addr h).0 ≡ none
  unfolding handler_del_peer find_peer
  find_peer-del_peer addr h = elim (Option-cases (find_peer n o addr h)) [
    | inl absent ↦ rw (absent, handler_del_peer) absent
    | inr (peer, found) ↦
        rw
          (
            found,
            handler_del_peer,
            o.has_lem addr (o.delete_key addr h.peers),
            o.names-delete_key addr h.peers,
            member-without addr addr (o.names h.peers),
            ==_refl addr,
          )
          refl
  ]

  -- one failure
  mark-cases :
      (now : ℕ) (addr : String) (peer : Peer n) (h : PeerHandler n o)
      → IsKnown n o h
      → find_peer n o addr h ≡ some peer
      → h.peer_max_retries < 4294967295
      → let h' = (handler_mark_unreachable n o now addr h).0 in
        ((h.peer_max_retries ≡ peer.connection_retries) × (find_peer n o addr h' ≡ none))
        ⊎ ((peer.connection_retries < h.peer_max_retries)
            × (find_peer n o addr h' ≡ some (set_unreachable n now peer))
            × (h'.peer_max_retries ≡ h.peer_max_retries))
  unfolding handler_mark_unreachable set_unreachable
  mark-cases now addr peer h known found small =
      let (there, kept) = found-IsKept n o addr peer h known found in
      let p' = set_unreachable n now peer in
      elim (Bool-cases (ltb h.peer_max_retries p'.connection_retries)) [
        | inl many ↦ inl (
          ground (arith, many, kept),
          rw (found, handler_mark_unreachable, many)
              (find_peer-del_peer addr (assign n o addr p' h)),
        )
        | inr few ↦ inr (
          ground (arith, few, kept),
          rw (found, handler_mark_unreachable, few) (found_failed n o addr p' h there),
          rw (found, handler_mark_unreachable, few) refl,
        )
      ]

  -- A peer that is there and fails a number of times in a row, whatever its mode, is dropped just
  -- where its failures, with those that it had, are more than the handler allows (at most 2^32 -
  -- 2).
  pub fail_all_drops :
      (times : List ℕ) (addr : String) (peer : Peer n) (h : PeerHandler n o)
      → IsKnown n o h
      → find_peer n o addr h ≡ some peer
      → h.peer_max_retries < 4294967295
      → is_some (find_peer n o addr (fail_all times addr h))
        ≡ not (ltb h.peer_max_retries (peer.connection_retries + length times))
  fail_all_drops [] addr peer h known found small =
      rw found (ground (arith, found-IsKept n o addr peer h known found))
  fail_all_drops (now ∷ times) addr peer h known found small =
      elim (mark-cases now addr peer h known found small) [
        | inl (last, gone) ↦ rw (fail_all_absent times addr _ gone) (ground arith)
        | inr (few, still, same) ↦
            let later =
              fail_all_drops times addr (set_unreachable n now peer)
                (handler_mark_unreachable n o now addr h).0 (mark-IsKnown n o now addr h known)
                still (rw same small) in
            let one_more = retries-set_unreachable now peer (omega arith) in
            ground (arith, later, same, one_more)
      ]
