-- ===== src/Discovery/Kept.antt =====
-- peers/discovery.go: addPeer, delPeer and markPeerUnreachable against the keys of the peers.
use gobalance.Common.{
  ltb, ltb_false→le, Bool-cases, Option-cases, lookup, lookup-insert, string_key, nat_key, ==_refl,
  ℕ, ◌≤◌, String, ◌≡◌, refl, sym, ◌∙◌, inl, inr, true, some, arith,
}
use gobalance.Peer.{Peer, set_unreachable, peer_host}
use gobalance.OrderedMap.{member, OrderedMap}
use gobalance.Discovery.{
  handler_del_peer, find_peer, handler_add_peer, assign, handler_mark_unreachable, PeerHandler,
  put_peer,
}
use gobalance.Net.{Net}
use gobalance.Discovery.Known.{
  AllKept-reset, AllKept, AllKept-set, IsKept, AllKept-delete, AllKept-assign,
}

module _ (n : Net) (o : OrderedMap) where
  -- Every key has a peer and every peer its key, which is its host; no peer has failed more often
  -- than the handler allows.
  abbrev pub IsKnown : PeerHandler n o → Type 0
  IsKnown h = AllKept n h.peer_max_retries (o.names h.peers) h.store

  pub find_peer-eq-lookup :
      (host : String) (h : PeerHandler n o) → IsKnown h → find_peer n o host h ≡ lookup host h.store
  unfolding find_peer
  find_peer-eq-lookup host h known =
      rw (o.has_lem host h.peers) (ground (arith, known host, Option-cases (lookup host h.store)))

  pub found-IsKept :
      (host : String) (peer : Peer n) (h : PeerHandler n o)
      → IsKnown h
      → find_peer n o host h ≡ some peer
      → (member host (o.names h.peers) ≡ true) × IsKept n h.peer_max_retries host peer
  found-IsKept host peer h known found =
      let there = sym (find_peer-eq-lookup host h known) ∙ found in ground (arith, known host)

  pub assign-IsKnown :
      (host : String) (peer : Peer n) (h : PeerHandler n o)
      → IsKnown h
      → member host (o.names h.peers) ≡ true
      → IsKept n h.peer_max_retries host peer
      → IsKnown (assign n o host peer h)
  assign-IsKnown host peer h known there kept =
      AllKept-assign n h.peer_max_retries host peer (o.names h.peers) h.store known there kept

  pub del_peer-IsKnown :
      (addr : String) (h : PeerHandler n o) → IsKnown h → IsKnown (handler_del_peer n o addr h).0
  unfolding handler_del_peer
  del_peer-IsKnown addr h known = elim (Option-cases (find_peer n o addr h)) [
    | inl absent ↦ rw (absent, handler_del_peer) known
    | inr (peer, found) ↦
        rw (found, handler_del_peer, o.names-delete_key addr h.peers)
          (AllKept-delete n h.peer_max_retries addr (o.names h.peers) h.store known)
  ]

  pub put_peer-IsKnown :
      (peer : Peer n) (h : PeerHandler n o)
      → IsKnown h
      → peer.connection_retries ≤ h.peer_max_retries
      → IsKnown (put_peer n o peer h)
  unfolding put_peer
  put_peer-IsKnown peer h known few = rw (o.names-set_key (peer_host n peer) h.peers) (
      AllKept-set n h.peer_max_retries (peer_host n peer) peer (o.names h.peers) h.store known
        (refl, few))

  pub del_peer-retries :
      (addr : String) (h : PeerHandler n o)
      → (handler_del_peer n o addr h).0.peer_max_retries ≡ h.peer_max_retries
  unfolding handler_del_peer
  del_peer-retries addr h = elim (Option-cases (find_peer n o addr h)) [
    | inl absent ↦ rw (absent, handler_del_peer) refl
    | inr (peer, found) ↦ rw (found, handler_del_peer) refl
  ]

  pub add_peer-IsKnown :
      (peer : Peer n) (h : PeerHandler n o)
      → IsKnown h
      → peer.connection_retries ≡ 0
      → IsKnown (handler_add_peer n o peer h).0
  unfolding handler_add_peer
  add_peer-IsKnown peer h known zero_so =
      put_peer-IsKnown peer (handler_del_peer n o (peer_host n peer) h).0
        (del_peer-IsKnown (peer_host n peer) h known) (rw zero_so (omega arith))

  pub peer_host-set_unreachable :
      (now : ℕ) (peer : Peer n) → peer_host n (set_unreachable n now peer) ≡ peer_host n peer
  unfolding set_unreachable peer_host
  peer_host-set_unreachable now peer = refl

  -- the peer after the failure, still there
  pub found_failed :
      (addr : String) (peer : Peer n) (h : PeerHandler n o)
      → member addr (o.names h.peers) ≡ true
      → find_peer n o addr (assign n o addr peer h) ≡ some peer
  unfolding find_peer
  found_failed addr peer h there =
      rw (o.has_lem addr h.peers, there, lookup-insert addr addr peer h.store, ==_refl addr) refl

  pub mark-IsKnown :
      (now : ℕ) (addr : String) (h : PeerHandler n o)
      → IsKnown h
      → IsKnown (handler_mark_unreachable n o now addr h).0
  unfolding handler_mark_unreachable handler_del_peer
  mark-IsKnown now addr h known = elim (Option-cases (find_peer n o addr h)) [
    | inl absent ↦ rw (absent, handler_mark_unreachable) known
    | inr (peer, found) ↦
        let (there, kept) = found-IsKept addr peer h known found in
        let failed_one = set_unreachable n now peer in
        elim (Bool-cases (ltb h.peer_max_retries failed_one.connection_retries)) [
          | inl many ↦
              rw (found, handler_mark_unreachable, many)
                (rw
                  (
                    found_failed addr failed_one h there,
                    handler_del_peer,
                    o.names-delete_key addr h.peers,
                  )
                  (AllKept-reset n h.peer_max_retries addr failed_one (o.names h.peers) h.store
                    known))
          | inr few ↦
              rw (found, handler_mark_unreachable, few)
                (assign-IsKnown addr failed_one h known there (
                  peer_host-set_unreachable now peer ∙ kept.0,
                  ltb_false→le h.peer_max_retries failed_one.connection_retries few,
                ))
        ]
  ]
