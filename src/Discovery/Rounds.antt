-- ===== src/Discovery/Rounds.antt =====
-- peers/discovery.go: the peers that are asked for their status, one after the other.
use gobalance.Common.{
  Option-cases, All, length, Map, is_some, lookup, string_key, nat_key, ==_refl, ℕ, zero, suc,
  String, ◌≡◌, refl, sym, ap, ◌∙◌, inl, inr, Bool, true, Option, none, some, List, [], ◌∷◌, ◌++◌,
  map, append-nil, append_assoc, arith,
}
use gobalance.Discovery.Steps.{
  select_either, first_available_selector, unknown_connection_selector, first_accepted,
  select_first_peer, get_next_status_update_peer,
}
use gobalance.Net.{Net}
use gobalance.Discovery.{PeerHandler}
use gobalance.OrderedMap.{member, names-move_first, OrderedMap}
use gobalance.Discovery.Kept.{IsKnown, found-IsKept, find_peer-eq-lookup}
use gobalance.Peer.{Peer}
use gobalance.Discovery.Polling.{Rejects}
use gobalance.Discovery.Known.{AllKept-moved}

module _ (n : Net) (o : OrderedMap) where
  -- The peers that a number of calls of `getNextStatusUpdatePeer` return.
  abbrev pub polled : ℕ → PeerHandler n o → List (Option (Peer n)) × PeerHandler n o
  polled zero h = ([], h)
  polled (suc m) h =
      let rest = polled m (get_next_status_update_peer n o h).1 in
      ((get_next_status_update_peer n o h).0 ∷ rest.0, rest.1)

  none_accepted :
      (selector : Peer n → Bool) (store : Map String (Peer n)) (ks : List String)
      → All (Rejects n o selector store) ks
      → first_accepted n o selector store ks ≡ none
  unfolding first_accepted
  none_accepted selector store [] nay = refl
  none_accepted selector store (k ∷ ks) nay = elim (Option-cases (lookup k store)) [
    | inl absent ↦ rw (absent, first_accepted) (none_accepted selector store ks nay.1)
    | inr (peer, there) ↦
        rw (there, first_accepted, rw there at nay.0) (none_accepted selector store ks nay.1)
  ]

  abbrev pub NoneUnknown : PeerHandler n o → Type 0
  NoneUnknown h = All (Rejects n o (unknown_connection_selector n o) h.store) (o.names h.peers)

  none_unknown :
      (h : PeerHandler n o)
      → NoneUnknown h
      → select_first_peer n o (unknown_connection_selector n o) h ≡ (none, h)
  unfolding select_first_peer
  none_unknown h nay =
      rw
        (
          none_accepted (unknown_connection_selector n o) h.store (o.names h.peers) nay,
          select_first_peer,
        )
        refl

  first_of_all :
      (k : String) (ks : List String) (peer : Peer n) (h : PeerHandler n o)
      → IsKnown n o h
      → o.names h.peers ≡ k ∷ ks
      → lookup k h.store ≡ some peer
      → select_first_peer n o (first_available_selector n o) h
        ≡ (some peer, record h { peers = o.move_last k h.peers })
  unfolding select_first_peer first_accepted
  first_of_all k ks peer h known same there =
      let host =
        (found-IsKept n o k peer h known (find_peer-eq-lookup n o k h known ∙ there)).1.0 in
      rw (same, select_first_peer) (rw (there, first_accepted) (rw host refl))

  second_choice :
      (first second : Peer n → Bool) (h : PeerHandler n o)
      → (select_first_peer n o first h).0 ≡ none
      → select_either n o first second h ≡ select_first_peer n o second h
  second_choice first second h e = rw (e, select_either) refl

  first_found :
      (k : String) (ks : List String) (h : PeerHandler n o)
      → IsKnown n o h
      → o.names h.peers ≡ k ∷ ks
      → (peer : Peer n) × (lookup k h.store ≡ some peer)
  first_found k ks h known same = elim (Option-cases (lookup k h.store)) [
    | inr found ↦ found
    | inl absent ↦ absurd (
        missing (member k (o.names h.peers)) (lookup k h.store) (rw (same, ==_refl k) refl) absent
          (known k).0)
  ]
    where
      missing : (b : Bool) (r : Option (Peer n)) → b ≡ true → r ≡ none → b ≡ is_some r → ⊥
      missing b r there absent e = ground arith

  polled_first :
      (k : String) (ks : List String) (peer : Peer n) (h : PeerHandler n o)
      → IsKnown n o h
      → NoneUnknown h
      → o.names h.peers ≡ k ∷ ks
      → lookup k h.store ≡ some peer
      → get_next_status_update_peer n o h ≡ (some peer, record h { peers = o.move_last k h.peers })
  unfolding get_next_status_update_peer
  polled_first k ks peer h known nay same there =
      second_choice (unknown_connection_selector n o) (first_available_selector n o) h
        (ap (λ p. p.0) (none_unknown h nay))
      ∙ first_of_all k ks peer h known same there

  Rejects-moved :
      (selector : Peer n → Bool) (store : Map String (Peer n)) (k : String) (ks : List String)
      → All (Rejects n o selector store) (k ∷ ks)
      → All (Rejects n o selector store) (ks ++ k ∷ [])
  Rejects-moved selector store k [] h = h
  Rejects-moved selector store k (j ∷ ks) h =
      (h.1.0, Rejects-moved selector store k ks (h.0, h.1.1))

  moved-NoneUnknown :
      (k : String) (ks : List String) (h : PeerHandler n o)
      → o.names h.peers ≡ k ∷ ks
      → NoneUnknown h
      → NoneUnknown (record h { peers = o.move_last k h.peers })
  moved-NoneUnknown k ks h same nay =
      rw (names-move_first o k ks h.peers same)
        (Rejects-moved (unknown_connection_selector n o) h.store k ks (rw same at nay))

  moved-IsKnown :
      (k : String) (h : PeerHandler n o)
      → IsKnown n o h
      → IsKnown n o (record h { peers = o.move_last k h.peers })
  moved-IsKnown k h known =
      rw (o.names-move_last k h.peers)
        (AllKept-moved n h.peer_max_retries k (o.names h.peers) h.store known)

  polled_round :
      (ks js : List String) (h : PeerHandler n o)
      → IsKnown n o h
      → NoneUnknown h
      → o.names h.peers ≡ ks ++ js
      → ((polled (length ks) h).0 ≡ map (λ k. lookup k h.store) ks)
        × (o.names (polled (length ks) h).1.peers ≡ js ++ ks)
  polled_round [] js h known nay same = (refl, same ∙ sym (append-nil js))
  polled_round (k ∷ ks) js h known nay same =
      let h' = record h { peers = o.move_last k h.peers } in
      let moved_so = names-move_first o k (ks ++ js) h.peers same in
      let (answers, names) =
        polled_round ks (js ++ k ∷ []) h' (moved-IsKnown k h known)
          (moved-NoneUnknown k (ks ++ js) h same nay) (moved_so ∙ append_assoc ks js (k ∷ [])) in
      let (peer, there) = first_found k (ks ++ js) h known same in
      let first = polled_first k (ks ++ js) peer h known nay same there in
      (
        rw (first, polled) (rw there (ap (◌∷◌ (some peer)) answers)),
        rw (first, polled) (names ∙ append_assoc js (k ∷ []) ks),
      )

  -- Where no peer is new, as many calls of getNextStatusUpdatePeer as there are peers return each
  -- peer once, in their order, and leave the order as it was.
  pub polled-peers :
      (h : PeerHandler n o)
      → IsKnown n o h
      → NoneUnknown h
      → ((polled (length (o.names h.peers)) h).0 ≡ map (λ k. lookup k h.store) (o.names h.peers))
        × (o.names (polled (length (o.names h.peers)) h).1.peers ≡ o.names h.peers)
  polled-peers h known nay =
      polled_round (o.names h.peers) [] h known nay (sym (append-nil (o.names h.peers)))
