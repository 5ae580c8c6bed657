-- ===== src/Discovery/Polling.antt =====
-- peers/discovery.go: which peer the handler turns to next.
use gobalance.Common.{
  Bool-cases, Option-cases, All, Map, lookup, string_key, nat_key, ◌==◌, String, ◌≡◌, refl, ap, ◌∙◌,
  subst, ◌⊎◌, inl, inr, Bool, true, false, none, some, List, [], ◌∷◌, ◌++◌, arith,
}
use gobalance.Discovery.{PeerHandler}
use gobalance.Discovery.Steps.{after, select_first_peer, first_accepted}
use gobalance.Peer.{Peer, peer_host}
use gobalance.Discovery.Known.{Each}
use gobalance.Discovery.Kept.{found-IsKept, find_peer-eq-lookup, IsKnown}
use gobalance.OrderedMap.{moved_first, member, OrderedMap, moved}
use gobalance.Net.{Net}
use text.Mathlib.TextEquality.{eq_iff}

moved_middle :
    (k : String) (before after : List String)
    → member k before ≡ false
    → moved k (before ++ k ∷ after) ≡ before ++ (after ++ k ∷ [])
moved_middle k [] after h = moved_first k after
moved_middle k (j ∷ before) after h = ground (arith, moved_middle k before after)

module _ (n : Net) (o : OrderedMap) where
  -- the peer of the key, if any, is not accepted
  abbrev pub Rejects : (Peer n → Bool) → Map String (Peer n) → String → Type 0
  Rejects selector store k = Each (λ peer. selector peer ≡ false) (lookup k store)

  abbrev pub IsFirst :
      (Peer n → Bool)
      → Map String (Peer n)
      → List String
      → List String
      → String
      → List String
      → Peer n
      → Type 0
  IsFirst selector store ks before k after peer =
      (ks ≡ before ++ k ∷ after)
      × All (Rejects selector store) before
      × (lookup k store ≡ some peer)
      × (selector peer ≡ true)

  first_accepted-cases :
      (selector : Peer n → Bool) (store : Map String (Peer n)) (ks : List String)
      → (All (Rejects selector store) ks × (first_accepted n o selector store ks ≡ none))
        ⊎ ((before : List String) × (k : String) × (after : List String) × (peer : Peer n) × IsFirst
              selector store ks before k after peer
            × (first_accepted n o selector store ks ≡ some peer))
  unfolding first_accepted
  first_accepted-cases selector store [] = inl (tt, refl)
  first_accepted-cases selector store (k ∷ ks) = elim (Option-cases (lookup k store)) [
    | inl absent ↦ elim (first_accepted-cases selector store ks) [
      | inl (all_no, same) ↦ inl ((rw absent tt, all_no), rw (absent, first_accepted) same)
      | inr (before, j, after, peer, (split, nay, there, aye), same) ↦ inr (
        k ∷ before,
        j,
        after,
        peer,
        (ap (◌∷◌ k) split, (rw absent tt, nay), there, aye),
        rw (absent, first_accepted) same,
      )
    ]
    | inr (peer, there) ↦ elim (Bool-cases (selector peer)) [
      | inl aye ↦
          inr ([], k, ks, peer, (refl, tt, there, aye), rw (there, first_accepted, aye) refl)
      | inr refused ↦ elim (first_accepted-cases selector store ks) [
        | inl (all_no, same) ↦
            inl ((rw there refused, all_no), rw (there, first_accepted, refused) same)
        | inr (before, j, after, found, (split, nay, has_one, aye), same) ↦ inr (
          k ∷ before,
          j,
          after,
          found,
          (ap (◌∷◌ k) split, (rw there refused, nay), has_one, aye),
          rw (there, first_accepted, refused) same,
        )
      ]
    ]
  ]

  clash : (b : Bool) → b ≡ false → b ≡ true → ⊥
  clash b h k = cc

  rejected-absent :
      (selector : Peer n → Bool) (store : Map String (Peer n)) (k : String) (peer : Peer n)
      (before : List String)
      → All (Rejects selector store) before
      → lookup k store ≡ some peer
      → selector peer ≡ true
      → member k before ≡ false
  rejected-absent selector store k peer [] nay there aye = refl
  rejected-absent selector store k peer (j ∷ before) nay there aye =
      let rest = rejected-absent selector store k peer before nay.1 there aye in
      elim (Bool-cases (j == k)) [
        | inr apart ↦ rw apart rest
        | inl same ↦
            let refused = subst (Rejects selector store) ((eq_iff j k).0 same) nay.0 in
            absurd (clash (selector peer) (rw there at refused) aye)
      ]

  -- selectFirstPeer returns the first peer in order that is accepted and moves it to the end,
  -- leaving the others in their order; where none is accepted it returns none and changes nothing.
  pub select_first_peer-IsFirst :
      (selector : Peer n → Bool) (h : PeerHandler n o)
      → IsKnown n o h
      → (All (Rejects selector h.store) (o.names h.peers)
          × (select_first_peer n o selector h ≡ (none, h)))
        ⊎ ((before : List String) × (k : String) × (after : List String) × (peer : Peer n) × IsFirst
              selector h.store
              (o.names h.peers)
              before
              k
              after
              peer
            × ((select_first_peer n o selector h).0 ≡ some peer)
            × (o.names (select_first_peer n o selector h).1.peers ≡ before ++ (after ++ k ∷ []))
            × ((select_first_peer n o selector h).1.store ≡ h.store))
  unfolding select_first_peer
  select_first_peer-IsFirst selector h known =
      elim (first_accepted-cases selector h.store (o.names h.peers)) [
        | inl (nay, same) ↦ inl (nay, rw (same, select_first_peer) refl)
        | inr (before, k, after, peer, (split, nay, there, aye), same) ↦
            let absent = rejected-absent selector h.store k peer before nay there aye in
            let host =
              (found-IsKept n o k peer h known (find_peer-eq-lookup n o k h known ∙ there)).1.0 in
            inr (
              before,
              k,
              after,
              peer,
              (split, nay, there, aye),
              rw (same, select_first_peer) refl,
              rw
                  (
                    same,
                    select_first_peer,
                    o.names-move_last (peer_host n peer) h.peers,
                    host,
                    split,
                  )
                  (moved_middle k before after absent),
              rw (same, select_first_peer) refl,
            )
      ]
