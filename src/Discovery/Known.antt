-- ===== src/Discovery/Known.antt =====
-- peers/discovery.go: the keys of the peers against what the code knows of each peer.
use gobalance.Common.{
  if◌then◌else◌, Bool-cases, filter, Map, is_some, lookup, delete, insert, lookup-delete,
  lookup-insert, string_key, nat_key, ◌==◌, ℕ, ◌≤◌, String, ◌≡◌, refl, inl, inr, true, false, ◌||◌,
  not, Option, none, some, List, [], ◌∷◌, ◌++◌, arith,
}
use text.Mathlib.TextEquality.{eq_iff}
use gobalance.OrderedMap.{member, moved, without}
use gobalance.Peer.{Peer, peer_host}
use gobalance.Net.{Net}

pub member-without :
    (k j : String) (ks : List String)
    → member j (without k ks) ≡ (if k == j then false else member j ks)
member-without k j [] = ground arith
member-without k j (i ∷ ks) = elim (Bool-cases (i == k)) [
  | inl same ↦ rw (same, filter, not) (ground (arith, member-without k j ks, eq_iff i k))
  | inr apart ↦
      rw (apart, filter, not)
        (ground (arith, member-without k j ks, eq_iff i k, eq_iff i j, eq_iff k j))
]

member-append :
    (k j : String) (ks : List String) → member j (ks ++ k ∷ []) ≡ (member j ks || k == j)
member-append k j [] = ground arith
member-append k j (i ∷ ks) = ground (arith, member-append k j ks)

pub member-moved : (k j : String) (ks : List String) → member j (moved k ks) ≡ member j ks
member-moved k j [] = refl
member-moved k j (i ∷ ks) = ground (arith, member-moved k j ks, member-append i j ks)

abbrev pub set_names : String → List String → List String
set_names k ks = if member k ks then ks else ks ++ k ∷ []

pub member-set_names :
    (k j : String) (ks : List String) → member j (set_names k ks) ≡ (k == j || member j ks)
member-set_names k j ks = ground (arith, member-append k j ks, eq_iff k j)

abbrev pub Each : {A : Type 0} → (A → Type 0) → Option A → Type 0
Each P none = Unit
Each P (some a) = P a

module _ (n : Net) (max : ℕ) where
  -- The peer is the one that its key names, and has not failed too often.
  abbrev pub IsKept : String → Peer n → Type 0
  IsKept k peer = (peer_host n peer ≡ k) × (peer.connection_retries ≤ max)

  -- Every key has a peer, and no other name has one.
  abbrev pub AllKept : List String → Map String (Peer n) → Type 0
  AllKept ks store =
      (k : String) → (member k ks ≡ is_some (lookup k store)) × Each (IsKept k) (lookup k store)

  pub AllKept-delete :
      (a : String) (ks : List String) (store : Map String (Peer n))
      → AllKept ks store
      → AllKept (without a ks) (delete a store)
  AllKept-delete a ks store h k =
      rw (member-without a k ks, lookup-delete a k store) (ground (arith, h k))

  pub AllKept-assign :
      (a : String) (peer : Peer n) (ks : List String) (store : Map String (Peer n))
      → AllKept ks store
      → member a ks ≡ true
      → IsKept a peer
      → AllKept ks (insert a peer store)
  AllKept-assign a peer ks store h there kept k =
      rw (lookup-insert a k peer store) (ground (arith, h k, eq_iff a k))

  pub AllKept-set :
      (a : String) (peer : Peer n) (ks : List String) (store : Map String (Peer n))
      → AllKept ks store
      → IsKept a peer
      → AllKept (set_names a ks) (insert a peer store)
  AllKept-set a peer ks store h kept k =
      rw (member-set_names a k ks, lookup-insert a k peer store) (ground (arith, h k, eq_iff a k))

  pub AllKept-moved :
      (a : String) (ks : List String) (store : Map String (Peer n))
      → AllKept ks store
      → AllKept (moved a ks) store
  AllKept-moved a ks store h k = rw (member-moved a k ks) (h k)

  pub AllKept-reset :
      (a : String) (peer : Peer n) (ks : List String) (store : Map String (Peer n))
      → AllKept ks store
      → AllKept (without a ks) (delete a (insert a peer store))
  AllKept-reset a peer ks store h k =
      rw
        (
          member-without a k ks,
          lookup-delete a k (insert a peer store),
          lookup-insert a k peer store,
        )
        (ground (arith, h k, eq_iff a k))
