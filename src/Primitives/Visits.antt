-- ===== src/Primitives/Visits.antt =====
-- Callbacks under `ForEachAddress` of primitives/primitives.go, over one transaction and over the
-- transactions of a block: what they do to a state that is seen address by address.
use gobalance.Common.{
  if◌then◌else◌, ◌>>=◌, lookup, update_at, Refines, run_entries-Refines, Int64, nat_key, string_key,
  String, ◌≡◌, refl, ◌∙◌, subst, Bool, true, Option, none, some, List, [], ◌∷◌, arith,
}
use gobalance.Primitives.{Tx, RangeOrder, IsRangeOrder, address_balances, for_each_address}
use gobalance.Primitives.Deltas.{delta, touches, lookup-address_balances, address_balances-Unique}

-- The loops `for _, tx := range block.Transactions`.
unfoldable pub each_tx : {S : Type 0} → (Tx → S → Option S) → List Tx → S → Option S
each_tx body [] s = some s
each_tx body (t ∷ ts) s = body t s >>= λ s'. each_tx body ts s'

module _ {O : Type 0} (upd : Tx → Int64 → O → O) where
  -- What one transaction does to the view of an address, if the callback does `upd`.
  abbrev pub visit : String → Tx → O → O
  visit a t o = if touches a t then upd t (delta a t) o else o

  abbrev pub visits : String → List Tx → O → O
  visits a [] o = o
  visits a (t ∷ ts) o = visits a ts (visit a t o)

  -- The callback may run each time that it is called for the address.
  abbrev pub AllReady : (O → Bool) → String → List Tx → O → Type 0
  AllReady ready a [] o = Unit
  AllReady ready a (t ∷ ts) o =
      (touches a t ≡ true → ready o ≡ true) × AllReady ready a ts (visit a t o)

module _ {S O : Type 0} (Shows : String → S → O → Type 0) (act : String → Int64 → Tx → S → Option S)
    (upd : Tx → Int64 → O → O) (ready : O → Bool)
    (turn : (t : Tx) (k : String) (v : Int64) (s : S) (view : String → O)
      → Refines Shows s view
      → ready (view k) ≡ true
      → (s' : S) × (act k v t s ≡ some s') × Refines Shows s' (update_at (upd t) k v view))
    (order : RangeOrder) (ranges : IsRangeOrder order) where
  entry_of :
      (t : Tx) (a : String)
      → lookup a (order t (address_balances t)) ≡ (if touches a t then some (delta a t) else none)
  entry_of t a = (ranges t _ (address_balances-Unique t)).same a ∙ lookup-address_balances a t

  ready_of_entry :
      (t : Tx) (a : String) (v : Int64) (o : O)
      → (touches a t ≡ true → ready o ≡ true)
      → lookup a (order t (address_balances t)) ≡ some v
      → ready o ≡ true
  ready_of_entry t a v o h found = ground (arith, entry_of t a)

  -- One transaction: the callback runs once for each address that it touches.
  pub for_each_address-Refines :
      (t : Tx) (s : S) (view : String → O)
      → ((a : String) → touches a t ≡ true → ready (view a) ≡ true)
      → Refines Shows s view
      → (s' : S) × (for_each_address order act t s ≡ some s')
        × Refines Shows s' (λ a. visit upd a t (view a))
  unfolding for_each_address
  for_each_address-Refines t s view h r =
      let (s', ran, r') =
        run_entries-Refines Shows (λ k v. act k v t) (upd t) ready (turn t)
          (order t (address_balances t)) s view (ranges t _ (address_balances-Unique t)).unique
          (λ k v found. ready_of_entry t k v (view k) (h k) found) r in
      (s', ran, λ a. subst (Shows a s') (ground (arith, entry_of t a)) (r' a))

  pub each_tx-Refines :
      (ts : List Tx) (s : S) (view : String → O)
      → ((a : String) → AllReady upd ready a ts (view a))
      → Refines Shows s view
      → (s' : S) × (each_tx (for_each_address order act) ts s ≡ some s')
        × Refines Shows s' (λ a. visits upd a ts (view a))
  unfolding each_tx
  each_tx-Refines [] s view h r = (s, refl, r)
  each_tx-Refines (t ∷ ts) s view h r =
      let (s₁, ran, r₁) = for_each_address-Refines t s view (λ a. (h a).0) r in
      let (s', rest, r') = each_tx-Refines ts s₁ (λ a. visit upd a t (view a)) (λ a. (h a).1) r₁ in
      (s', rw (ran, ◌>>=◌) rest, r')
