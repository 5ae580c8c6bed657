-- ===== src/Common/Entries.antt =====
-- A `range` over a map whose body may panic, and what it does to a state that is observed key by
-- key.
use mathlib.Core.Path.{◌≡◌, refl, subst}
use mathlib.Core.Bool.{Bool, true}
use mathlib.Core.List.{[], ◌∷◌}
use mathlib.Core.Option.{Option, none, some}
use native.Mathlib.Omega.{arith}
use gobalance.Common.Tests.{if◌then◌else◌, ◌>>=◌}
use gobalance.Common.Equality.{Key, ◌==◌, ==_refl}
use gobalance.Common.Maps.{Map, lookup, Unique}

module _ {S K V : Type 0} where
  unfoldable pub run_entries : (K → V → S → Option S) → Map K V → S → Option S
  run_entries step [] s = some s
  run_entries step ((k, v) ∷ l) s = step k v s >>= λ s'. run_entries step l s'

module _ {O V : Type 0} where
  abbrev pub update_with : (V → O → O) → Option V → O → O
  update_with upd none o = o
  update_with upd (some v) o = upd v o

module _ {K V O : Type 0} ⦃e : Key K⦄ where
  abbrev pub update_at : (V → O → O) → K → V → (K → O) → K → O
  update_at upd k v view a = if k == a then upd v (view a) else view a

-- `Shows a s o`: what the state `s` holds for the key `a` is `o`.
abbrev pub Refines : {S K O : Type 0} → (K → S → O → Type 0) → S → (K → O) → Type 0
Refines {K} Shows s view = (a : K) → Shows a s (view a)

module _ {S K V O : Type 0} ⦃e : Key K⦄ (Shows : K → S → O → Type 0) (step : K → V → S → Option S)
    (upd : V → O → O) (ready : O → Bool)
    (turn : (k : K) (v : V) (s : S) (view : K → O)
      → Refines Shows s view
      → ready (view k) ≡ true
      → (s' : S) × (step k v s ≡ some s') × Refines Shows s' (update_at upd k v view)) where
  later_ready :
      (k : K) (v : V) (l : Map K V) (view : K → O)
      → lookup k l ≡ none
      → ((j : K) (w : V) → lookup j ((k, v) ∷ l) ≡ some w → ready (view j) ≡ true)
      → (j : K) (w : V) → lookup j l ≡ some w
      → ready (update_at upd k v view j) ≡ true
  unfolding lookup
  later_ready k v l view absent h j w found = ground (arith, h j w, e.test_iff k j)

  view_after :
      (k : K) (v : V) (l : Map K V) (view : K → O) (a : K)
      → lookup k l ≡ none
      → update_with upd (lookup a l) (update_at upd k v view a)
        ≡ update_with upd (lookup a ((k, v) ∷ l)) (view a)
  unfolding lookup
  view_after k v l view a absent = ground (arith, e.test_iff k a)

  pub run_entries-Refines :
      (l : Map K V) (s : S) (view : K → O)
      → Unique l
      → ((k : K) (v : V) → lookup k l ≡ some v → ready (view k) ≡ true)
      → Refines Shows s view
      → (s' : S) × (run_entries step l s ≡ some s')
        × Refines Shows s' (λ a. update_with upd (lookup a l) (view a))
  unfolding run_entries lookup
  run_entries-Refines [] s view u h r = (s, refl, r)
  run_entries-Refines ((k, v) ∷ l) s view (absent, u) h r =
      let (s₁, ran, r₁) = turn k v s view r (h k v (ground (arith, ==_refl k))) in
      let (s', rest, r') =
        run_entries-Refines l s₁ (update_at upd k v view) u (later_ready k v l view absent h) r₁ in
      (s', rw (ran, ◌>>=◌) rest, λ a. subst (Shows a s') (view_after k v l view a absent) (r' a))
