-- ===== src/Resolve/Tries.antt =====
-- peers/resolve.go: the choice of the next hostname, and the tries that are left.
use text.Mathlib.TextEquality.{eq_iff}
-- No host waits that failed too often.
use gobalance.Common.{
  ltb, eqb, lt→ltb, Bool-cases, of-some, All, length, Map, lookup, delete, delete_absent, Unique,
  string_key, nat_key, ◌==◌, ==_refl, ℕ, ◌+◌, ◌-◌, ◌*◌, ◌≤◌, ◌<◌, String, ◌≡◌, refl, ap, subst, ◌⊎◌,
  inl, inr, Option, none, some, [], ◌∷◌, arith,
}
use gobalance.Resolve.{get_next_hostname, next_from, retries_of, lookup_max_retries}
use gobalance.Config.{chosen}

abbrev pub IsWaiting : Map String ℕ → Type 0
IsWaiting hosts = Unique hosts × All (λ p. p.1 ≤ lookup_max_retries) hosts

-- the tries that are left
abbrev pub tries_left : Map String ℕ → ℕ
tries_left [] = 0
tries_left ((host, retries) ∷ hosts) = (6 - retries) + tries_left hosts

pub tries_left-delete :
    (host : String) (retries : ℕ) (hosts : Map String ℕ)
    → lookup host hosts ≡ some retries
    → Unique hosts
    → tries_left (delete host hosts) + (6 - retries) ≡ tries_left hosts
unfolding lookup delete
tries_left-delete host retries [] found u = ground arith
tries_left-delete host retries ((k, r) ∷ hosts) found (absent, u) = elim (Bool-cases (k == host)) [
  | inl same ↦
      let gone =
        delete_absent host hosts
          (subst (λ x. lookup x hosts ≡ none) ((eq_iff k host).0 same) absent) in
      rw (same, delete, gone) (ground (arith, found))
  | inr apart ↦ rw (apart, delete) (ground (arith, found, tries_left-delete host retries hosts))
]

All-from_zero : (r : ℕ) (hosts : Map String ℕ) → r ≡ 0 → All (λ p. r ≤ p.1) hosts
All-from_zero r [] h = tt
All-from_zero r (p ∷ hosts) h = (omega arith, All-from_zero r hosts h)

-- What is chosen against the choice so far.
abbrev pub IsLeast : Map String ℕ → Option (String × ℕ) → String → ℕ → Type 0
IsLeast hosts chosen h r =
    ((lookup h hosts ≡ some r) ⊎ (chosen ≡ some (h, r)))
    × All (λ p. r ≤ p.1) hosts
    × (r ≤ retries_of chosen)

-- The choice is the one so far or one of the list, and none of them has fewer retries.
pub next_from-IsLeast :
    (hosts : Map String ℕ) (chosen : Option (String × ℕ)) (h : String) (r : ℕ)
    → Unique hosts
    → next_from hosts chosen ≡ some (h, r)
    → IsLeast hosts chosen h r
unfolding next_from lookup
next_from-IsLeast [] chosen h r u e = (inr e, tt, ground (arith, e))
next_from-IsLeast ((k, s) ∷ hosts) chosen h r (absent, u) e =
    let from_zero = All-from_zero r hosts in
    elim (Bool-cases (ltb s (retries_of chosen))) [
      | inl fewer ↦ elim (Bool-cases (eqb s 0)) [
        | inl zero_so ↦
            let chose = of-some (rw (fewer, zero_so) at e) in
            let name = ap (λ p. p.0) chose in
            let tries = ap (λ p. p.1) chose in ground (arith, name, tries, eq_iff k h, from_zero)
        | inr more ↦
            let later = next_from-IsLeast hosts (some (k, s)) h r u (rw (fewer, more) at e) in
            ground (arith, later, eq_iff k h)
      ]
      | inr not_fewer ↦ elim (Bool-cases (eqb s 0)) [
        | inl zero_so ↦
            let kept = rw (not_fewer, zero_so) at e in
            let tries = ap retries_of kept in ground (arith, kept, tries, from_zero)
        | inr more ↦
            let later = next_from-IsLeast hosts chosen h r u (rw (not_fewer, more) at e) in
            ground (arith, later, eq_iff k h)
      ]
    ]

next_from-some :
    (hosts : Map String ℕ) (c : String × ℕ) → (d : String × ℕ) × (next_from hosts (some c) ≡ some d)
unfolding next_from
next_from-some [] c = (c, refl)
next_from-some ((k, s) ∷ hosts) c = elim (Bool-cases (ltb s c.1)) [
  | inl fewer ↦ elim (Bool-cases (eqb s 0)) [
    | inl zero_so ↦ ((k, s), rw (fewer, zero_so) refl)
    | inr more ↦ rw (fewer, more) (next_from-some hosts (k, s))
  ]
  | inr kept ↦ elim (Bool-cases (eqb s 0)) [
    | inl zero_so ↦ (c, rw (kept, zero_so) refl)
    | inr more ↦ rw (kept, more) (next_from-some hosts c)
  ]
]

pub tries_of :
    (host : String) (retries : ℕ) (hosts : Map String ℕ)
    → All (λ p. p.1 ≤ lookup_max_retries) hosts
    → lookup host hosts ≡ some retries
    → retries ≤ lookup_max_retries
unfolding lookup
tries_of host retries [] h found = ground arith
tries_of host retries ((k, r) ∷ hosts) h found = ground (arith, tries_of host retries hosts h.1)

pub delete-All :
    (host : String) (hosts : Map String ℕ)
    → All (λ p. p.1 ≤ lookup_max_retries) hosts
    → All (λ p. p.1 ≤ lookup_max_retries) (delete host hosts)
unfolding delete
delete-All host [] h = tt
delete-All host ((k, r) ∷ hosts) h = ground (arith, delete-All host hosts h.1)

pub some_next :
    (l : Map String ℕ)
    → ((k : String) (s : ℕ) → lookup k l ≡ some s → s ≤ lookup_max_retries)
    → (l ≡ []) ⊎ ((h : String) × (r : ℕ) × (get_next_hostname l ≡ some (h, r)))
unfolding get_next_hostname next_from lookup
some_next [] low = inl refl
some_next ((k, s) ∷ l) low =
    let small = low k s (rw (==_refl k) refl) in
    let fewer = lt→ltb s 100 (omega arith) in
    elim (Bool-cases (eqb s 0)) [
      | inl zero_so ↦ inr (k, s, rw (fewer, zero_so) refl)
      | inr more ↦ let ((h, r), e) = next_from-some l (k, s) in inr (h, r, rw (fewer, more) e)
    ]

pub same_empty :
    (l hosts : Map String ℕ) → ((k : String) → lookup k l ≡ lookup k hosts) → l ≡ [] → hosts ≡ []
unfolding lookup
same_empty l [] same e = refl
same_empty l ((k, s) ∷ hosts) same e = absurd (clash (found (same k)))
  where
    found : lookup k l ≡ lookup k ((k, s) ∷ hosts) → ◌≡◌ {A = Option ℕ} none (some s)
    found h = rw (e, ==_refl k) at h

    clash : ◌≡◌ {A = Option ℕ} none (some s) → ⊥
    clash h = cc

pub none_left : (hosts : Map String ℕ) → IsWaiting hosts → tries_left hosts ≤ 0 → hosts ≡ []
none_left [] w h = refl
none_left ((k, r) ∷ hosts) (u, (low, few)) h = absurd (omega arith)

pub tries_left-le : (hosts : Map String ℕ) → tries_left hosts ≤ 6 * length hosts
tries_left-le [] = omega arith
tries_left-le ((k, r) ∷ hosts) = omega (arith, tries_left-le hosts)

pub deleted_less :
    (h : String) (r : ℕ) (hosts : Map String ℕ)
    → IsWaiting hosts
    → lookup h hosts ≡ some r
    → tries_left (delete h hosts) < tries_left hosts
deleted_less h r hosts (u, few) there =
    omega (arith, tries_left-delete h r hosts there u, tries_of h r hosts few there)

-- getNextHostname returns a host that waits, and no host has failed fewer times.
pub get_next_hostname-least :
    (hosts : Map String ℕ) (h : String) (r : ℕ)
    → Unique hosts
    → get_next_hostname hosts ≡ some (h, r)
    → (lookup h hosts ≡ some r) × All (λ p. r ≤ p.1) hosts
unfolding get_next_hostname
get_next_hostname-least hosts h r u e = elim (next_from-IsLeast hosts none h r u e).0 [
  | inl there ↦ (there, (next_from-IsLeast hosts none h r u e).1)
  | inr bad ↦ ground arith
]
