-- ===== src/Lru.antt =====
-- The cache of github.com/secnot/simplelru as the program uses it, from addresses to balances or
-- from clients to peers, and what the program relies on: `Get` returns the value that was last set
-- for a key, or none if it was pruned; `Set` may prune any other keys.
use gobalance.Common.{
  Map, lookup, insert, lookup-insert, string_key, nat_key, ◌==◌, ==_refl, ℕ, String, ◌≡◌, refl,
  false, Option, none, some, [], arith,
}

pub record Lru (V : Type 0) : Type 1 where
  pub Cache : Type 0
  pub new_cache : ℕ → ℕ → Cache
  pub cached : String → Cache → Option V
  pub get : String → Cache → Option V × Cache
  pub set : String → V → Cache → Cache
  pub cached-new : (size prune : ℕ) (k : String) → cached k (new_cache size prune) ≡ none
  pub get_lem : (k : String) (c : Cache) → (get k c).0 ≡ cached k c
  pub cached-get : (k j : String) (c : Cache) → cached j (get k c).1 ≡ cached j c
  pub set_lem : (k : String) (v w : V) (c : Cache) → cached k (set k v c) ≡ some w → w ≡ v
  pub kept :
      (k j : String) (v w : V) (c : Cache)
      → (k == j) ≡ false
      → cached j (set k v c) ≡ some w
      → cached j c ≡ some w

pub set_here :
    {V : Type 0} (k : String) (v w : V) (c : Map String V)
    → lookup k (insert k v c) ≡ some w
    → w ≡ v
set_here k v w c h = ground (arith, lookup-insert k k v c, ==_refl k)

pub set_there :
    {V : Type 0} (k j : String) (v w : V) (c : Map String V)
    → (k == j) ≡ false
    → lookup j (insert k v c) ≡ some w
    → lookup j c ≡ some w
set_there k j v w c ne h = ground (arith, lookup-insert k j v c)

pub lookup_nothing : {V : Type 0} (k : String) → lookup {V = V} k [] ≡ none
unfolding lookup
lookup_nothing k = refl

-- A cache that never prunes: what is assumed can be met.
abbrev pub map_lru : {V : Type 0} → Lru V
map_lru {V} = record {
  Cache = Map String V;
  new_cache = λ size prune. [];
  cached = λ k c. lookup k c;
  get = λ k c. (lookup k c, c);
  set = λ k v c. insert k v c;
  cached-new = λ size prune k. lookup_nothing k;
  get_lem = λ k c. refl;
  cached-get = λ k j c. refl;
  set_lem = λ k v w c h. set_here k v w c h;
  kept = λ k j v w c ne h. set_there k j v w c ne h;
}
