-- ===== src/Resolve/Drained.antt =====
-- peers/resolve.go: a hostname does not wait for ever.
-- A range over the hosts meets each once, in some order.
use gobalance.Common.{
  length, Map, lookup, insert, lookup-delete, Unique, delete-Unique, Enumerates, string_key,
  nat_key, ==_refl, ℕ, zero, suc, ◌*◌, ◌≤◌, ◌<◌, String, ◌≡◌, refl, sym, ◌∙◌, ◌⊎◌, inl, inr, none,
  some, [], arith,
}
use gobalance.Hosts.{resolve_hostname, Parsed-cases}
use gobalance.Resolve.Tries.{
  none_left, some_next, tries_left-delete, tries_of, next_from-IsLeast, tries_left, deleted_less,
  tries_left-le, same_empty, delete-All, IsWaiting,
}
use gobalance.Resolve.{do_resolve, get_next_hostname, lookup_failed, next_from}
use gobalance.Net.{Net}

module _ (n : Net) (order : Map String ℕ → Map String ℕ)
    (enumerates : (m : Map String ℕ) → Unique m → Enumerates (order m) m) where
  found_waiting :
      (hosts : Map String ℕ) (h : String) (r : ℕ)
      → IsWaiting hosts
      → get_next_hostname (order hosts) ≡ some (h, r)
      → lookup h hosts ≡ some r
  unfolding get_next_hostname
  found_waiting hosts h r (u, few) e =
      let all_met = enumerates hosts u in
      elim (next_from-IsLeast (order hosts) none h r all_met.unique e).0 [
        | inl there ↦ sym (all_met.same h) ∙ there
        | inr bad ↦ ground arith
      ]

  none_waiting :
      (hosts : Map String ℕ)
      → IsWaiting hosts
      → (hosts ≡ []) ⊎ ((h : String) × (r : ℕ) × (get_next_hostname (order hosts) ≡ some (h, r)))
  none_waiting hosts (u, few) =
      let all_met = enumerates hosts u in
      elim (some_next (order hosts)
        (λ k s found. tries_of k s hosts few (sym (all_met.same k) ∙ found))) [
          | inl empty ↦ inl (same_empty (order hosts) hosts all_met.same empty)
          | inr next ↦ inr next
        ]

  failed-IsWaiting :
      (h : String) (r : ℕ) (hosts : Map String ℕ)
      → IsWaiting hosts
      → lookup h hosts ≡ some r
      → IsWaiting (lookup_failed n order h hosts)
        × (tries_left (lookup_failed n order h hosts) < tries_left hosts)
  unfolding lookup_failed insert
  failed-IsWaiting h r hosts (u, few) there =
      let left = tries_left-delete h r hosts there u in
      let low = tries_of h r hosts few there in
      let unique = delete-Unique h hosts u in
      let absent = lookup-delete h h hosts in
      let kept = delete-All h hosts few in
      rw (there, lookup_failed) (ground (arith, left, low, unique, absent, kept, ==_refl h))

  tick-IsWaiting :
      (hosts : Map String ℕ)
      → IsWaiting hosts
      → (hosts ≡ [])
        ⊎ (IsWaiting (do_resolve n order hosts).0
            × (tries_left (do_resolve n order hosts).0 < tries_left hosts))
  unfolding do_resolve
  tick-IsWaiting hosts w = elim (none_waiting hosts w) [
    | inl empty ↦ inl empty
    | inr (h, r, next) ↦
        let there = found_waiting hosts h r w next in
        elim (Parsed-cases (resolve_hostname n h)) [
          | inr (x, bad) ↦
              let (waits, less) = failed-IsWaiting h r hosts w there in
              inr (rw (next, do_resolve, bad) (waits, less))
          | inl (address, found) ↦ inr (
              rw (next, do_resolve, found)
                (
                  (delete-Unique h hosts w.0, delete-All h hosts w.1),
                  deleted_less h r hosts w there,
                ))
        ]
  ]

  -- the hosts after a number of turns of the ticker
  abbrev pub tick_all : ℕ → Map String ℕ → Map String ℕ
  tick_all zero hosts = hosts
  tick_all (suc k) hosts = tick_all k (do_resolve n order hosts).0

  tick_empty : (do_resolve n order []).0 ≡ []
  unfolding do_resolve get_next_hostname next_from
  tick_empty =
      let all_met = enumerates [] tt in
      rw (same_empty [] (order []) (λ k. sym (all_met.same k)) refl, do_resolve) refl

  ticks_empty : (k : ℕ) → tick_all k [] ≡ []
  ticks_empty zero = refl
  ticks_empty (suc k) = rw (tick_empty, tick_all) (ticks_empty k)

  ticks_drain :
      (k : ℕ) (hosts : Map String ℕ)
      → IsWaiting hosts
      → tries_left hosts ≤ k
      → tick_all k hosts ≡ []
  ticks_drain zero hosts w few = none_left hosts w few
  ticks_drain (suc k) hosts w few = elim (tick-IsWaiting hosts w) [
    | inr (waits, less) ↦
        ticks_drain k (do_resolve n order hosts).0 waits (omega (arith, less, few))
    | inl empty ↦ rw (empty, tick_all) (ticks_empty (suc k))
  ]

  -- If no request comes, no hostname waits any more after six turns of the ticker for each that
  -- waits, whether the lookups succeed or fail, and in whatever order the map is gone through.
  pub tick_all-drains :
      (k : ℕ) (hosts : Map String ℕ)
      → IsWaiting hosts
      → 6 * length hosts ≤ k
      → tick_all k hosts ≡ []
  tick_all-drains k hosts w enough =
      ticks_drain k hosts w (omega (arith, tries_left-le hosts, enough))
