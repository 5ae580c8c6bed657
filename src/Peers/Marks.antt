-- ===== src/Peers/Marks.antt =====
-- peers/manager.go: the marks of a peer that are not older than the period, and when a peer is
-- dropped.
use gobalance.Common.{
  ltb, if◌then◌else◌, Bool-cases, length, head?, tail, length-append, get_or, lookup, string_key,
  nat_key, ℕ, zero, suc, ◌-◌, ◌≤◌, String, ◌≡◌, refl, ap, ◌∙◌, inl, inr, true, some, List, [], ◌∷◌,
  ◌++◌, arith,
}
use gobalance.Peers.{add_unreachable_mark, drop_expired, PeerManager}
use gobalance.Deque.{Deque}
use gobalance.OrderedMap.{OrderedMap}
use gobalance.Lru.{Lru}

-- The marks from the first one that is not expired.
abbrev pub live : ℕ → ℕ → List ℕ → List ℕ
live now period [] = []
live now period (t ∷ ts) = if ltb period (now - t) then live now period ts else t ∷ ts

module _ (d : Deque) (now period : ℕ) where
  sized : {l n : ℕ} → l ≡ suc n → ltb 0 l ≡ true
  sized h = ground arith

  drop_expired-live :
      (fuel : ℕ) (q : d.Queue ℕ) (ts : List ℕ)
      → d.items q ≡ ts
      → length ts ≤ fuel
      → (q' : d.Queue ℕ) × (drop_expired d fuel now period q ≡ some q')
        × (d.items q' ≡ live now period ts)
  unfolding drop_expired
  drop_expired-live zero q [] same enough = (q, refl, same)
  drop_expired-live zero q (t ∷ ts) same enough = absurd (omega arith)
  drop_expired-live (suc fuel) q [] same enough = (q, rw (d.len_lem q ∙ ap length same), same)
  drop_expired-live (suc fuel) q (t ∷ ts) same enough = elim (Bool-cases (ltb period (now - t))) [
    | inl expired ↦
        let (q', ran, left) =
          drop_expired-live fuel (d.pop_front q).1 ts (d.items-pop_front q ∙ ap tail same)
            (omega arith) in
        (
          q',
          rw (sized (d.len_lem q ∙ ap length same), d.front_lem q ∙ ap head? same, expired) ran,
          rw expired left,
        )
    | inr fresh ↦ (
      q,
      rw (sized (d.len_lem q ∙ ap length same), d.front_lem q ∙ ap head? same, fresh),
      rw fresh same,
    )
  ]

  -- `addUnreachableMark` ends, and leaves the marks with the new one from the first that is not
  -- older than the period.
  pub add_unreachable_mark-live :
      (q : d.Queue ℕ)
      → (q' : d.Queue ℕ) × (add_unreachable_mark d now period q ≡ some q')
        × (d.items q' ≡ live now period (d.items q ++ now ∷ []))
  unfolding add_unreachable_mark
  add_unreachable_mark-live q =
      drop_expired-live (suc (d.len q)) (d.push_back now q) (d.items q ++ now ∷ [])
        (d.items-push_back now q) (omega (arith, d.len_lem q, length-append (d.items q) (now ∷ [])))

module _ (d : Deque) (o : OrderedMap) (l : Lru String) where
  -- The marks of the peer that count at this time, with a new one.
  abbrev pub counting : ℕ → String → PeerManager d o l → List ℕ
  counting now peer p =
      live now p.unreachable_period (d.items (get_or (lookup peer p.marks) d.new) ++ now ∷ [])
