-- ===== src/Crawler/Fetched.antt =====
-- crawler/fetcher.go: the blocks that the fetcher buffers.
use gobalance.Common.{
  ltb, leb, Bool-cases, Option-cases, All, add64, ℕ, ◌≡◌, refl, sym, ap, ◌∙◌, subst, ◌⊎◌, inl, inr,
  true, some, List, [], ◌∷◌, ◌++◌,
}
use gobalance.Crawler.Fetcher.{
  fetcher_run, fetcher_start, BlockRecord, fetcher_step, FetcherState, retry, buffer_block,
  NodeAnswers, read_block,
}
use gobalance.Utils.Shuffled.{count}
use gobalance.OrderedMap.{moved}

-- Each record has the next height, from this one on.
abbrev pub Consecutive : ℕ → List BlockRecord → Type 0
Consecutive h [] = Unit
Consecutive h (r ∷ rs) = (r.height ≡ h) × Consecutive (add64 h 1) rs

abbrev pub after : ℕ → List BlockRecord → ℕ
after h [] = h
after h (r ∷ rs) = after (add64 h 1) rs

Consecutive-append :
    (h : ℕ) (rs us : List BlockRecord)
    → Consecutive h rs
    → Consecutive (after h rs) us
    → Consecutive h (rs ++ us)
Consecutive-append h [] us c k = k
Consecutive-append h (r ∷ rs) us c k = (c.0, Consecutive-append (add64 h 1) rs us c.1 k)

after-append : (h : ℕ) (rs us : List BlockRecord) → after h (rs ++ us) ≡ after (after h rs) us
after-append h [] us = refl
after-append h (r ∷ rs) us = after-append (add64 h 1) rs us

-- A turn buffers one block of the fetcher's height, which goes up by one, or none, and then it
-- stays.
abbrev Turned : FetcherState → FetcherState × List BlockRecord → Type 0
Turned s p = Consecutive s.height p.1 × (p.0.height ≡ after s.height p.1)

read_block-Turned : (node : NodeAnswers) (s : FetcherState) → Turned s (read_block node s)
unfolding read_block retry buffer_block
read_block-Turned node s = elim (Option-cases (node.block_hash s.height)) [
  | inl absent ↦ rw (absent, read_block) (tt, refl)
  | inr (hash, found) ↦ elim (Option-cases (node.block hash)) [
    | inl absent ↦ rw (found, absent, read_block) (tt, refl)
    | inr (block, got) ↦ elim (Bool-cases node.stop_signal) [
      | inl stop ↦ rw (found, got, stop, read_block) (tt, refl)
      | inr go ↦ rw (found, got, go, read_block) ((refl, tt), refl)
    ]
  ]
]

fetcher_step-Turned : (node : NodeAnswers) (s : FetcherState) → Turned s (fetcher_step node s)
unfolding fetcher_step retry
fetcher_step-Turned node s = elim (Bool-cases s.running) [
  | inr over ↦ rw (over, fetcher_step) (tt, refl)
  | inl on ↦ elim (Bool-cases (ltb s.top_height s.height)) [
    | inr below ↦
        rw (on, below, fetcher_step) (read_block-Turned node (record s { running = true }))
    | inl at_top ↦ elim (Option-cases node.block_count) [
      | inl absent ↦ rw (on, at_top, absent, fetcher_step) (tt, refl)
      | inr (count, counted) ↦ elim (Bool-cases (leb count s.top_height)) [
        | inl old ↦ rw (on, at_top, counted, old, fetcher_step) (tt, refl)
        | inr new ↦
            rw (on, at_top, counted, new, fetcher_step)
              (read_block-Turned node (record s { top_height = count; retries = 0 }))
      ]
    ]
  ]
]

run-Turned : (nodes : List NodeAnswers) (s : FetcherState) → Turned s (fetcher_run nodes s)
unfolding fetcher_run
run-Turned [] s = (tt, refl)
run-Turned (node ∷ nodes) s =
    let (first, moved) = fetcher_step-Turned node s in
    let (rest, end) = run-Turned nodes (fetcher_step node s).0 in
    (
      Consecutive-append s.height (fetcher_step node s).1 _ first
          (subst (λ h. Consecutive h (fetcher_run nodes (fetcher_step node s).0).1) moved rest),
      end
          ∙ ap (λ h. after h (fetcher_run nodes (fetcher_step node s).0).1) moved
          ∙ sym (after-append s.height (fetcher_step node s).1 _),
    )

-- The node gives the hash of the record for its height, and the block of the record for the hash.
abbrev pub Fetches : NodeAnswers → BlockRecord → Type 0
Fetches node r =
    (node.block_hash r.height ≡ some r.block_hash) × (node.block r.block_hash ≡ some r.block)

-- in one of these turns
abbrev pub FetchedIn : List NodeAnswers → BlockRecord → Type 0
FetchedIn [] r = ⊥
FetchedIn (node ∷ nodes) r = Fetches node r ⊎ FetchedIn nodes r

All-both :
    {P Q R : BlockRecord → Type 0} (rs us : List BlockRecord)
    → ((r : BlockRecord) → P r → R r)
    → ((r : BlockRecord) → Q r → R r)
    → All P rs
    → All Q us
    → All R (rs ++ us)
All-both [] [] f g p q = tt
All-both [] (u ∷ us) f g p q = (g u q.0, All-both [] us f g tt q.1)
All-both (r ∷ rs) us f g p q = (f r p.0, All-both rs us f g p.1 q)

read_block-Fetches :
    (node : NodeAnswers) (s : FetcherState) → All (Fetches node) (read_block node s).1
unfolding read_block retry buffer_block
read_block-Fetches node s = elim (Option-cases (node.block_hash s.height)) [
  | inl absent ↦ rw (absent, read_block) tt
  | inr (hash, found) ↦ elim (Option-cases (node.block hash)) [
    | inl absent ↦ rw (found, absent, read_block) tt
    | inr (block, got) ↦ elim (Bool-cases node.stop_signal) [
      | inl stop ↦ rw (found, got, stop, read_block) tt
      | inr go ↦ rw (found, got, go, read_block) ((found, got), tt)
    ]
  ]
]

fetcher_step-Fetches :
    (node : NodeAnswers) (s : FetcherState) → All (Fetches node) (fetcher_step node s).1
unfolding fetcher_step retry
fetcher_step-Fetches node s = elim (Bool-cases s.running) [
  | inr over ↦ rw (over, fetcher_step) tt
  | inl on ↦ elim (Bool-cases (ltb s.top_height s.height)) [
    | inr below ↦
        rw (on, below, fetcher_step) (read_block-Fetches node (record s { running = true }))
    | inl at_top ↦ elim (Option-cases node.block_count) [
      | inl absent ↦ rw (on, at_top, absent, fetcher_step) tt
      | inr (count, counted) ↦ elim (Bool-cases (leb count s.top_height)) [
        | inl old ↦ rw (on, at_top, counted, old, fetcher_step) tt
        | inr new ↦
            rw (on, at_top, counted, new, fetcher_step)
              (read_block-Fetches node (record s { top_height = count; retries = 0 }))
      ]
    ]
  ]
]

run-FetchedIn :
    (nodes : List NodeAnswers) (s : FetcherState) → All (FetchedIn nodes) (fetcher_run nodes s).1
unfolding fetcher_run
run-FetchedIn [] s = tt
run-FetchedIn (node ∷ nodes) s =
    All-both (fetcher_step node s).1 (fetcher_run nodes (fetcher_step node s).0).1 (λ r h. inl h)
      (λ r h. inr h) (fetcher_step-Fetches node s) (run-FetchedIn nodes (fetcher_step node s).0)

-- Whatever the node answers, errors included, the blocks that the fetcher buffers have the height
-- that it was started at, the next one, and so on, none left out and none twice; each has the hash
-- that the node gave in one of the turns for that height, and is the block that the node gave then
-- for that hash; and the fetcher asks next for the height after the last of them.
pub fetcher_run-Consecutive :
    (nodes : List NodeAnswers) (height : ℕ)
    → let (after_run, records) = fetcher_run nodes (fetcher_start height) in
      Consecutive height records
      × All (FetchedIn nodes) records
      × (after_run.height ≡ after height records)
unfolding fetcher_start
fetcher_run-Consecutive nodes height =
    let (consecutive, end) = run-Turned nodes (fetcher_start height) in
    (consecutive, run-FetchedIn nodes (fetcher_start height), end)
