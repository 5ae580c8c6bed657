-- ===== src/BlockManager/Silence.antt =====
-- block_manager/block_manager.go: what the loop of `managerRoutine` sends to subscribers, which it
-- registers in a variable of its own, while `signalSubscribers` reads a field of the manager.
pub mod Kept
use gobalance.BlockManager.Silence.Kept.{process_block_update_keeps, manager_commit_keeps}
use gobalance.Common.{
  Bool-cases, Option-cases, of-some, All, ℕ, ◌≡◌, refl, ◌∙◌, subst, inl, inr, Bool, true, false,
  ◌&&◌, not, Option, none, some, List, [], ◌∷◌, ◌++◌, arith,
}
use gobalance.BlockManager.{
  start, BlockUpdate, manager_add_block, storage_error, manager_commit, backtrack_block, returned,
  get_block_inputs, Outcome, build_block, failed, commit_required, confirm, confirm_first,
  queue_block, BlockManager,
}
use gobalance.Primitives.{Hash, Block, RangeOrder}
use gobalance.BlockQueue.{push_back}
use gobalance.Deque.{Deque}
use gobalance.Storage.{err, Result, ok, Storage}
use gobalance.BlockManager.Routine.{
  manager_run, routine_start, Event, stop, block_update, timer_expired, manager_step, unsubscribe,
  height_request, RoutineState, subscribe, balance_request, on_block, sync_request, new_block_at,
  process_block_update, on_timer, backtrack_one, signal_subscribers, unknown_update, to_subscriber,
  ChainUpdate, Message, schedule_commit,
}
use gobalance.Wire.{WireBlock, Wire}
use gobalance.Storage.Cache.{StorageCache}

module _ (d : Deque) (api : Storage) where
  abbrev pub is_update : Message → Bool
  is_update (to_subscriber u ch) = true
  is_update _ = false

  -- A turn of the manager, as the loop makes it.
  record Silent (b : BlockManager d api) (ms : List Message) : Type 0 where
    subscribers : b.subscribers ≡ []
    messages : All (λ m. is_update m ≡ false) ms

  schedule_commit-Silent :
      (now : ℕ) (b : BlockManager d api)
      → b.subscribers ≡ []
      → Silent (schedule_commit d api now b).0 (schedule_commit d api now b).1
  unfolding schedule_commit signal_subscribers
  schedule_commit-Silent now b h =
      elim (Bool-cases (commit_required d api now b && not b.commit_timer_started_flag)) [
        | inl e ↦ rw (e, schedule_commit) (record { subscribers = h; messages = rw h tt })
        | inr e ↦ rw (e, schedule_commit) (record { subscribers = h; messages = tt })
      ]

  on_timer-Silent :
      (now : ℕ) (b : BlockManager d api)
      → b.subscribers ≡ []
      → Silent (on_timer d api now b).0 (on_timer d api now b).1
  unfolding on_timer signal_subscribers
  on_timer-Silent now b h =
      let b' = record b { commit_timer_started_flag = false } in
      let after = manager_commit_keeps d api now b' ∙ h in
      elim (Bool-cases (commit_required d api now b')) [
        | inl e ↦ rw (e, on_timer) (record { subscribers = after; messages = rw after tt })
        | inr e ↦ rw (e, on_timer) (record { subscribers = h; messages = tt })
      ]

  signals_nobody :
      (u : BlockUpdate) (b : BlockManager d api)
      → b.subscribers ≡ []
      → signal_subscribers d api u b ≡ []
  unfolding signal_subscribers
  signals_nobody u b h = rw h

  after_signal :
      (u : BlockUpdate) (b b' : BlockManager d api) (ms : List Message)
      → b.subscribers ≡ []
      → Silent b' ms
      → Silent b' (signal_subscribers d api u b ++ ms)
  after_signal u b b' ms h s = record {
    subscribers = s.subscribers;
    messages = rw (signals_nobody u b h) s.messages;
  }

  on_block-Silent :
      (w : Wire) (order order' : RangeOrder) (now : ℕ) (u : ChainUpdate) (b : BlockManager d api)
      (p : BlockManager d api × List Message)
      → b.subscribers ≡ []
      → on_block d api w order order' now u b ≡ some p
      → Silent p.0 p.1
  unfolding on_block
  on_block-Silent w order order' now u b p none_there h =
      elim (Option-cases (process_block_update d api w order order' now u b)) [
        | inl e ↦ absurd (panics (rw (e, on_block) at h))
        | inr ((o, b'), e) ↦
            processed o b'
              (process_block_update_keeps d api w order order' now u b (o, b') e ∙ none_there)
              (rw (e, on_block) at h)
      ]
    where
      panics : none ≡ some p → ⊥
      panics h = cc

      processed :
          (o : Outcome BlockUpdate) (b' : BlockManager d api)
          → b'.subscribers ≡ []
          → (elim o as (λ _. Option (BlockManager d api × List Message)) [
            | failed e ↦ none
            | returned u ↦ some (
              (schedule_commit d api now b').0,
              signal_subscribers d api u b' ++ (schedule_commit d api now b').1,
            )
          ])
            ≡ some p
          → Silent p.0 p.1
      processed (failed e) b' none_left h = cc
      processed (returned u) b' none_left h =
          subst (λ q. Silent q.0 q.1) (of-some h)
            (after_signal u b' _ _ none_left (schedule_commit-Silent now b' none_left))

  quiet :
      {r r' : RoutineState d api} {ms ms' : List Message}
      → ◌≡◌ {A = RoutineState d api × List Message} (r, ms) (r', ms')
      → Silent r.manager ms
      → Silent r'.manager ms'
  quiet same s = subst (λ (q : RoutineState d api × List Message). Silent q.0.manager q.1) same s

  -- A turn of the loop sends no update to a subscriber while the field of the manager is empty, and
  -- leaves it empty.
  manager_step-Silent :
      (w : Wire) (order order' : RangeOrder) (now : ℕ) (e : Event) (r r' : RoutineState d api)
      (ms : List Message)
      → r.manager.subscribers ≡ []
      → manager_step d api w order order' now e r ≡ some (r', ms)
      → Silent r'.manager ms
  unfolding manager_step
  manager_step-Silent w order order' now (subscribe ch) r r' ms h ran =
      quiet (of-some ran) (record { subscribers = h; messages = tt })
  manager_step-Silent w order order' now (unsubscribe ch) r r' ms h ran =
      quiet (of-some ran) (record { subscribers = h; messages = tt })
  manager_step-Silent w order order' now (height_request ch) r r' ms h ran =
      quiet (of-some ran) (record { subscribers = h; messages = (refl, tt) })
  manager_step-Silent w order order' now (stop ch) r r' ms h ran =
      quiet (of-some ran) (record { subscribers = h; messages = (refl, tt) })
  manager_step-Silent w order order' now (block_update u) r r' ms h ran =
      elim (Option-cases (on_block d api w order order' now u r.manager)) [
        | inl e ↦ absurd (panics (rw (e, manager_step) at ran))
        | inr (p, e) ↦
            quiet (of-some (rw (e, manager_step) at ran))
              (on_block-Silent w order order' now u r.manager p h e)
      ]
    where
      panics : ◌≡◌ {A = Option (RoutineState d api × List Message)} none (some (r', ms)) → ⊥
      panics h = cc
  manager_step-Silent w order order' now timer_expired r r' ms h ran =
      quiet (of-some ran) (on_timer-Silent now r.manager h)
  manager_step-Silent w order order' now (balance_request a ch) r r' ms h ran =
      quiet (of-some ran) (record { subscribers = h; messages = (refl, tt) })
  manager_step-Silent w order order' now (sync_request ch) r r' ms h ran =
      quiet (of-some ran) (record { subscribers = h; messages = (refl, tt) })

  All-append :
      (ms ns : List Message)
      → All (λ m. is_update m ≡ false) ms
      → All (λ m. is_update m ≡ false) ns
      → All (λ m. is_update m ≡ false) (ms ++ ns)
  All-append [] ns h k = k
  All-append (m ∷ ms) ns h k = (h.0, All-append ms ns h.1 k)

  run-Silent :
      (w : Wire) (order order' : RangeOrder) (es : List (ℕ × Event)) (r r' : RoutineState d api)
      (ms : List Message)
      → r.manager.subscribers ≡ []
      → manager_run d api w order order' es r ≡ some (r', ms)
      → All (λ m. is_update m ≡ false) ms
  unfolding manager_run
  run-Silent w order order' [] r r' ms h ran =
      subst (λ (q : RoutineState d api × List Message). All (λ m. is_update m ≡ false) q.1)
        (of-some ran) tt
  run-Silent w order order' ((now, e) ∷ es) r r' ms h ran =
      elim (Option-cases (manager_step d api w order order' now e r)) [
        | inl stuck ↦ absurd (ground (arith, stuck))
        | inr ((r1, ms1), first) ↦
            let s = manager_step-Silent w order order' now e r r1 ms1 h first in
            elim (Option-cases (manager_run d api w order order' es r1)) [
              | inl stuck ↦ absurd (ground (arith, stuck, first))
              | inr ((r2, ms2), rest) ↦
                  subst
                    (λ (q : RoutineState d api × List Message). All (λ m. is_update m ≡ false) q.1)
                    (of-some (rw (first, rest) at ran))
                    (All-append ms1 ms2 s.messages
                      (run-Silent w order order' es r1 r2 ms2 s.subscribers rest))
            ]
      ]

  -- After `Start`, whatever subscriptions, blocks and other events the loop receives, in whatever
  -- order, it never sends an update to a subscriber.
  pub manager_run-silent :
      (w : Wire) (order order' : RangeOrder) (es : List (ℕ × Event)) (cache : StorageCache api)
      (b : BlockManager d api) (r' : RoutineState d api) (ms : List Message)
      → manager_run d api w order order' es (routine_start d api cache b) ≡ some (r', ms)
      → All (λ m. is_update m ≡ false) ms
  unfolding routine_start start
  manager_run-silent w order order' es cache b r' ms ran =
      run-Silent w order order' es (routine_start d api cache b) r' ms refl ran
