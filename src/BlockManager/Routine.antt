-- ===== src/BlockManager/Routine.antt =====
-- block_manager/block_manager.go: `processBlockUpdate`, `signalSubscribers` and `managerRoutine`,
-- one turn of whose loop is a step on an event, with what it sends on other channels. Channels are
-- numbers.
use gobalance.Common.{
  if◌then◌else◌, ◌>>=◌, Map, delete, insert, Int64, string_key, nat_key, ℕ, String, Bool, true,
  false, ◌&&◌, not, Option, none, some, List, [], ◌∷◌, ◌++◌, map,
}
use gobalance.BlockManager.{
  start, manager_balance, op_commit_done, synced, manager_commit, commit_required, BlockUpdate,
  Outcome, op_backtrack, manager_add_block, returned, failed, op_new_block, backtrack_block,
  op_commit, BlockManager, unknown_class,
}
use gobalance.Storage.{Result, Storage}
use gobalance.Deque.{Deque}
use gobalance.Wire.{WireBlock, Wire}
use gobalance.Primitives.{Hash, RangeOrder}
use gobalance.Storage.Cache.{StorageCache}

-- an update of the crawler: `OP_NEWBLOCK`, `OP_BACKTRACK` or another class
pub data ChainUpdate : Type 0 where
  new_block_at : WireBlock → Hash → ChainUpdate
  backtrack_one unknown_update : ChainUpdate

pub data Message : Type 0 where
  to_subscriber : BlockUpdate → ℕ → Message
  height_answer : ℕ → Int64 → Message
  stopped : ℕ → Message
  balance_answer : ℕ → Result Int64 → Message
  sync_answer : ℕ → Bool → Message

-- what the loop receives: channels are numbers
pub data Event : Type 0 where
  subscribe unsubscribe height_request stop sync_request : ℕ → Event
  block_update : ChainUpdate → Event
  timer_expired : Event
  balance_request : String → ℕ → Event

pub record RoutineState (d : Deque) (api : Storage) : Type 0 where
  pub local_subscribers : Map ℕ Bool
  pub manager : BlockManager d api

module _ (d : Deque) (api : Storage) where
  unfoldable pub process_block_update :
      Wire
      → RangeOrder
      → RangeOrder
      → ℕ
      → ChainUpdate
      → BlockManager d api
      → Option (Outcome BlockUpdate × BlockManager d api)
  process_block_update w order order' now (new_block_at block hash) b =
      manager_add_block d api w order order' now block hash b >>= λ r. elim r.0 [
        | failed e ↦ some (failed e, r.1)
        | returned p ↦ some (returned (record { class = op_new_block; block = some p }), r.1)
      ]
  process_block_update w order order' now backtrack_one b = backtrack_block d api order b >>= λ r.
      elim r.0 [
        | failed e ↦ some (failed e, r.1)
        | returned p ↦ some (returned (record { class = op_backtrack; block = p }), r.1)
      ]
  process_block_update w order order' now unknown_update b = some (failed unknown_class, b)

  unfoldable pub signal_subscribers : BlockUpdate → BlockManager d api → List Message
  signal_subscribers update b = map (to_subscriber update) b.subscribers

  -- the turn of the loop after a block update was processed
  unfoldable pub schedule_commit : ℕ → BlockManager d api → BlockManager d api × List Message
  unfolding signal_subscribers
  schedule_commit now b =
      if commit_required d api now b && not b.commit_timer_started_flag
      then (
        record b { commit_timer_started_flag = true },
        signal_subscribers (record { class = op_commit; block = none }) b,
      )
      else (b, [])

  unfoldable pub on_timer : ℕ → BlockManager d api → BlockManager d api × List Message
  unfolding signal_subscribers
  on_timer now b =
      let b' = record b { commit_timer_started_flag = false } in
      if commit_required d api now b'
      then (
        (manager_commit d api now b').1,
        signal_subscribers (record { class = op_commit_done; block = none })
            (manager_commit d api now b').1,
      )
      else (b', [])

  unfoldable pub on_block :
      Wire
      → RangeOrder
      → RangeOrder
      → ℕ
      → ChainUpdate
      → BlockManager d api
      → Option (BlockManager d api × List Message)
  unfolding process_block_update signal_subscribers schedule_commit
  on_block w order order' now update b = process_block_update w order order' now update b >>= λ r.
      elim r.0 [
        | failed e ↦ none
        | returned u ↦
            some
              ((schedule_commit now r.1).0, signal_subscribers u r.1 ++ (schedule_commit now r.1).1)
      ]

  -- One turn of the loop of `managerRoutine` on its own set of subscribers. `none` is a panic.
  unfoldable pub manager_step :
      Wire
      → RangeOrder
      → RangeOrder
      → ℕ
      → Event
      → RoutineState d api
      → Option (RoutineState d api × List Message)
  unfolding on_block on_timer
  manager_step w order order' now (subscribe ch) r =
      some (record r { local_subscribers = insert ch true r.local_subscribers }, [])
  manager_step w order order' now (unsubscribe ch) r =
      some (record r { local_subscribers = delete ch r.local_subscribers }, [])
  manager_step w order order' now (height_request ch) r =
      some (r, height_answer ch r.manager.height ∷ [])
  manager_step w order order' now (stop ch) r = some (r, stopped ch ∷ [])
  manager_step w order order' now (block_update u) r =
      on_block w order order' now u r.manager >>= λ p. some (record r { manager = p.0 }, p.1)
  manager_step w order order' now timer_expired r =
      some (record r { manager = (on_timer now r.manager).0 }, (on_timer now r.manager).1)
  manager_step w order order' now (balance_request a ch) r =
      some (r, balance_answer ch (manager_balance d api a r.manager) ∷ [])
  manager_step w order order' now (sync_request ch) r =
      some (r, sync_answer ch (synced d api now r.manager) ∷ [])

  -- The loop on a sequence of events, each with the time of its turn.
  unfoldable pub manager_run :
      Wire
      → RangeOrder
      → RangeOrder
      → List (ℕ × Event)
      → RoutineState d api
      → Option (RoutineState d api × List Message)
  manager_run w order order' [] r = some (r, [])
  manager_run w order order' ((now, e) ∷ es) r = manager_step w order order' now e r >>= λ p.
      manager_run w order order' es p.0 >>= λ q. some (q.0, p.1 ++ q.1)

  -- the state of the loop after `Start`
  unfoldable pub routine_start : StorageCache api → BlockManager d api → RoutineState d api
  routine_start cache b = record { local_subscribers = []; manager = start d api cache b }
