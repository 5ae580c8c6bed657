-- ===== src/RecentTx.antt =====
-- recent_tx/recent_tx.go: the transactions of the last blocks by address. `none` is a panic.
-- Channels are numbers.
pub mod Window
use gobalance.Common.{ltb, if◌then◌else◌, ◌>>=◌, ℕ, String, Option, none, some, List, [], ◌∷◌, map}
use gobalance.BlockQueue.{
  new_block_queue, BlockQueue, get_tx, push_back, pop_front, tx, pop_back, len,
}
use gobalance.BlockManager.{op_backtrack, UpdateClass, op_new_block, op_commit_done, op_commit}
use gobalance.Primitives.{Block, RangeOrder, Tx}
use gobalance.Deque.{Deque}

pub record RecentTxCache (d : Deque) : Type 0 where
  pub size : ℕ
  pub queue : BlockQueue d

-- what `recentTxRoutine` receives
pub data Event : Type 0 where
  update : UpdateClass → Option Block → Event
  request : String → ℕ → Event
  stop : ℕ → Event

pub data Answer : Type 0 where
  response : ℕ → List (Tx × Option Block) → Answer
  stopped_to : ℕ → Answer

module _ (d : Deque) where
  unfoldable pub new_recent_tx_cache : ℕ → RecentTxCache d
  new_recent_tx_cache tracked_blocks = record { size = tracked_blocks; queue = new_block_queue d }

  unfoldable pub recent_backtrack : RangeOrder → RecentTxCache d → Option (RecentTxCache d)
  recent_backtrack order r = pop_back d order r.queue >>= λ p. some (record r { queue = p.1 })

  -- the test of `newBlock`, after its `PushBack`
  unfoldable pub recent_trim : RangeOrder → RecentTxCache d → Option (RecentTxCache d)
  recent_trim order r =
      if ltb r.size (len d r.queue)
      then (pop_front d order r.queue >>= λ p. some (record r { queue = p.1 }))
      else some r

  unfoldable pub recent_new_block :
      RangeOrder → RangeOrder → Block → RecentTxCache d → Option (RecentTxCache d)
  unfolding recent_trim
  recent_new_block order order' block r =
      push_back d order block r.queue >>= λ q. recent_trim order' (record r { queue = q })

  -- The two results of `getAddrRecentTx` side by side; nil for a block that the index has not.
  unfoldable pub get_addr_recent_tx : String → RecentTxCache d → List (Tx × Option Block)
  get_addr_recent_tx address r =
      map (λ t. (t, elim (tx d t.hash r.queue) [ none ↦ none | some e ↦ some e.block ]))
        (get_tx d address r.queue)

  -- One turn of the loop, `none` in place of the state after a stop; a nil block panics in
  -- `PushBack`.
  unfoldable pub recent_step :
      RangeOrder
      → RangeOrder
      → Event
      → RecentTxCache d
      → Option (Option (RecentTxCache d) × List Answer)
  unfolding recent_new_block recent_backtrack get_addr_recent_tx
  recent_step order order' (update op_new_block none) r = none
  recent_step order order' (update op_new_block (some block)) r =
      recent_new_block order order' block r >>= λ s. some (some s, [])
  recent_step order order' (update op_backtrack block) r =
      recent_backtrack order r >>= λ s. some (some s, [])
  recent_step order order' (update op_commit block) r = some (some r, [])
  recent_step order order' (update op_commit_done block) r = some (some r, [])
  recent_step order order' (request address ch) r =
      some (some r, response ch (get_addr_recent_tx address r) ∷ [])
  recent_step order order' (stop ch) r = some (none, stopped_to ch ∷ [])
