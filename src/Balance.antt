-- ===== src/Balance.antt =====
-- balance/cache.go and balance.go: the cache of balances, and the loop that answers requests from
-- it. `none` is a panic. Channels are numbers.
pub mod Coherence
pub mod Updates
use gobalance.Common.{
  if◌then◌else◌, ◌>>=◌, Int64, add64, sub64, ℕ, String, Bool, true, false, Option, none, some, List,
  [], ◌∷◌,
}
use gobalance.Primitives.Visits.{each_tx}
use gobalance.BlockManager.{op_backtrack, UpdateClass, op_commit_done, op_commit, op_new_block}
use gobalance.Lru.{Lru}
use gobalance.Primitives.{Block, for_each_address, RangeOrder, Tx}
use gobalance.BlockQueue.{tx}

module _ (l : Lru Int64) where
  -- `addBalance` and `remBalance`
  unfoldable pub add_cached : String → Int64 → Tx → l.Cache → Option l.Cache
  add_cached addr balance tx c = elim (l.get addr c).0 [
    | none ↦ some (l.get addr c).1
    | some current ↦ some (l.set addr (add64 current balance) (l.get addr c).1)
  ]

  unfoldable pub rem_cached : String → Int64 → Tx → l.Cache → Option l.Cache
  rem_cached addr balance tx c = elim (l.get addr c).0 [
    | none ↦ some (l.get addr c).1
    | some current ↦ some (l.set addr (sub64 current balance) (l.get addr c).1)
  ]

  unfoldable pub cache_new_block : RangeOrder → Block → l.Cache → Option l.Cache
  cache_new_block order block = each_tx (for_each_address order add_cached) block.transactions

  unfoldable pub cache_backtrack : RangeOrder → Block → l.Cache → Option l.Cache
  cache_backtrack order block = each_tx (for_each_address order rem_cached) block.transactions

  -- `GetBalance`, with the answers of the block manager
  unfoldable pub cache_get_balance : (String → Int64) → String → l.Cache → Int64 × l.Cache
  cache_get_balance manager address c = elim (l.get address c).0 [
    | some balance ↦ (balance, (l.get address c).1)
    | none ↦ (manager address, l.set address (manager address) (l.get address c).1)
  ]

-- what `balanceRoutine` receives
pub data Event : Type 0 where
  update : UpdateClass → Option Block → Event
  request : String → String → ℕ → Event
  stop : ℕ → Event

pub data Answer : Type 0 where
  balance_to : ℕ → Int64 → Answer
  -- the request goes to another peer, in a routine of its own
  proxied : String → String → ℕ → Answer
  stopped_to : ℕ → Answer

pub record BalanceState (l : Lru Int64) : Type 0 where
  pub cache : l.Cache
  pub proxy_mode : Bool
  pub running : Bool

module _ (l : Lru Int64) where
  unfoldable pub balance_start : ℕ → BalanceState l
  balance_start size = record { cache = l.new_cache size 1000; proxy_mode = false; running = true }

  -- the switch on the class of an update; a nil block panics
  unfoldable pub balance_update :
      RangeOrder → UpdateClass → Option Block → BalanceState l → Option (BalanceState l)
  unfolding cache_new_block cache_backtrack
  balance_update order op_new_block none s = none
  balance_update order op_new_block (some block) s =
      cache_new_block l order block s.cache >>= λ c. some (record s { cache = c })
  balance_update order op_backtrack none s = none
  balance_update order op_backtrack (some block) s =
      cache_backtrack l order block s.cache >>= λ c. some (record s { cache = c })
  balance_update order op_commit block s = some (record s { proxy_mode = true })
  balance_update order op_commit_done block s = some (record s { proxy_mode = false })

  unfoldable pub balance_request :
      (String → Int64) → String → String → ℕ → BalanceState l → BalanceState l × Answer
  unfolding cache_get_balance
  balance_request manager address ip ch s = if s.proxy_mode then (s, proxied address ip ch) else (
    record s { cache = (cache_get_balance l manager address s.cache).1 },
    balance_to ch (cache_get_balance l manager address s.cache).0,
  )

  -- the `select` of `balanceRoutine`
  unfoldable pub balance_turn :
      RangeOrder → (String → Int64) → Event → BalanceState l → Option (BalanceState l × List Answer)
  unfolding balance_update balance_request
  balance_turn order manager (update class block) s =
      balance_update order class block s >>= λ t. some (t, [])
  balance_turn order manager (request address ip ch) s = some (
    (balance_request manager address ip ch s).0,
    (balance_request manager address ip ch s).1 ∷ [],
  )
  balance_turn order manager (stop ch) s = some (record s { running = false }, stopped_to ch ∷ [])

  -- one turn of the loop, which a stop ends
  unfoldable pub balance_step :
      RangeOrder → (String → Int64) → Event → BalanceState l → Option (BalanceState l × List Answer)
  unfolding balance_turn
  balance_step order manager e s =
      if s.running then balance_turn order manager e s else some (s, [])
