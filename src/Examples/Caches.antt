-- ===== src/Examples/Caches.antt =====
-- The caches of balances, recent transactions and the height, on a block.
use gobalance.Common.{
  of-some, Map, lookup, delete, insert, Int64, string_key, nat_key, ◌≤◌, String, ◌≡◌, sym, ◌∙◌,
  subst, true, false, some, [], ◌∷◌, arith,
}
use gobalance.Storage.{balance_in}
use gobalance.BlockQueue.TxIndex.{IndexesTx}
use gobalance.RecentTx.Window.{get_addr_recent_tx-InOrder, recent_new_block-InOrder}
use gobalance.Examples.BlockManager.{one_fits}
use gobalance.RecentTx.{RecentTxCache, recent_new_block, get_addr_recent_tx}
use gobalance.Examples.Data.{mint, block_one, listed_ranges, block_two, listed}
use gobalance.Balance.Updates.{cache_new_block-Answers, cache_backtrack-Answers}
use gobalance.Examples.BlockQueue.{one_IndexesTx, one_InOrder}
use gobalance.Balance.{cache_new_block, cache_backtrack, BalanceState}
use gobalance.Storage.Cache.Ledger.{with_txs}
use gobalance.BlockQueue.Transactions.{InOrder}
use gobalance.Lru.{map_lru}
use gobalance.BlockQueue.{len}
use gobalance.Deque.{list_deque}
use gobalance.Balance.Coherence.{Answers}

abbrev pub alice_cached : Map String Int64
alice_cached = ("alice", 0) ∷ []

pub nothing_yet : (a : String) → Answers map_lru a alice_cached 0
unfolding lookup
nothing_yet a w h = ground arith

cache_new_block-Answers_example :
    (c : Map String Int64) × (cache_new_block map_lru listed block_one alice_cached ≡ some c)
    × ((a : String) → Answers map_lru a c (balance_in a (with_txs block_one.transactions [])))
cache_new_block-Answers_example =
    cache_new_block-Answers map_lru listed listed_ranges block_one alice_cached [] tt one_fits
      nothing_yet

-- after the block
abbrev alice_has_fifty : Map String Int64
alice_has_fifty = ("alice", 50) ∷ []

fifty_cached :
    (a : String)
    → Answers map_lru a alice_has_fifty (balance_in a (with_txs block_one.transactions []))
unfolding lookup insert delete
fifty_cached a w h = ground (arith, h)

cache_backtrack-Answers_example :
    (c : Map String Int64) × (cache_backtrack map_lru listed block_one alice_has_fifty ≡ some c)
    × ((a : String) → Answers map_lru a c 0)
cache_backtrack-Answers_example =
    cache_backtrack-Answers map_lru listed listed_ranges block_one alice_has_fifty [] tt one_fits
      fifty_cached

abbrev pub balance_state : BalanceState map_lru
balance_state = record { cache = alice_cached; proxy_mode = false; running = true }

abbrev window : RecentTxCache list_deque
window = record { size = 1; queue = one_InOrder.0 }

recent_new_block-InOrder_example :
    (r : RecentTxCache list_deque) × (recent_new_block list_deque listed listed block_two window
      ≡ some r)
    × InOrder list_deque r.queue (block_two ∷ [])
    × (len list_deque r.queue ≤ 1)
recent_new_block-InOrder_example =
    recent_new_block-InOrder list_deque listed listed listed_ranges listed_ranges block_two window
      (block_one ∷ []) one_InOrder.2 (omega arith)

get_addr_recent_tx-InOrder_example :
    get_addr_recent_tx list_deque "alice" window ≡ (mint, some block_one) ∷ []
get_addr_recent_tx-InOrder_example =
    get_addr_recent_tx-InOrder list_deque "alice" window (block_one ∷ []) one_InOrder.2 (
      subst (λ q. IndexesTx list_deque q (block_one ∷ []))
        (of-some (sym one_IndexesTx.1 ∙ one_InOrder.1)) one_IndexesTx.3)
