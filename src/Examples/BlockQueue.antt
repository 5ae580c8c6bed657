-- ===== src/Examples/BlockQueue.antt =====
-- The block queue on two blocks.
use gobalance.BlockQueue.{len}
use gobalance.BlockQueue.Runs.{
  run_as_list, call_push_back, call_push_front, call_pop_back, call_pop_front, Call, run,
}
use gobalance.Common.{
  if◌then◌else◌, length, lookup, string_key, nat_key, String, ◌≡◌, refl, none, some, List, [], ◌∷◌,
  arith,
}
use gobalance.Deque.{list_deque}
use gobalance.Primitives.{Hash, address_balances}
use gobalance.BlockQueue.{get_balance, BlockQueue, new_block_queue, push_back, pop_back, get_tx, tx}
use gobalance.Primitives.Deltas.{delta, touches, lookup-address_balances}
use gobalance.BlockQueue.Views.{block_txs, net, nonzero, history}
use gobalance.Examples.Data.{listed, listed_ranges, mint, pay, block_one, block_two}
use gobalance.BlockQueue.Transactions.{
  push_back-InOrder, InOrder, get_tx-pop_back_stale, new_block_queue-InOrder,
}
use gobalance.BlockQueue.Refinement.{Indexes, new_block_queue-Indexes}
use gobalance.BlockQueue.TxIndex.{find_tx, IsFresh, tx-push_back, IndexesTx}
use gobalance.BlockQueue.Runs.Window.{run_as_window}

abbrev pub empty : BlockQueue list_deque
empty = new_block_queue list_deque

lookup-address_balances_example :
    lookup "alice" (address_balances pay)
    ≡ (if touches "alice" pay then some (delta "alice" pay) else none)
lookup-address_balances_example = lookup-address_balances "alice" pay

-- 20 received, 50 spent
alice_pays : delta "alice" pay ≡ 18446744073709551586
alice_pays = refl

-- 50 minted, 30 of it paid to "bob"
alice_left : net "alice" (block_txs (block_one ∷ block_two ∷ [])) ≡ 20
alice_left = refl

abbrev pub one_InOrder :
    (b : BlockQueue list_deque) × (push_back list_deque listed block_one empty ≡ some b)
    × InOrder list_deque b (block_one ∷ [])
one_InOrder =
    push_back-InOrder list_deque listed listed_ranges empty [] block_one
      (new_block_queue-InOrder list_deque)

abbrev two_InOrder :
    (b : BlockQueue list_deque) × (push_back list_deque listed block_two one_InOrder.0 ≡ some b)
    × InOrder list_deque b (block_one ∷ block_two ∷ [])
two_InOrder =
    push_back-InOrder list_deque listed listed_ranges one_InOrder.0 (block_one ∷ []) block_two
      one_InOrder.2

get_tx-pop_back_stale_example :
    (b : BlockQueue list_deque) × (pop_back list_deque listed two_InOrder.0
      ≡ some (some block_two, b))
    × (get_tx list_deque "alice" b ≡ pay ∷ [])
get_tx-pop_back_stale_example =
    get_tx-pop_back_stale list_deque listed listed_ranges two_InOrder.0 (block_one ∷ []) block_two
      "alice" pay mint [] two_InOrder.2 refl refl

IsFresh-block_two : IsFresh block_two (block_one ∷ [])
IsFresh-block_two h found = ground arith

pub IsFresh-block_one : IsFresh block_one []
IsFresh-block_one h found = refl

-- two blocks in, and one out
abbrev window_calls : List Call
window_calls = call_push_back block_one ∷ call_push_back block_two ∷ call_pop_front ∷ []

run_as_window_example :
    (b : BlockQueue list_deque) × (run list_deque listed window_calls empty
      ≡ some (some block_one ∷ [], b))
    × ((a : String)
        → (get_balance list_deque a b ≡ nonzero (net a (block_txs (block_two ∷ []))))
          × (get_tx list_deque a b ≡ history a (block_txs (block_two ∷ []))))
    × ((h : Hash) → tx list_deque h b ≡ find_tx h (block_two ∷ []))
run_as_window_example =
    run_as_window list_deque listed listed_ranges window_calls
      (IsFresh-block_one, (IsFresh-block_two, tt))

-- both ends, and one pop more than there are blocks
abbrev both_ends : List Call
both_ends =
    call_push_back block_one
    ∷ call_push_front block_two
    ∷ call_pop_back
    ∷ call_pop_front
    ∷ call_pop_back
    ∷ call_push_back block_one
    ∷ []

run_as_list_example :
    (b : BlockQueue list_deque) × (run list_deque listed both_ends empty
      ≡ some (some block_one ∷ some block_two ∷ none ∷ [], b))
    × (list_deque.items b.blocks ≡ block_one ∷ [])
    × (len list_deque b ≡ 1)
    × ((a : String)
        → (get_balance list_deque a b ≡ nonzero (net a (block_txs (block_one ∷ []))))
          × (length (get_tx list_deque a b) ≡ length (history a (block_txs (block_one ∷ [])))))
run_as_list_example = run_as_list list_deque listed listed_ranges both_ends

pub no_tx : IndexesTx list_deque empty []
unfolding tx new_block_queue lookup
no_tx h = refl

abbrev pub one_IndexesTx :
    (b : BlockQueue list_deque) × (push_back list_deque listed block_one empty ≡ some b)
    × Indexes list_deque b (block_one ∷ [])
    × IndexesTx list_deque b (block_one ∷ [])
one_IndexesTx =
    tx-push_back list_deque listed listed_ranges block_one empty [] IsFresh-block_one
      (new_block_queue-Indexes list_deque) no_tx

abbrev two_IndexesTx :
    (b : BlockQueue list_deque) × (push_back list_deque listed block_two one_IndexesTx.0 ≡ some b)
    × Indexes list_deque b (block_one ∷ block_two ∷ [])
    × IndexesTx list_deque b (block_one ∷ block_two ∷ [])
two_IndexesTx =
    tx-push_back list_deque listed listed_ranges block_two one_IndexesTx.0 (block_one ∷ [])
      IsFresh-block_two one_IndexesTx.2 one_IndexesTx.3

tx-push_back_example :
    (b : BlockQueue list_deque) × (push_back list_deque listed block_two one_IndexesTx.0 ≡ some b)
    × Indexes list_deque b (block_one ∷ block_two ∷ [])
    × IndexesTx list_deque b (block_one ∷ block_two ∷ [])
tx-push_back_example =
    tx-push_back list_deque listed listed_ranges block_two one_IndexesTx.0 (block_one ∷ [])
      IsFresh-block_two one_IndexesTx.2 one_IndexesTx.3
