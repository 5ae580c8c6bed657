-- ===== src/Examples/Storage.antt =====
-- A storage in memory that meets what the interface promises, and the cache in front of it.
use gobalance.Common.{lookup, delete, insert, Int64, neg64, string_key, nat_key, ◌≡◌, refl, ◌⊎◌, []}
use gobalance.Storage.{Error, balance_in, tx_out_id_key, ok, err}
use gobalance.Storage.Cache.{
  update_balance, uncommitted_len, cache_balance, set_height, spend_inputs, add_tx_out, add_output,
  spend_input, add_txs, set_hash, del_tx_out, add_outputs, add_block, commit,
}
use gobalance.Examples.Data.{block_one}
use gobalance.BlockQueue.{set_balance}
use gobalance.Storage.Cache.Ledger.{with_txs, Holds}
use gobalance.Storage.Cache.Commits.{add_block-Holds, commit-Holds, cache_balance-Holds}
use gobalance.Examples.Memory.{cold-Holds, warm, write, one_is_valid, cold, memory, warm-Holds}

add_block-Holds_example :
    Holds memory warm (with_txs block_one.transactions [])
    × (warm.height ≡ 1)
    × (warm.last_block_hash ≡ 1)
add_block-Holds_example = add_block-Holds memory block_one cold [] one_is_valid cold-Holds

cache_balance-Holds_example :
    ((n : Int64) × (memory.get_balance "alice" warm.sto ≡ ok n)
      × (cache_balance memory "alice" warm
          ≡ ok (balance_in "alice" (with_txs block_one.transactions []))))
    ⊎ ((e : Error) × (memory.get_balance "alice" warm.sto ≡ err e)
        × (cache_balance memory "alice" warm ≡ ok (neg64 1)))
cache_balance-Holds_example =
    cache_balance-Holds memory "alice" warm (with_txs block_one.transactions []) warm-Holds

commit-Holds_example :
    (((commit memory warm).0 ≡ ok tt)
      × Holds memory (commit memory warm).1 (with_txs block_one.transactions [])
      × (uncommitted_len memory (commit memory warm).1 ≡ 0)
      × ((commit memory warm).1.uncommitted_blocks ≡ 0)
      × (memory.last_block (commit memory warm).1.sto ≡ (warm.height, warm.last_block_hash)))
    ⊎ ((e : Error) × (memory.bulk_update_from_map warm.inserts warm.deletions warm.height
            warm.last_block_hash warm.sto
          ≡ err e)
        × (commit memory warm ≡ (err e, warm)))
commit-Holds_example = commit-Holds memory warm (with_txs block_one.transactions []) warm-Holds

-- the commit succeeds
warm_commits : (commit memory warm).0 ≡ ok tt
unfolding commit write add_block add_txs add_outputs spend_inputs add_output spend_input add_tx_out
    del_tx_out update_balance set_height set_hash lookup insert delete
warm_commits = refl

minted : cache_balance memory "alice" warm ≡ ok 50
unfolding cache_balance add_block add_txs add_outputs spend_inputs add_output spend_input add_tx_out
    del_tx_out update_balance set_balance set_height set_hash lookup insert delete
minted = refl
