-- ===== src/BlockManager/Chain.antt =====
-- block_manager/block_manager.go: the pending blocks and the storage cache as one chain of blocks,
-- and `getBalance` against the unspent outputs of that chain.
pub mod Added
pub mod Received
pub mod Undone
use gobalance.Common.{
  length, drop_last, Map, get_or, Int64, add64, neg64, ◌≤◌, String, ◌≡◌, ap, ◌∙◌, ◌⊎◌, inl, inr,
  Option, List, [], ◌∷◌, ◌++◌, arith,
}
use gobalance.BlockManager.Ledger.{
  FitsTxs-append, FitsTxs-before, with_txs-append, balance_in-with_txs, FitsTxs-after, FitsTxs,
}
use gobalance.Storage.Cache.Ledger.{ValidTxs, with_txs, Holds}
use gobalance.Storage.{
  Result-cases, TxOutId, Error, ok, Storage, balance_in, tx_out_id_key, TxOutData, err,
}
use gobalance.BlockManager.{
  backtrack_limit, manager_commit, backtrack_block, returned, failed, queue_block, confirm_first,
  confirm, manager_balance, BlockManager,
}
use gobalance.Storage.Cache.Commits.{commit-Holds, cache_balance-Holds, add_block-Holds}
use gobalance.Deque.{Deque}
use gobalance.Primitives.{Tx, Block, IsRangeOrder, RangeOrder}
use gobalance.BlockQueue.Index.{block_txs-append_one}
use gobalance.BlockQueue.Views.{nonzero, block_txs, net}
use gobalance.BlockQueue.{get_balance}
use gobalance.BlockQueue.Refinement.{
  pop_back-Indexes, push_back-Indexes, len-Indexes, pop_front-Indexes, get_balance-Indexes, Indexes,
}
use gobalance.Storage.Cache.{StorageCache, commit}

-- The heights of the blocks go up by one from a height.
abbrev pub Numbered : Int64 → List Block → Type 0
Numbered h [] = Unit
Numbered h (block ∷ bs) = (block.height ≡ add64 h 1) × Numbered (add64 h 1) bs

-- The unspent outputs after a list of blocks.
abbrev pub ledger : List Block → Map TxOutId TxOutData → Map TxOutId TxOutData
ledger bs m = with_txs (block_txs bs) m

pub ledger-append_one :
    (bs : List Block) (block : Block) (m : Map TxOutId TxOutData)
    → ledger (bs ++ block ∷ []) m ≡ with_txs block.transactions (ledger bs m)
ledger-append_one bs block m =
    ap (λ ts. with_txs ts m) (block_txs-append_one bs block)
    ∙ with_txs-append (block_txs bs) block.transactions m

pub Numbered-append_one :
    (h : Int64) (bs : List Block) (block : Block)
    → Numbered h bs
    → block.height ≡ add64 (add64 h (length bs)) 1
    → Numbered h (bs ++ block ∷ [])
Numbered-append_one h [] block n e = (e ∙ omega arith, tt)
Numbered-append_one h (b ∷ bs) block n e =
    (n.0, Numbered-append_one (add64 h 1) bs block n.1 (e ∙ omega arith))

pub Numbered-drop_last : (h : Int64) (bs : List Block) → Numbered h bs → Numbered h (drop_last bs)
Numbered-drop_last h [] n = tt
Numbered-drop_last h (b ∷ []) n = tt
Numbered-drop_last h (b ∷ c ∷ bs) n = (n.0, Numbered-drop_last (add64 h 1) (c ∷ bs) n.1)

module _ (d : Deque) (api : Storage) where
  -- The manager keeps the blocks `bs` pending after the confirmed outputs `m`: no more of them than
  -- the confirmations, valid, and numbered up to the manager's height.
  pub record Tracks (b : BlockManager d api) (bs : List Block) (m : Map TxOutId TxOutData)
      : Type 0 where
    pub indexes : Indexes d b.pending_blocks bs
    pub holds : Holds api b.storage_cache m
    pub fits : FitsTxs (block_txs bs) m
    pub bounded : length bs ≤ b.confirmations
    pub height : b.height ≡ add64 b.storage_cache.height (length bs)
    pub numbered : Numbered b.storage_cache.height bs

  -- If the storage answers, `getBalance` is the balance of the address in the unspent outputs of
  -- all the blocks received, confirmed or pending, modulo 2^64; if the storage fails it returns no
  -- error, but the change that the pending blocks make, less 1.
  pub manager_balance-Tracks :
      (a : String) (b : BlockManager d api) (bs : List Block) (m : Map TxOutId TxOutData)
      → Tracks b bs m
      → (manager_balance d api a b ≡ ok (balance_in a (ledger bs m)))
        ⊎ ((e : Error) × (api.get_balance a b.storage_cache.sto ≡ err e)
            × (manager_balance d api a b ≡ ok (add64 (net a (block_txs bs)) (neg64 1))))
  unfolding manager_balance
  manager_balance-Tracks a b bs m x =
      let pending =
        pending_net (get_balance d a b.pending_blocks)
          (get_balance-Indexes d b.pending_blocks bs a x.indexes) in
      elim (cache_balance-Holds api a b.storage_cache m x.holds) [
        | inl (n, _, answered) ↦ inl (
            rw (answered, manager_balance)
              (ap ok (
                omega (
                  arith,
                  pending,
                  balance_in-with_txs a (block_txs bs) m (x.holds).unique x.fits,
                ))))
        | inr (e, fails, answered) ↦
            inr (
              e,
              fails,
              rw (answered, manager_balance) (ap ok (ap (λ n. add64 n (neg64 1)) pending)),
            )
      ]
    where
      pending_net :
          (o : Option Int64)
          → o ≡ nonzero (net a (block_txs bs))
          → get_or o 0 ≡ net a (block_txs bs)
      pending_net o h = ground arith
