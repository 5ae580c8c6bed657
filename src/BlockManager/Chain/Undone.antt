-- ===== src/BlockManager/Chain/Undone.antt =====
-- block_manager/block_manager.go: `backtrackBlock`, `commit` and the chain.
use gobalance.Common.{
  eqb, length, last?, drop_last, Map, sub64, ℕ, suc, ◌≡◌, refl, sym, ap, ◌∙◌, subst, ◌⊎◌, inl, inr,
  false, some, List, [], ◌∷◌, ◌++◌, append_assoc, arith,
}
use gobalance.BlockManager.{
  BlockManager, failed, backtrack_block, returned, manager_commit, backtrack_limit,
}
use gobalance.Storage.Cache.{commit, StorageCache}
use gobalance.Storage.{Result-cases, TxOutId, Storage, tx_out_id_key, TxOutData}
use gobalance.BlockManager.Ledger.{FitsTxs-before, FitsTxs}
use gobalance.BlockManager.Chain.{Numbered-drop_last, Tracks}
use gobalance.BlockQueue.Refinement.{pop_back-Indexes, len-Indexes}
use gobalance.Storage.Cache.Commits.{commit-Holds}
use gobalance.Primitives.{RangeOrder, Block, Tx, IsRangeOrder}
use gobalance.Deque.{Deque}
use gobalance.BlockQueue.Views.{block_txs}

module _ (d : Deque) (api : Storage) where
  -- `backtrackBlock` returns the last pending block and takes it off the chain, and the height goes
  -- down by one; with no pending block it returns the error of the limit and changes nothing. It
  -- does not panic.
  pub backtrack_block-Tracks :
      (order : RangeOrder) (ranges : IsRangeOrder order) (b : BlockManager d api) (bs : List Block)
      (m : Map TxOutId TxOutData)
      → Tracks d api b bs m
      → ((bs ≡ []) × (backtrack_block d api order b ≡ some (failed backtrack_limit, b)))
        ⊎ ((b' : BlockManager d api) × (backtrack_block d api order b
              ≡ some (returned (last? bs), b'))
            × Tracks d api b' (drop_last bs) m
            × (b'.height ≡ sub64 b.height 1))
  unfolding backtrack_block
  backtrack_block-Tracks order ranges b [] m x =
      inl (refl, rw (len-Indexes d b.pending_blocks [] x.indexes))
  backtrack_block-Tracks order ranges b (first ∷ bs) m x =
      let (q, popped, y) =
        pop_back-Indexes d order ranges b.pending_blocks (first ∷ bs) x.indexes in
      inr (
        record b { height = sub64 b.height 1; pending_blocks = q },
        rw (len-Indexes d b.pending_blocks (first ∷ bs) x.indexes, not_empty first bs, popped),
        record {
          indexes = y;
          holds = x.holds;
          fits =
              FitsTxs-before (block_txs (drop_last (first ∷ bs))) (last_txs first bs) m
                (subst (λ ts. FitsTxs ts m) (split first bs) x.fits);
          bounded = omega (arith, x.bounded, length-drop_last first bs);
          height = omega (arith, x.height, length-drop_last first bs);
          numbered = Numbered-drop_last _ (first ∷ bs) x.numbered;
        },
        refl,
      )
    where
      not_empty : (first : Block) (bs : List Block) → eqb (length (first ∷ bs)) 0 ≡ false
      not_empty first bs = ground arith

      last_txs : Block → List Block → List Tx
      last_txs first [] = first.transactions ++ []
      last_txs first (c ∷ bs) = last_txs c bs

      split :
          (first : Block) (bs : List Block)
          → block_txs (first ∷ bs) ≡ block_txs (drop_last (first ∷ bs)) ++ last_txs first bs
      split first [] = refl
      split first (c ∷ bs) =
          ap (λ ts. first.transactions ++ ts) (split c bs)
          ∙ sym (append_assoc first.transactions (block_txs (drop_last (c ∷ bs))) (last_txs c bs))

      length-drop_last :
          (first : Block) (bs : List Block) → length (drop_last (first ∷ bs)) ≡ length bs
      length-drop_last first [] = refl
      length-drop_last first (c ∷ bs) = ap suc (length-drop_last c bs)

  commit-height : (s : StorageCache api) → (commit api s).1.height ≡ s.height
  unfolding commit
  commit-height s =
      elim (Result-cases
        (api.bulk_update_from_map s.inserts s.deletions s.height s.last_block_hash s.sto)) [
          | inl (sto, done) ↦ rw (done, commit)
          | inr (e, refused) ↦ rw (refused, commit)
        ]

  -- `commit` keeps the chain, whether the storage takes it or refuses it.
  pub manager_commit-Tracks :
      (now : ℕ) (b : BlockManager d api) (bs : List Block) (m : Map TxOutId TxOutData)
      → Tracks d api b bs m
      → Tracks d api (manager_commit d api now b).1 bs m
        × ((manager_commit d api now b).0 ≡ (commit api b.storage_cache).0)
  unfolding manager_commit
  manager_commit-Tracks now b bs m x =
      let same_height = commit-height b.storage_cache in
      elim (commit-Holds api b.storage_cache m x.holds) [
        | inl (done, holds, _, _, _) ↦
            rw (done, manager_commit)
              (
                record {
                  indexes = x.indexes;
                  holds = holds;
                  fits = x.fits;
                  bounded = x.bounded;
                  height = rw same_height x.height;
                  numbered = rw same_height x.numbered;
                },
                refl,
              )
        | inr (e, _, refused) ↦
            rw (refused, manager_commit)
              (
                record {
                  indexes = x.indexes;
                  holds = rw refused x.holds;
                  fits = x.fits;
                  bounded = x.bounded;
                  height = rw same_height x.height;
                  numbered = rw same_height x.numbered;
                },
                refl,
              )
      ]
