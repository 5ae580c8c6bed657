-- ===== src/BlockManager/Chain/Received.antt =====
-- block_manager/block_manager.go: `addBlock` of a block of the wire.
use gobalance.Common.{
  if◌then◌else◌, of-some, ◌>>=◌, head?, Map, add64, ℕ, ◌≡◌, refl, sym, ap, ◌∙◌, inl, inr, Bool,
  false, Option, none, some, List, [], ◌∷◌, ◌++◌,
}
use gobalance.BlockManager.{
  BlockManager, returned, queued_tx, get_block_inputs, manager_add_block, block_tx_idx, queue_block,
}
use gobalance.Build.{build_block}
use gobalance.BlockManager.Chain.{ledger-append_one, Tracks, ledger}
use gobalance.Storage.Cache.Ledger.{with_txs, ValidTxs}
use gobalance.Deque.{Deque}
use gobalance.Storage.{
  Result, Error, tx_out_id_key, ok, err, Storage, ok-injective, TxOutId, TxOutData,
}
use gobalance.BlockManager.Ledger.{FitsTxs}
use gobalance.Wire.{Wire, WireBlock}
use gobalance.BlockManager.Inputs.{get_block_inputs-resolve, stored_out, resolve_txs}
use gobalance.Primitives.{IsRangeOrder, new_block, Block, RangeOrder, Tx, Hash}
use gobalance.BlockManager.Chain.Added.{
  now_confirmed, ledger-still_pending, still_pending, queue_block-Tracks,
}

module _ (d : Deque) (api : Storage) where
  filled_height :
      (block p_block : Block) (b : BlockManager d api)
      → get_block_inputs d api block b ≡ some (ok p_block)
      → p_block.height ≡ block.height
  filled_height block p_block b h = elim (get_block_inputs-resolve d api block b) [
    | inl resolved ↦
        height_of
          (resolve_txs (queued_tx d api b) (λ k. block_tx_idx k block.transactions)
            (stored_out d api b) block.transactions)
          (sym resolved ∙ h)
    | inr (e, _, refused) ↦ absurd (not_both (sym refused ∙ h))
  ]
    where
      not_both : {e : Error} → some (err e) ≡ some (ok p_block) → ⊥
      not_both h = cc

      height_of :
          (o : Option (List Tx))
          → (o >>= λ ts. some (ok (record block { transactions = ts }))) ≡ some (ok p_block)
          → p_block.height ≡ block.height
      height_of none h = cc
      height_of (some ts) h = ap (λ (c : Block). c.height) (sym (ok-injective (of-some h)))

  built-height :
      (w : Wire) (hash : Hash) (block : WireBlock) (h : ℕ) → (build_block w hash block h).height ≡ h
  unfolding build_block new_block
  built-height w hash block h = refl

  manager_add_block_runs :
      (w : Wire) (order order' : RangeOrder) (now : ℕ) (block : WireBlock) (hash : Hash)
      (b b' : BlockManager d api) (p_block : Block)
      → b.sync ≡ false
      → get_block_inputs d api (build_block w hash block (add64 b.height 1)) b ≡ some (ok p_block)
      → queue_block d api order order' now p_block b ≡ some b'
      → manager_add_block d api w order order' now block hash b ≡ some (returned p_block, b')
  unfolding manager_add_block
  manager_add_block_runs w order order' now block hash b b' p_block sync got ran =
      rw (got, if_off b.sync (some (ok (build_block w hash block (add64 b.height 1)))) sync, ran)
    where
      if_off :
          (on : Bool) (x : Option (Result Block))
          → on ≡ false
          → (if on then x else some (ok p_block)) ≡ some (ok p_block)
      if_off on x h = rw h

  -- `addBlock` out of sync mode, where the storage answers and the inputs resolve to a valid block
  -- on top of the chain: it does not panic, returns the block with its inputs filled in, puts it
  -- after the pending blocks, and makes the height one more; where there are then more pending
  -- blocks than the confirmations, the first of them becomes confirmed, and else none does. The
  -- unspent outputs of the chain are those before with the changes of the block. The block that
  -- gets confirmed, if any, must not bring back an output deleted since the last commit.
  pub manager_add_block-Tracks :
      (w : Wire) (order order' : RangeOrder) (ranges : IsRangeOrder order)
      (ranges' : IsRangeOrder order') (now : ℕ) (block : WireBlock) (hash : Hash)
      (b : BlockManager d api) (bs : List Block) (m : Map TxOutId TxOutData) (p_block : Block)
      → Tracks d api b bs m
      → b.sync ≡ false
      → get_block_inputs d api (build_block w hash block (add64 b.height 1)) b ≡ some (ok p_block)
      → FitsTxs p_block.transactions (ledger bs m)
      → ((first : Block)
          → head? (bs ++ p_block ∷ []) ≡ some first
          → ValidTxs api first.transactions b.storage_cache)
      → let pending = bs ++ p_block ∷ [] in
        let bs' = still_pending b.confirmations pending in
        let m' = now_confirmed b.confirmations pending m in
        (b' : BlockManager d api) × (manager_add_block d api w order order' now block hash b
          ≡ some (returned p_block, b'))
        × Tracks d api b' bs' m'
        × (ledger bs' m' ≡ with_txs p_block.transactions (ledger bs m))
        × (b'.height ≡ add64 b.height 1)
  unfolding manager_add_block
  manager_add_block-Tracks w order order' ranges ranges' now block hash b bs m p_block x sync got f
        valid =
      let (b', ran, tracks, height) =
        queue_block-Tracks d api order order' ranges ranges' now p_block b bs m x f
          (filled_height (build_block w hash block (add64 b.height 1)) p_block b got
            ∙ built-height w hash block (add64 b.height 1))
          valid in
      (
        b',
        manager_add_block_runs w order order' now block hash b b' p_block sync got ran,
        tracks,
        ledger-still_pending b.confirmations (bs ++ p_block ∷ []) m
            ∙ ledger-append_one bs p_block m,
        height,
      )
