-- ===== src/BlockManager/Inputs.antt =====
-- block_manager/block_manager.go: `getBlockInputs`, which fetches what it misses in one bulk
-- request and hands it out by position, against a look-up for each input.
use gobalance.Common.{
  if◌then◌else◌, Option-cases, ◌>>=◌, map-append, get_or, lookup, string_key, nat_key, ◌≡◌, refl,
  sym, ◌⊎◌, inl, inr, Option, none, some, List, [], ◌∷◌, ◌++◌, map, append-nil, append_assoc, arith,
}
use gobalance.Primitives.{Block, Hash, is_coin_base, TxOut, Tx}
use gobalance.Storage.{Error, no_data, Storage, err, ok, tx_out_id_key, TxOutId, TxOutData}
use gobalance.Storage.Cache.{missing_ids, id_of}
use gobalance.BlockManager.{
  queued_tx, block_tx_idx, get_block_inputs, BlockManager, missing_of_txs, fill_txs, fill_tx,
  missing_ins, output_of, filled, fill_input, fill_ins,
}
use gobalance.Storage.Cache.Bulk.{bulk_get_tx_out_lem, merged}
use gobalance.Deque.{Deque}

module _ (queued in_block : Hash → Option Tx) (stored : TxOutId → TxOutData) where
  -- The output that an input spends: of a pending block, of this block, or stored. `none` is the
  -- panic of an output number that its transaction does not have.
  abbrev pub spent_by : TxOut → Option TxOutData
  spent_by i = elim (queued i.tx_hash) [
    | some t ↦ output_of queued in_block t i
    | none ↦ elim (in_block i.tx_hash) [
      | some t ↦ output_of queued in_block t i
      | none ↦ some (stored (id_of i))
    ]
  ]

  abbrev pub resolve_ins : List TxOut → Option (List TxOut)
  resolve_ins [] = some []
  resolve_ins (i ∷ is) =
      spent_by i >>= λ out. resolve_ins is >>= λ js. some (filled queued in_block i out ∷ js)

  abbrev pub resolve_tx : Tx → Option Tx
  resolve_tx t =
      if is_coin_base t then some t else resolve_ins t.ins >>= λ is. some (record t { ins = is })

  abbrev pub resolve_txs : List Tx → Option (List Tx)
  resolve_txs [] = some []
  resolve_txs (t ∷ ts) = resolve_tx t >>= λ u. resolve_txs ts >>= λ us. some (u ∷ us)

  fill_ins-resolve :
      (is : List TxOut) (rest : List TxOutData)
      → fill_ins queued in_block is (map stored (missing_ins queued in_block is) ++ rest)
        ≡ (resolve_ins is >>= λ js. some (js, rest))
  unfolding fill_ins missing_ins fill_input
  fill_ins-resolve [] rest = refl
  fill_ins-resolve (i ∷ is) rest = ground (arith, fill_ins-resolve is rest)

  missing_of_tx : Tx → List TxOutId
  missing_of_tx t = if is_coin_base t then [] else missing_ins queued in_block t.ins

  fill_tx-resolve :
      (t : Tx) (rest : List TxOutData)
      → fill_tx queued in_block t (map stored (missing_of_tx t) ++ rest)
        ≡ (resolve_tx t >>= λ u. some (u, rest))
  unfolding fill_tx missing_of_tx
  fill_tx-resolve t rest = ground (arith, fill_ins-resolve t.ins rest)

  missing_of_txs_cons :
      (t : Tx) (ts : List Tx)
      → missing_of_txs queued in_block (t ∷ ts)
        ≡ missing_of_tx t ++ missing_of_txs queued in_block ts
  unfolding missing_of_txs missing_of_tx
  missing_of_txs_cons t ts = ground arith

  pub fill_txs-resolve :
      (ts : List Tx) (rest : List TxOutData)
      → fill_txs queued in_block ts (map stored (missing_of_txs queued in_block ts) ++ rest)
        ≡ (resolve_txs ts >>= λ us. some (us, rest))
  unfolding fill_txs
  fill_txs-resolve [] rest = unfold missing_of_txs in refl
  fill_txs-resolve (t ∷ ts) rest =
      rw
        (
          missing_of_txs_cons t ts,
          map-append stored (missing_of_tx t) (missing_of_txs queued in_block ts),
          append_assoc (map stored (missing_of_tx t)),
        )
        (ground (
          arith,
          fill_tx-resolve t (map stored (missing_of_txs queued in_block ts) ++ rest),
          fill_txs-resolve ts rest,
        ))

  pub filled_block :
      (block : Block)
      → (fill_txs queued in_block block.transactions
            (map stored (missing_of_txs queued in_block block.transactions))
          >>= λ p. some (ok (record block { transactions = p.0 })))
        ≡ (resolve_txs block.transactions >>= λ ts. some (ok (record block { transactions = ts })))
  filled_block block =
      let all = fill_txs-resolve block.transactions [] in
      rw (sym (append-nil (map stored (missing_of_txs queued in_block block.transactions))), all)
        (elim (Option-cases (resolve_txs block.transactions)) [
          | inl bad_number ↦ rw bad_number
          | inr (ts, resolved) ↦ rw resolved
        ])

module _ (d : Deque) (api : Storage) where
  -- The output that an id has in the storage and in the inserts that wait for a commit.
  abbrev pub stored_out : BlockManager d api → TxOutId → TxOutData
  stored_out b =
      merged b.storage_cache.inserts
        (λ id. get_or (lookup id (api.utxos b.storage_cache.sto)) no_data)

  -- The outputs that `getBlockInputs` asks the storage for: those that the inputs of the block
  -- spend, but for coin bases, and that are neither in the block nor in the pending blocks nor in
  -- the inserts that wait for a commit.
  abbrev pub asked_for : Block → BlockManager d api → List TxOutId
  asked_for block b = missing_ids b.storage_cache.inserts (
      missing_of_txs (queued_tx d api b) (λ h. block_tx_idx h block.transactions)
        block.transactions)

  -- `getBlockInputs` fills every input of a block with the output it spends, looked up in the
  -- pending blocks, then in the block itself, then in the storage, and panics just where an input
  -- names an output number that its transaction does not have; or the storage answers the one bulk
  -- request with an error, and that error is returned.
  pub get_block_inputs-resolve :
      (block : Block) (b : BlockManager d api)
      → (get_block_inputs d api block b ≡ (
          resolve_txs
            (queued_tx d api b)
            (λ h. block_tx_idx h block.transactions)
            (stored_out b)
            block.transactions
          >>= λ ts. some (ok (record block { transactions = ts }))))
        ⊎ ((e : Error) × (api.bulk_get (asked_for block b) b.storage_cache.sto ≡ err e)
            × (get_block_inputs d api block b ≡ some (err e)))
  unfolding get_block_inputs
  get_block_inputs-resolve block b =
      let queued = queued_tx d api b in
      let in_block = λ (h : Hash). block_tx_idx h block.transactions in
      elim (bulk_get_tx_out_lem api (missing_of_txs queued in_block block.transactions)
        b.storage_cache) [
          | inl got ↦ inl (rw got (filled_block queued in_block (stored_out b) block))
          | inr (e, refused, answered) ↦ inr (e, refused, rw answered)
        ]
