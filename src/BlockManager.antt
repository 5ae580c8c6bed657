-- ===== src/BlockManager.antt =====
-- block_manager/block_manager.go and manager.go: the state of the block manager, how it turns a
-- block from the wire into one of its own and fills in what the inputs spend, and its operations.
-- The times are in milliseconds. `none` is a panic.
pub mod Inputs
pub mod Ledger
pub mod Chain
pub mod Routine
pub mod Silence
use gobalance.Common.{
  ltb, eqb, if◌then◌else◌, ◌>>=◌, get_elem?, get_or, is_some, Int64, add64, sub64, is_negative,
  string_key, nat_key, ◌==◌, ℕ, ◌+◌, ◌-◌, ◌%◌, String, Bool, true, false, ◌&&◌, ◌||◌, not, Option,
  none, some, List, [], ◌∷◌, ◌++◌, map,
}
use gobalance.Deque.{Deque}
use gobalance.Primitives.{
  is_coin_base, Hash, TxOut, Tx, Block, RangeOrder, new_tx_out, new_tx, new_block,
}
use gobalance.BlockQueue.{
  new_block_queue, len, get_balance, pop_back, pop_front, push_back, tx, BlockQueue,
}
use gobalance.Storage.{Error, tx_out_id_key, TxOutId, TxOutData, Result, ok, err, Storage}
use gobalance.Storage.Cache.{
  uncommitted_len, commit, cache_balance, add_block, bulk_get_tx_out, StorageCache, id_of,
}
use gobalance.Wire.{Wire, WireBlock}
use gobalance.Build.{build_block}

pub record BlockManager (d : Deque) (api : Storage) : Type 0 where
  pub sync : Bool
  pub commit_size : Int64
  pub commit_min_blocks : Int64
  pub confirmations : ℕ
  pub height : Int64
  pub last_time : ℕ
  pub storage_cache : StorageCache api
  pub pending_blocks : BlockQueue d
  pub commit_timer_started_flag : Bool
  pub subscribers : List ℕ

pub data UpdateClass : Type 0 where
  op_new_block op_backtrack op_commit op_commit_done : UpdateClass

pub record BlockUpdate : Type 0 where
  pub class : UpdateClass
  pub block : Option Block

-- the errors of the block manager, and those of the storage
pub data ManagerError : Type 0 where
  backtrack_limit unknown_class : ManagerError
  storage_error : Error → ManagerError

pub data Outcome (A : Type 0) : Type 0 where
  returned : A → Outcome A
  failed : ManagerError → Outcome A

abbrev pub at_least_one : Int64 → Int64
at_least_one n = if eqb n 0 || is_negative n then 1 else n

-- `blockTxIdx`: the last transaction of the block with the hash
unfoldable pub block_tx_idx : Hash → List Tx → Option Tx
block_tx_idx h [] = none
block_tx_idx h (t ∷ ts) =
    let later = block_tx_idx h ts in
    elim later [ some u ↦ some u | none ↦ if t.hash == h then some t else none ]

-- Where the inputs of a block come from: a pending block, the block itself, or the storage.
module _ (queued : Hash → Option Tx) (in_block : Hash → Option Tx) where
  -- the first loop of `getBlockInputs`
  unfoldable pub missing_ins : List TxOut → List TxOutId
  missing_ins [] = []
  missing_ins (i ∷ is) =
      let rest = missing_ins is in
      if not (is_some (in_block i.tx_hash)) && not (is_some (queued i.tx_hash))
      then id_of i ∷ rest
      else rest

  unfoldable pub missing_of_txs : List Tx → List TxOutId
  missing_of_txs [] = []
  missing_of_txs (t ∷ ts) =
      if is_coin_base t then missing_of_txs ts else missing_ins t.ins ++ missing_of_txs ts

  -- `tx.Out[txIn.Nout]`, which panics out of range
  abbrev pub output_of : Tx → TxOut → Option TxOutData
  output_of t i = get_elem? t.outs i.nout >>= λ o. some (record { value = o.value; addr = o.addr })

  abbrev pub filled : TxOut → TxOutData → TxOut
  filled i out = record i { addr = out.addr; value = out.value }

  -- what one turn of the second loop writes to the input, with the data that is left then
  unfoldable pub fill_input : TxOut → List TxOutData → Option (TxOut × List TxOutData)
  fill_input i missing = elim (queued i.tx_hash) [
    | some t ↦ output_of t i >>= λ out. some (filled i out, missing)
    | none ↦ elim (in_block i.tx_hash) [
      | some t ↦ output_of t i >>= λ out. some (filled i out, missing)
      | none ↦ elim missing [ [] ↦ none | out ∷ rest ↦ some (filled i out, rest) ]
    ]
  ]

  unfoldable pub fill_ins : List TxOut → List TxOutData → Option (List TxOut × List TxOutData)
  fill_ins [] missing = some ([], missing)
  fill_ins (i ∷ is) missing =
      fill_input i missing >>= λ p. fill_ins is p.1 >>= λ q. some (p.0 ∷ q.0, q.1)

  unfoldable pub fill_tx : Tx → List TxOutData → Option (Tx × List TxOutData)
  fill_tx t missing =
      if is_coin_base t
      then some (t, missing)
      else fill_ins t.ins missing >>= λ p. some (record t { ins = p.0 }, p.1)

  -- the second loop of `getBlockInputs`
  unfoldable pub fill_txs : List Tx → List TxOutData → Option (List Tx × List TxOutData)
  fill_txs [] missing = some ([], missing)
  fill_txs (t ∷ ts) missing =
      fill_tx t missing >>= λ p. fill_txs ts p.1 >>= λ q. some (p.0 ∷ q.0, q.1)

module _ (d : Deque) (api : Storage) where
  abbrev pub queued_tx : BlockManager d api → Hash → Option Tx
  queued_tx b h = elim (tx d h b.pending_blocks) [ none ↦ none | some t ↦ some t.tx ]

  -- `none` is a panic.
  unfoldable pub get_block_inputs : Block → BlockManager d api → Option (Result Block)
  get_block_inputs block b =
      let queued = queued_tx b in
      let in_block = λ (h : Hash). block_tx_idx h block.transactions in
      bulk_get_tx_out api (missing_of_txs queued in_block block.transactions) b.storage_cache
      >>= λ answer. elim answer [
        | err e ↦ some (err e)
        | ok fetched ↦ fill_txs queued in_block block.transactions fetched >>= λ p.
            some (ok (record block { transactions = p.0 }))
      ]

  -- `Start`, with the storage cache that `NewStorageCache` returns
  unfoldable pub start : StorageCache api → BlockManager d api → BlockManager d api
  start cache b = record b {
    commit_min_blocks = at_least_one b.commit_min_blocks;
    commit_size = at_least_one b.commit_size;
    storage_cache = cache;
    height = cache.height;
    subscribers = [];
    commit_timer_started_flag = false;
    pending_blocks = new_block_queue d;
  }

  -- what `addBlock` does with the block that `PopFront` returned; nil panics in `AddBlock`
  unfoldable pub confirm :
      ℕ → BlockManager d api → Option Block × BlockQueue d → Option (BlockManager d api)
  confirm now b (none, q) = none
  confirm now b (some confirmed, q) = some (record b {
    pending_blocks = q;
    storage_cache = add_block api confirmed b.storage_cache;
    last_time = now;
  })

  unfoldable pub confirm_first : RangeOrder → ℕ → BlockManager d api → Option (BlockManager d api)
  unfolding confirm
  confirm_first order now b =
      if ltb b.confirmations (len d b.pending_blocks)
      then (pop_front d order b.pending_blocks >>= λ p. confirm now b p)
      else some (record b { last_time = now })

  unfoldable pub queue_block :
      RangeOrder → RangeOrder → ℕ → Block → BlockManager d api → Option (BlockManager d api)
  unfolding confirm_first
  queue_block order order' now block b = do
    q ← push_back d order block b.pending_blocks
    confirm_first order' now (record b { pending_blocks = q; height = add64 b.height 1 })

  -- `addBlock`, with the time now
  unfoldable pub manager_add_block :
      Wire
      → RangeOrder
      → RangeOrder
      → ℕ
      → WireBlock
      → Hash
      → BlockManager d api
      → Option (Outcome Block × BlockManager d api)
  manager_add_block w order order' now block hash b =
      let built = build_block w hash block (add64 b.height 1) in
      (if b.sync then some (ok built) else get_block_inputs built b) >>= λ answer. elim answer [
        | err e ↦ some (failed (storage_error e), b)
        | ok p_block ↦ queue_block order order' now p_block b >>= λ b'. some (returned p_block, b')
      ]

  unfoldable pub backtrack_block :
      RangeOrder → BlockManager d api → Option (Outcome (Option Block) × BlockManager d api)
  backtrack_block order b =
      if eqb (len d b.pending_blocks) 0
      then some (failed backtrack_limit, b)
      else pop_back d order b.pending_blocks >>= λ p.
          some (returned p.0, record b { height = sub64 b.height 1; pending_blocks = p.1 })

  -- `commitRequired`, with the time now
  unfoldable pub commit_required : ℕ → BlockManager d api → Bool
  commit_required now b =
      if ltb b.storage_cache.uncommitted_blocks 1
      then false
      else if ltb b.commit_size (uncommitted_len api b.storage_cache)
      then true
      else if b.sync
      then ltb 120000 (now - b.last_time)
      else ltb b.commit_min_blocks b.storage_cache.uncommitted_blocks

  unfoldable pub manager_commit : ℕ → BlockManager d api → Result (Unit {0}) × BlockManager d api
  manager_commit now b =
      let (r, cache) = commit api b.storage_cache in
      elim r [
        | err e ↦ (err e, record b { storage_cache = cache })
        | ok _ ↦ (ok tt, record b { storage_cache = cache; last_time = now })
      ]

  unfoldable pub manager_balance : String → BlockManager d api → Result Int64
  manager_balance address b =
      let pending = get_or (get_balance d address b.pending_blocks) 0 in
      elim (cache_balance api address b.storage_cache) [
        | err e ↦ err e
        | ok stored ↦ ok (add64 pending stored)
      ]

  unfoldable pub synced : ℕ → BlockManager d api → Bool
  synced now b = ltb 30000 (now - b.last_time)
