-- ===== src/Sqlite/Runs.antt =====
-- block_manager/storage/sqlite.go: whatever calls a storage gets, in whatever order.
use gobalance.Common.{Map, Int64, String, ◌≡◌, ap, inl, inr, Bool, true, List, [], ◌∷◌, arith}
use gobalance.Sqlite.{
  mark_dirty, SqliteStorage, set, bulk_update, bulk_update_from_map, delete_utxo, set_last_block,
  close,
}
use gobalance.Storage.{tx_out_id_key, TxOutData, TxOutId}
use gobalance.Sql.Effects.{run-cases, write_height-cases}
use gobalance.Sql.Tables.{IsTable}
use gobalance.Sql.{close_db, Engine, done}
use gobalance.Sqlite.Answers.{set-IsTable, bulk_update_from_map-IsTable, bulk_update-IsTable}
use gobalance.Primitives.{Hash, TxOut}
use gobalance.Sqlite.Refusals.{exec_dirty-cases, delete_utxo-fails}

-- the methods that may change the storage
pub data Call : Type 0 where
  call_set : TxOut → Call
  call_delete : TxOutId → Call
  call_set_last_block : Int64 → Hash → Call
  call_bulk_update : List TxOut → List TxOutId → Int64 → Hash → Call
  call_bulk_update_from_map : Map TxOutId TxOutData → Map TxOutId Bool → Int64 → Hash → Call
  call_mark_dirty : String → Call
  call_close : Call

module _ (e : Engine) where
  unfoldable pub run_call : Call → SqliteStorage → SqliteStorage
  run_call (call_set out) s = (set e out s).1
  run_call (call_delete id) s = (delete_utxo e id s).1
  run_call (call_set_last_block height hash) s = (set_last_block e height hash s).1
  run_call (call_bulk_update ins rem height hash) s = (bulk_update e ins rem height hash s).1
  run_call (call_bulk_update_from_map ins rem height hash) s =
      (bulk_update_from_map e ins rem height hash s).1
  run_call (call_mark_dirty message) s = (mark_dirty e message s).1
  run_call call_close s = (close e s).1

  unfoldable pub run_calls : List Call → SqliteStorage → SqliteStorage
  run_calls [] s = s
  run_calls (c ∷ cs) s = run_calls cs (run_call c s)

  set_last_block-utxo :
      (height : Int64) (hash : Hash) (s : SqliteStorage)
      → (set_last_block e height hash s).1.db.utxo ≡ s.db.utxo
  unfolding set_last_block
  set_last_block-utxo height hash s = elim (write_height-cases e height hash s.db) [
    | inl did ↦ ground arith
    | inr (x, bad) ↦ ground arith
  ]

  mark_dirty-utxo :
      (message : String) (s : SqliteStorage) → (mark_dirty e message s).1.db.utxo ≡ s.db.utxo
  unfolding mark_dirty
  mark_dirty-utxo message s = elim (exec_dirty-cases e message s.db) [
    | inl did ↦ ground arith
    | inr (m, bad) ↦ ground arith
  ]

  delete_utxo-utxo : (id : TxOutId) (s : SqliteStorage) → (delete_utxo e id s).1.db.utxo ≡ s.db.utxo
  delete_utxo-utxo id s = ap (λ p. p.1.db.utxo) (delete_utxo-fails e id s).1

  close-utxo : (s : SqliteStorage) → (close e s).1.db.utxo ≡ s.db.utxo
  unfolding close
  close-utxo s = elim (run-cases e close_db s.db (done (record s.db { closed = true }))) [
    | inl did ↦ ground arith
    | inr (m, bad) ↦ ground arith
  ]

  run_call-IsTable :
      (c : Call) (s : SqliteStorage) → IsTable s.db.utxo → IsTable (run_call c s).db.utxo
  unfolding run_call
  run_call-IsTable (call_set out) s h = set-IsTable e out s h
  run_call-IsTable (call_delete id) s h = rw (delete_utxo-utxo id s) h
  run_call-IsTable (call_set_last_block height hash) s h = rw (set_last_block-utxo height hash s) h
  run_call-IsTable (call_bulk_update ins rem height hash) s h =
      bulk_update-IsTable e ins rem height hash s h
  run_call-IsTable (call_bulk_update_from_map ins rem height hash) s h =
      bulk_update_from_map-IsTable e ins rem height hash s h
  run_call-IsTable (call_mark_dirty message) s h = rw (mark_dirty-utxo message s) h
  run_call-IsTable call_close s h = rw (close-utxo s) h

  -- Whatever calls a storage gets, in whatever order and wherever the database fails, every output
  -- in its table keeps a value above 0 and an address, and no output stands there twice.
  pub run_calls-IsTable :
      (cs : List Call) (s : SqliteStorage) → IsTable s.db.utxo → IsTable (run_calls cs s).db.utxo
  unfolding run_calls
  run_calls-IsTable [] s h = h
  run_calls-IsTable (c ∷ cs) s h = run_calls-IsTable cs (run_call c s) (run_call-IsTable c s h)
