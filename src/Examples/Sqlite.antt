-- ===== src/Examples/Sqlite.antt =====
-- block_manager/storage/sqlite.go on an empty database that does not fail.
use gobalance.Common.{
  lookup, delete, insert, string_key, nat_key, ◌≡◌, refl, ◌⊎◌, true, false, none, [], ◌∷◌, map,
}
use gobalance.Sqlite.{
  SqliteStorage, bulk_update_from_map, out_row, bulk_update, get_last_block, fresh_storage,
  bulk_get, new_sqlite_storage, mark_dirty,
}
use gobalance.Sql.{
  Statement, insert_row, exec_delete, exec_set, Engine, exec_last_block, Db, raised,
}
use gobalance.Sqlite.Atomic.{last_of, bulk_update_from_map-atomic}
use gobalance.Sqlite.Runs.{run_calls, call_set, run_calls-IsTable}
use gobalance.Storage.Cache.{
  add_outputs, commit, add_txs, update_balance, spend_inputs, StorageCache, add_output, add_tx_out,
  set_hash, spend_input, add_block, del_tx_out, set_height,
}
use gobalance.Sqlite.Refusals.{WritesRefused, ReadsRefused, mark_dirty-refuses}
use gobalance.Sql.Batch.{insert_all, write_height, delete_all, transact, end_tx, write_batch}
use gobalance.Storage.{
  ok, updated, Error, TxOutId, err, new_tx_out_id, new_tx_out_data, TxOutData, tx_out_id_key,
}
use gobalance.Sqlite.Interface.{checked_update, sqlite_api}
use gobalance.Primitives.{TxOut}
use gobalance.Storage.Cache.Ledger.{Holds, with_txs, ValidTxs}
use gobalance.Storage.Cache.Commits.{add_block-Holds}
use gobalance.Sqlite.Restart.{reopened_cache}
use gobalance.Sqlite.Success.{bulk_get-bulk_update}
use gobalance.Sql.Tables.{IsTable}
use gobalance.Examples.Data.{block_one}
use gobalance.BlockQueue.{set_balance}
use gobalance.Sql.Effects.{Fresh, remove_ids}

abbrev pub engine : Engine
engine = record { fault = λ st db. none; negative_first = true }

engine_works : (st : Statement) (db : Db) → engine.fault st db ≡ none
engine_works st db = refl

abbrev pub empty_db : Db
empty_db = record { utxo = []; last_block = []; dirty = []; closed = false }

abbrev pub sqlite_cold : StorageCache (sqlite_api engine)
sqlite_cold =
    reopened_cache engine (record { sqlite = fresh_storage empty_db; table = (tt, tt) }) (0, 0)

sqlite_cold-Holds : Holds (sqlite_api engine) sqlite_cold []
unfolding lookup
sqlite_cold-Holds = record {
  consistent = record { disjoint = λ id h. cc; unstored = λ id h. cc };
  unique = tt;
  outputs = λ id. refl;
  indexed = refl;
  balances = λ a. refl;
}

abbrev pub sqlite_warm : StorageCache (sqlite_api engine)
sqlite_warm = add_block (sqlite_api engine) block_one sqlite_cold

sqlite_one_is_valid : ValidTxs (sqlite_api engine) block_one.transactions sqlite_cold
unfolding lookup add_output add_tx_out update_balance set_balance insert delete add_outputs
sqlite_one_is_valid = ((λ _. (refl, refl), tt), (refl, tt), tt)

pub sqlite_warm-Holds : Holds (sqlite_api engine) sqlite_warm (with_txs block_one.transactions [])
sqlite_warm-Holds =
    (add_block-Holds (sqlite_api engine) block_one sqlite_cold [] sqlite_one_is_valid
      sqlite_cold-Holds).0

pub sqlite_commits : (commit (sqlite_api engine) sqlite_warm).0 ≡ ok tt
unfolding commit add_block add_txs add_outputs spend_inputs add_output spend_input add_tx_out
    del_tx_out update_balance set_height set_hash lookup insert delete checked_update
    bulk_update_from_map transact end_tx write_batch delete_all insert_all write_height exec_set
    exec_delete exec_last_block insert_row raised
sqlite_commits = refl

abbrev spendable_out : TxOut
spendable_out = record { tx_hash = 7; nout = 0; addr = "alice"; value = 50 }

abbrev id_seven : TxOutId
id_seven = new_tx_out_id 7 0

abbrev data_seven : TxOutData
data_seven = new_tx_out_data "alice" 50

abbrev empty_storage : SqliteStorage
empty_storage = fresh_storage empty_db

new_rows : Fresh true (map out_row (spendable_out ∷ [])) (remove_ids (id_seven ∷ []) [])
unfolding raised lookup delete new_tx_out_data
new_rows = (refl, refl, tt)

bulk_get-bulk_update_example :
    let (r, s') = bulk_update engine (spendable_out ∷ []) (id_seven ∷ []) 1 9 empty_storage in
    (r ≡ ok tt)
    × (bulk_get engine (id_seven ∷ []) s' ≡ ok (data_seven ∷ []))
    × (get_last_block engine s' ≡ ok (1, 9))
bulk_get-bulk_update_example =
    bulk_get-bulk_update engine engine_works (spendable_out ∷ []) (id_seven ∷ []) 1 9 empty_storage
      refl refl refl new_rows

bulk_update_from_map-atomic_example :
    let (r, s') =
      bulk_update_from_map engine
        ((id_seven, data_seven) ∷ [])
        ((id_seven, true) ∷ [])
        1
        9
        empty_storage in
    ((r ≡ ok tt)
      × ((id : TxOutId)
          → lookup id s'.db.utxo
            ≡ updated ((id_seven, data_seven) ∷ []) ((id_seven, true) ∷ []) [] id)
      × (last_of s'.db ≡ (1, 9)))
    ⊎ ((x : Error) × (r ≡ err x) × (s' ≡ empty_storage))
bulk_update_from_map-atomic_example =
    bulk_update_from_map-atomic engine ((id_seven, data_seven) ∷ []) ((id_seven, true) ∷ []) 1 9
      empty_storage

run_calls-IsTable_example :
    IsTable
      (run_calls engine
        (call_set spendable_out ∷ call_set spendable_out ∷ [])
        empty_storage).db.utxo
run_calls-IsTable_example =
    run_calls-IsTable engine (call_set spendable_out ∷ call_set spendable_out ∷ []) empty_storage
      (tt, tt)

mark_dirty-refuses_example :
    let (r, d) = mark_dirty engine "stopped" empty_storage in
    ReadsRefused engine id_seven "alice" (id_seven ∷ []) d
    × WritesRefused engine spendable_out id_seven 1 9
        (spendable_out ∷ [])
        (id_seven ∷ [])
        ((id_seven, data_seven) ∷ [])
        ((id_seven, true) ∷ [])
        d
    × (((x : Error) × (r ≡ err x))
        ⊎ ((x : Error) × (new_sqlite_storage engine "utxo.db" d.db ≡ err x)))
mark_dirty-refuses_example =
    mark_dirty-refuses engine "stopped" "utxo.db" "alice" empty_storage spendable_out id_seven
      (id_seven ∷ []) (spendable_out ∷ []) (id_seven ∷ []) ((id_seven, data_seven) ∷ [])
      ((id_seven, true) ∷ []) 1 9
