-- ===== src/Sql/Batch.antt =====
-- block_manager/storage/sqlite.go: `Transact`, and the loops over statements that `BulkGet`,
-- `BulkUpdate` and `BulkUpdateFromMap` run in it. Each returns its result and the tables after it.
use gobalance.Common.{
  if◌then◌else◌, get_or, insert, Int64, string_key, nat_key, ◌==◌, String, List, [], ◌∷◌,
}
use gobalance.Primitives.{Hash}
use gobalance.Sql.{
  failed, begin_tx, exec_set, bytes, Db, Rows, query_out, exec_delete, run, negative_message,
  unexpendable_message, Engine, commit_tx, exec_last_block, done,
}
use gobalance.Storage.{
  err, database, no_data, negative_utxo, TxOutData, Error, TxOutId, tx_out_id_key, ok, Result,
  unexpendable_utxo,
}

abbrev pub Done : Type 0
Done = Result (Unit {0})

-- the error for the message of a failed INSERT
unfoldable pub set_error : String → Error
set_error m =
    if m == negative_message
    then negative_utxo
    else if m == unexpendable_message
    then unexpendable_utxo
    else database m

-- Begin, the function, and then Commit or Rollback
abbrev pub rollback : Db → Db → Db
rollback before during = before

module _ {A : Type 0} where
  unfoldable pub end_tx : Engine → Db → Result A × Db → Result A × Db
  end_tx e before (err x, during) = (err x, rollback before during)
  end_tx e before (ok a, during) = elim (run e commit_tx during (done during)) [
    | failed m ↦ (err (database m), rollback before during)
    | done after ↦ (ok a, after)
  ]

  unfoldable pub transact : Engine → (Db → Result A × Db) → Db → Result A × Db
  transact e f db = elim (run e begin_tx db (done db)) [
    | failed m ↦ (err (database m), db)
    | done during ↦ end_tx e db (f during)
  ]

abbrev pub then_do : Done × Db → (Db → Done × Db) → Done × Db
then_do (err x, db) f = (err x, db)
then_do (ok _, db) f = f db

unfoldable pub delete_all : Engine → List TxOutId → Db → Done × Db
delete_all e [] db = (ok tt, db)
delete_all e (id ∷ l) db = elim (exec_delete e (bytes id.tx_hash) id.nout db) [
  | failed m ↦ (err (database m), db)
  | done db' ↦ delete_all e l db'
]

unfoldable pub insert_all : Engine → Rows → Db → Done × Db
insert_all e [] db = (ok tt, db)
insert_all e ((id, out) ∷ l) db = elim (exec_set e id out db) [
  | failed m ↦ (err (set_error m), db)
  | done db' ↦ insert_all e l db'
]

unfoldable pub write_height : Engine → Int64 → Hash → Db → Done × Db
write_height e height hash db = elim (exec_last_block e height hash db) [
  | failed m ↦ (err (database m), db)
  | done db' ↦ (ok tt, db')
]

-- the function that `BulkUpdate` and `BulkUpdateFromMap` run in a transaction
unfoldable pub write_batch : Engine → Rows → List TxOutId → Int64 → Hash → Db → Done × Db
write_batch e insert remove height hash db =
    then_do (then_do (delete_all e remove db) (insert_all e insert)) (write_height e height hash)

abbrev pub with_row : TxOutData → Result (List TxOutData) × Db → Result (List TxOutData) × Db
with_row out (err x, db) = (err x, db)
with_row out (ok outs, db) = (ok (out ∷ outs), db)

unfoldable pub read_all : Engine → List TxOutId → Db → Result (List TxOutData) × Db
read_all e [] db = (ok [], db)
read_all e (id ∷ l) db = elim (query_out e id db) [
  | failed m ↦ (err (database m), db)
  | done row ↦ with_row (get_or row no_data) (read_all e l db)
]
