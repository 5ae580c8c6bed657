-- ===== src/Sqlite.antt =====
-- block_manager/storage/sqlite.go: SQLiteStorage over the statements of gobalance.Sql. A method
-- that writes returns its result and the storage after it.
pub mod Atomic
pub mod Answers
pub mod Interface
pub mod Refusals
pub mod Runs
pub mod Success
pub mod Restart
use gobalance.Common.{
  eqb, if◌then◌else◌, length, Map, get_or, is_some, Int64, neg64, is_negative, string_key, nat_key,
  ℕ, String, Bool, true, false, none, some, List, [], ◌∷◌, ◌++◌, map,
}
use gobalance.Primitives.{Hash, TxOut, zero_hash}
use gobalance.Storage.{
  TxOutId, new_tx_out_id, tx_out_id_key, dirty_storage, TxOutData, no_data, err, Result,
  new_tx_out_data, database, ok, negative_height,
}
use gobalance.Sql.{
  failed, exec_dirty, Db, prepare, Engine, query_out, Statement, query_len, vacuum, pragma, array,
  create_trigger, query_dirty, triggers, query_value, pragmas, run, close_db, schemas, indexes,
  exec_set, create_table, open_db, done, query_balance, exec_delete, query_address, create_index,
  query_last_block,
}
use gobalance.Sql.Batch.{write_batch, set_error, Done, write_height, transact, read_all}

pub record SqliteStorage : Type 0 where
  pub db : Db
  pub is_dirty : Bool
  pub dirty_msg : String

-- a loop over statements that stops at the first error
unfoldable pub init_all : Engine → List Statement → Db → Done
init_all e [] db = ok tt
init_all e (st ∷ l) db = elim (run e st db (done tt)) [
  | failed m ↦ err (database m)
  | done _ ↦ init_all e l db
]

-- what `initDB` and `NewSQLiteStorage` have the engine do, in order
unfoldable pub setup : String → List Statement
setup path =
    open_db path
    ∷ (map create_table schemas
        ++ map pragma pragmas
        ++ map create_trigger triggers
        ++ map create_index indexes
        ++ map prepare (
            "len" ∷ "get" ∷ "contains" ∷ "set" ∷ "delete" ∷ "get last block" ∷ "set last block"
            ∷ "get by address" ∷ "get balance" ∷ "set dirty" ∷ "get dirty" ∷ []))

-- marked == True
unfoldable pub get_dirty : Engine → Db → Result (Bool × String)
get_dirty e db = elim (query_dirty e db) [
  | failed m ↦ err (database m)
  | done none ↦ ok (false, "")
  | done (some (marked, message)) ↦ ok (if eqb marked 1 then (true, message) else (false, ""))
]

-- a new handle on the tables
abbrev pub opened : Db → Db
opened db = record db { closed = false }

abbrev pub fresh_storage : Db → SqliteStorage
fresh_storage db = record { db = opened db; is_dirty = false; dirty_msg = "" }

unfoldable pub new_sqlite_storage : Engine → String → Db → Result SqliteStorage
new_sqlite_storage e path db = elim (init_all e (setup path) (opened db)) [
  | err x ↦ err x
  | ok _ ↦ elim (get_dirty e (opened db)) [
    | err x ↦ err x
    | ok (dirty, _) ↦ if dirty then err dirty_storage else ok (fresh_storage db)
  ]
]

abbrev pub out_row : TxOut → TxOutId × TxOutData
out_row out = (new_tx_out_id out.tx_hash out.nout, new_tx_out_data out.addr out.value)

abbrev pub stored : SqliteStorage → Done × Db → Done × SqliteStorage
stored s (r, db) = (r, record s { db = db })

module _ (e : Engine) where
  unfoldable pub len : SqliteStorage → Result ℕ
  len s =
      if s.is_dirty
      then err dirty_storage
      else elim (query_len e s.db) [ failed m ↦ err (database m) | done n ↦ ok n ]

  -- -1 and zeros if there is none
  unfoldable pub get_last_block : SqliteStorage → Result (Int64 × Hash)
  get_last_block s = if s.is_dirty then err dirty_storage else elim (query_last_block e s.db) [
    | failed m ↦ err (database m)
    | done none ↦ ok (neg64 1, zero_hash)
    | done (some p) ↦ ok p
  ]

  unfoldable pub set_last_block : Int64 → Hash → SqliteStorage → Done × SqliteStorage
  set_last_block height hash s =
      if s.is_dirty
      then (err dirty_storage, s)
      else if is_negative height
      then (err negative_height, s)
      else stored s (write_height e height hash s.db)

  unfoldable pub set : TxOut → SqliteStorage → Done × SqliteStorage
  set out s =
      if s.is_dirty
      then (err dirty_storage, s)
      else elim (exec_set e (out_row out).0 (out_row out).1 s.db) [
        | failed m ↦ (err (set_error m), s)
        | done db ↦ (ok tt, record s { db = db })
      ]

  unfoldable pub get : TxOutId → SqliteStorage → Result TxOutData
  get id s = if s.is_dirty then err dirty_storage else elim (query_out e id s.db) [
    | failed m ↦ err (database m)
    | done row ↦ ok (get_or row no_data)
  ]

  unfoldable pub get_by_address : String → SqliteStorage → Result (List TxOut)
  get_by_address a s =
      if s.is_dirty
      then err dirty_storage
      else elim (query_address e a s.db) [ failed m ↦ err (database m) | done outs ↦ ok outs ]

  -- The code also adds up the outputs of the address, and does not use the sum.
  unfoldable pub get_balance : String → SqliteStorage → Result Int64
  get_balance a s =
      if s.is_dirty
      then err dirty_storage
      else elim (query_balance e a s.db) [ failed m ↦ err (database m) | done balance ↦ ok balance ]

  unfoldable pub contains : TxOutId → SqliteStorage → Result Bool
  contains id s = if s.is_dirty then err dirty_storage else elim (query_value e id s.db) [
    | failed m ↦ err (database m)
    | done value ↦ ok (is_some value)
  ]

  unfoldable pub mark_dirty : String → SqliteStorage → Done × SqliteStorage
  mark_dirty message s = elim (exec_dirty e message s.db) [
    | failed m ↦ (err (database m), record s { is_dirty = true; dirty_msg = message })
    | done db ↦ (ok tt, record s { db = db; is_dirty = true; dirty_msg = message })
  ]

  -- The hash goes to the statement as an array.
  unfoldable pub delete_utxo : TxOutId → SqliteStorage → Done × SqliteStorage
  delete_utxo id s =
      if s.is_dirty
      then (err dirty_storage, s)
      else elim (exec_delete e (array id.tx_hash) id.nout s.db) [
        | failed m ↦ (err (database m), s)
        | done db ↦ (ok tt, record s { db = db })
      ]

  unfoldable pub bulk_get : List TxOutId → SqliteStorage → Result (List TxOutData)
  bulk_get ids s =
      if s.is_dirty
      then err dirty_storage
      else if eqb (length ids) 0
      then ok []
      else (transact e (read_all e ids) s.db).0

  unfoldable pub bulk_update :
      List TxOut → List TxOutId → Int64 → Hash → SqliteStorage → Done × SqliteStorage
  bulk_update insert remove height hash s =
      if s.is_dirty
      then (err dirty_storage, s)
      else if is_negative height
      then (err negative_height, s)
      else stored s (transact e (write_batch e (map out_row insert) remove height hash) s.db)

  -- The maps are given in the order in which the two loops meet their entries.
  unfoldable pub bulk_update_from_map :
      Map TxOutId TxOutData → Map TxOutId Bool → Int64 → Hash → SqliteStorage → Done × SqliteStorage
  bulk_update_from_map insert remove height hash s =
      if s.is_dirty
      then (err dirty_storage, s)
      else if is_negative height
      then (err negative_height, s)
      else stored s (transact e (write_batch e insert (map (λ p. p.0) remove) height hash) s.db)

  unfoldable pub close : SqliteStorage → Done × SqliteStorage
  close s = elim (run e close_db s.db (done (record s.db { closed = true }))) [
    | failed m ↦ (err (database m), s)
    | done db ↦ (ok tt, record s { db = db })
  ]

  unfoldable pub clean_up : SqliteStorage → Done
  clean_up s = elim (run e vacuum s.db (done tt)) [ failed m ↦ err (database m) | done _ ↦ ok tt ]
