-- ===== src/Sql.antt =====
-- block_manager/storage/sqlite.go, the SQL in it: the tables, the triggers, and what each statement
-- does to the tables. The engine that runs the statements is a parameter: it may fail at any of
-- them, with a message of its own, and then the statement has done nothing.
pub mod Batch
pub mod Effects
pub mod Tables
use gobalance.Common.{
  eqb, if◌then◌else◌, length, Map, is_some, lookup, delete, insert, Int64, add64, is_negative,
  string_key, nat_key, ◌==◌, ℕ, String, ◌≡◌, refl, ◌⊎◌, inl, inr, Bool, true, false, ◌&&◌, ◌||◌,
  not, Option, none, some, List, [], ◌∷◌,
}
use gobalance.Primitives.{Hash, TxOut}
use gobalance.Storage.{tx_out_id_key, TxOutId, TxOutData, new_tx_out_id}

-- the columns value and addr of a row of the table utxo, under its primary key (tx, nout); a new
-- row comes first
abbrev pub Rows : Type 0
Rows = Map TxOutId TxOutData

-- The tables, of which one that was not created yet counts as empty, and whether the handle was
-- closed.
pub record Db : Type 0 where
  pub utxo : Rows
  pub last_block : Map ℕ (Int64 × Hash)
  pub dirty : Map ℕ (ℕ × String)
  pub closed : Bool

-- The calls that reach the engine.
pub data Statement : Type 0 where
  open_db create_table pragma create_trigger create_index prepare : String → Statement
  begin_tx commit_tx vacuum close_db count_rows read_last_block read_dirty : Statement
  read_out read_value : TxOutId → Statement
  read_address read_balance write_dirty : String → Statement
  write_out : TxOutId → TxOutData → Statement
  delete_out : TxOutId → Statement
  write_last_block : Int64 → Hash → Statement

pub record Engine : Type 0 where
  -- the message of the error that the statement fails with
  pub fault : Statement → Db → Option String
  -- SQLite leaves open which of two triggers runs first
  pub negative_first : Bool

pub data Reply (A : Type 0) : Type 0 where
  done : A → Reply A
  failed : String → Reply A

pub Reply-cases :
    {A : Type 0} (r : Reply A) → ((a : A) × (r ≡ done a)) ⊎ ((m : String) × (r ≡ failed m))
Reply-cases (done a) = inl (a, refl)
Reply-cases (failed m) = inr (m, refl)

pub done-injective : {A : Type 0} {a b : A} → done a ≡ done b → a ≡ b
done-injective h = cc

-- SCHEMAS, PRAGMAS, TRIGGERS and INDEXES by the names of what they make
abbrev pub schemas : List String
schemas = "utxo" ∷ "last_block" ∷ "dirty" ∷ []

abbrev pub pragmas : List String
pragmas =
    "page_size=4096" ∷ "cache_size=-100000" ∷ "locking_mode=EXCLUSIVE" ∷ "auto_vacuum=NONE"
    ∷ "synchronous=NORMAL" ∷ "temp_store=2" ∷ "journal_mode=TRUNCATE" ∷ []

abbrev pub triggers : List String
triggers = "Delete_Unexpendable_Utxo" ∷ "Error_Negative_Utxo" ∷ []

abbrev pub indexes : List String
indexes = "Utxo_Addr_Idx ON utxo(addr)" ∷ []

abbrev pub guarded : {A : Type 0} → Bool → Option String → Reply A → Reply A
guarded true fault r = failed "sql: database is closed"
guarded false (some m) r = failed m
guarded false none r = r

abbrev pub run : {A : Type 0} → Engine → Statement → Db → Reply A → Reply A
run e st db r = guarded db.closed (e.fault st db) r

abbrev pub negative_message : String
negative_message = "Negative utxo"

abbrev pub unexpendable_message : String
unexpendable_message = "Unexpendable utxo"

-- new.value = 0 or new.addr = ""
abbrev pub unexpendable : TxOutData → Bool
unexpendable out = eqb out.value 0 || out.addr == ""

-- The message of the trigger that stops the new row.
unfoldable pub raised : Bool → TxOutData → Option String
raised true out =
    if is_negative out.value
    then some negative_message
    else if unexpendable out
    then some unexpendable_message
    else none
raised false out =
    if unexpendable out
    then some unexpendable_message
    else if is_negative out.value
    then some negative_message
    else none

-- a row that no trigger stops and whose key is new
unfoldable pub insert_row : Bool → TxOutId → TxOutData → Db → Reply Db
insert_row first id out db = elim (raised first out) [
  | some m ↦ failed m
  | none ↦
      if is_some (lookup id db.utxo)
      then failed "UNIQUE constraint failed: utxo.tx, utxo.nout"
      else done (record db { utxo = (id, out) ∷ db.utxo })
]

-- INSERT INTO utxo(tx, nout, addr, value) VALUES(?, ?, ?, ?);
unfoldable pub exec_set : Engine → TxOutId → TxOutData → Db → Reply Db
exec_set e id out db = run e (write_out id out) db (insert_row e.negative_first id out db)

-- What a caller gives for a column of bytes: a slice of the array or the array itself, which
-- database/sql does not take.
pub data Arg : Type 0 where
  bytes array : Hash → Arg

-- DELETE FROM utxo WHERE tx=? AND nout=?;
unfoldable pub exec_delete : Engine → Arg → ℕ → Db → Reply Db
exec_delete e (bytes h) nout db =
    run e (delete_out (new_tx_out_id h nout)) db
      (done (record db { utxo = delete (new_tx_out_id h nout) db.utxo }))
exec_delete e (array h) nout db =
    failed "sql: converting argument $1 type: unsupported type chainhash.Hash, a array"

-- INSERT OR REPLACE INTO last_block(pk, height, hash) VALUES(1, ?, ?);
unfoldable pub exec_last_block : Engine → Int64 → Hash → Db → Reply Db
exec_last_block e height hash db =
    run e (write_last_block height hash) db
      (done (record db { last_block = insert 1 (height, hash) db.last_block }))

-- INSERT OR REPLACE INTO dirty(pk, marked, message) VALUES(1, 1, ?);
unfoldable pub exec_dirty : Engine → String → Db → Reply Db
exec_dirty e message db =
    run e (write_dirty message) db (done (record db { dirty = insert 1 (1, message) db.dirty }))

-- SELECT count(*) FROM utxo;
unfoldable pub query_len : Engine → Db → Reply ℕ
query_len e db = run e count_rows db (done (length db.utxo))

-- A query of one row has `none` for sql.ErrNoRows.
-- SELECT addr, value FROM utxo WHERE tx=? AND nout=?;
unfoldable pub query_out : Engine → TxOutId → Db → Reply (Option TxOutData)
query_out e id db = run e (read_out id) db (done (lookup id db.utxo))

-- SELECT value FROM utxo WHERE tx=? AND nout=?;
unfoldable pub query_value : Engine → TxOutId → Db → Reply (Option Int64)
query_value e id db =
    run e (read_value id) db
      (done (elim (lookup id db.utxo) [ some out ↦ some out.value | none ↦ none ]))

-- SELECT height, hash FROM last_block WHERE pk=1;
unfoldable pub query_last_block : Engine → Db → Reply (Option (Int64 × Hash))
query_last_block e db = run e read_last_block db (done (lookup 1 db.last_block))

-- SELECT marked, message FROM dirty WHERE pk=1;
unfoldable pub query_dirty : Engine → Db → Reply (Option (ℕ × String))
query_dirty e db = run e read_dirty db (done (lookup 1 db.dirty))

unfoldable pub rows_of : String → Rows → List TxOut
rows_of a [] = []
rows_of a ((id, out) ∷ rows) =
    let rest = rows_of a rows in
    if out.addr == a
    then record { tx_hash = id.tx_hash; nout = id.nout; addr = out.addr; value = out.value } ∷ rest
    else rest

-- SELECT tx, nout, addr, value FROM utxo WHERE addr=?;
unfoldable pub query_address : Engine → String → Db → Reply (List TxOut)
query_address e a db = run e (read_address a) db (done (rows_of a db.utxo))

abbrev pub sum_overflows : Int64 → Int64 → Bool
sum_overflows a b =
    if is_negative a
    then is_negative b && not (is_negative (add64 a b))
    else not (is_negative b) && is_negative (add64 a b)

-- SUM adds up one row after the other, and stops where a sum is no int64.
unfoldable pub sql_sum : Int64 → List TxOut → Option Int64
sql_sum acc [] = some acc
sql_sum acc (out ∷ rows) =
    let total = add64 acc out.value in
    let rest = sql_sum total rows in if sum_overflows acc out.value then none else rest

-- SELECT coalesce(SUM(value), 0) FROM utxo WHERE addr=?;
unfoldable pub query_balance : Engine → String → Db → Reply Int64
query_balance e a db =
    run e (read_balance a) db
      (elim (sql_sum 0 (rows_of a db.utxo)) [ some n ↦ done n | none ↦ failed "integer overflow" ])
