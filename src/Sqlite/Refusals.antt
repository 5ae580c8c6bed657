-- ===== src/Sqlite/Refusals.antt =====
-- block_manager/storage/sqlite.go: the methods that return an error and change nothing.
use gobalance.Common.{
  Bool-cases, Map, lookup, insert, Int64, string_key, nat_key, String, ◌≡◌, refl, ◌⊎◌, inl, inr,
  Bool, true, some, List, arith,
}
use gobalance.Sql.{
  Engine, query_dirty, Db, Reply-cases, read_dirty, exec_dirty, write_dirty, exec_delete, failed,
  done,
}
use gobalance.Sqlite.{
  opened, bulk_update, delete_utxo, init_all, get_by_address, get_balance, mark_dirty, bulk_get,
  set_last_block, new_sqlite_storage, SqliteStorage, get_last_block, set, get_dirty, setup,
  bulk_update_from_map, len, contains, get,
}
use gobalance.Sql.Effects.{run-cases}
use gobalance.Primitives.{Hash, TxOut}
use gobalance.Storage.{
  dirty_storage, Error, database, tx_out_id_key, err, TxOutData, TxOutId, Result-cases,
}

module _ (e : Engine) where
  is_dirty-mark_dirty :
      (message : String) (s : SqliteStorage) → (mark_dirty e message s).1.is_dirty ≡ true
  unfolding mark_dirty
  is_dirty-mark_dirty message s = elim (Reply-cases (exec_dirty e message s.db)) [
    | inl (db, did) ↦ rw (did, mark_dirty) refl
    | inr (m, bad) ↦ rw (bad, mark_dirty) refl
  ]

  marked_not_opened :
      (path message : String) (db : Db)
      → lookup 1 db.dirty ≡ some (1, message)
      → (x : Error) × (new_sqlite_storage e path db ≡ err x)
  unfolding new_sqlite_storage get_dirty query_dirty
  marked_not_opened path message db there =
      elim (Result-cases (init_all e (setup path) (opened db))) [
        | inr (x, bad) ↦ (x, rw (bad, new_sqlite_storage) refl)
        | inl (u, ready) ↦ elim (run-cases e read_dirty (opened db) (done (lookup 1 db.dirty))) [
          | inr (m, bad) ↦ (database m, ground arith)
          | inl fine ↦ (dirty_storage, ground arith)
        ]
      ]

  pub exec_dirty-cases :
      (message : String) (db : Db)
      → (exec_dirty e message db ≡ done (record db { dirty = insert 1 (1, message) db.dirty }))
        ⊎ ((m : String) × (exec_dirty e message db ≡ failed m))
  unfolding exec_dirty
  exec_dirty-cases message db = run-cases e (write_dirty message) db _

  reopened :
      (path message : String) (s : SqliteStorage)
      → ((x : Error) × ((mark_dirty e message s).0 ≡ err x))
        ⊎ ((x : Error) × (new_sqlite_storage e path (mark_dirty e message s).1.db ≡ err x))
  unfolding mark_dirty lookup insert
  reopened path message s = elim (exec_dirty-cases message s.db) [
    | inr (m, bad) ↦ inl (database m, rw (bad, mark_dirty) refl)
    | inl did ↦ inr (rw (did, mark_dirty) (marked_not_opened path message _ refl))
  ]

  -- the methods that read, and those that write
  abbrev pub ReadsRefused : TxOutId → String → List TxOutId → SqliteStorage → Type 0
  ReadsRefused id a ids d =
      (len e d ≡ err dirty_storage)
      × (get_last_block e d ≡ err dirty_storage)
      × (get e id d ≡ err dirty_storage)
      × (get_by_address e a d ≡ err dirty_storage)
      × (get_balance e a d ≡ err dirty_storage)
      × (contains e id d ≡ err dirty_storage)
      × (bulk_get e ids d ≡ err dirty_storage)

  abbrev pub WritesRefused :
      TxOut
      → TxOutId
      → Int64
      → Hash
      → List TxOut
      → List TxOutId
      → Map TxOutId TxOutData
      → Map TxOutId Bool
      → SqliteStorage
      → Type 0
  WritesRefused out id height hash ins rem insert remove d =
      (set_last_block e height hash d ≡ (err dirty_storage, d))
      × (set e out d ≡ (err dirty_storage, d))
      × (delete_utxo e id d ≡ (err dirty_storage, d))
      × (bulk_update e ins rem height hash d ≡ (err dirty_storage, d))
      × (bulk_update_from_map e insert remove height hash d ≡ (err dirty_storage, d))

  reads_refused :
      (id : TxOutId) (a : String) (ids : List TxOutId) (d : SqliteStorage)
      → d.is_dirty ≡ true
      → ReadsRefused id a ids d
  unfolding len get_last_block get get_by_address get_balance contains bulk_get
  reads_refused id a ids d h = ground arith

  writes_refused :
      (out : TxOut) (id : TxOutId) (height : Int64) (hash : Hash) (ins : List TxOut)
      (rem : List TxOutId) (insert : Map TxOutId TxOutData) (remove : Map TxOutId Bool)
      (d : SqliteStorage)
      → d.is_dirty ≡ true
      → WritesRefused out id height hash ins rem insert remove d
  unfolding set_last_block set delete_utxo bulk_update bulk_update_from_map
  writes_refused out id height hash ins rem insert remove d h = ground arith

  -- Once a storage was marked dirty, every method that reads or writes outputs or the last block
  -- returns the error of a dirty storage, and those that write change nothing, whether or not the
  -- mark reached the database; if it did, the tables cannot be opened again as a storage.
  pub mark_dirty-refuses :
      (message path a : String) (s : SqliteStorage) (out : TxOut) (id : TxOutId)
      (ids : List TxOutId) (ins : List TxOut) (rem : List TxOutId) (insert : Map TxOutId TxOutData)
      (remove : Map TxOutId Bool) (height : Int64) (hash : Hash)
      → let (r, d) = mark_dirty e message s in
        ReadsRefused id a ids d
        × WritesRefused out id height hash ins rem insert remove d
        × (((x : Error) × (r ≡ err x)) ⊎ ((x : Error) × (new_sqlite_storage e path d.db ≡ err x)))
  mark_dirty-refuses message path a s out id ids ins rem insert remove height hash =
      let d = (mark_dirty e message s).1 in
      let marked_so = is_dirty-mark_dirty message s in
      (
        reads_refused id a ids d marked_so,
        writes_refused out id height hash ins rem insert remove d marked_so,
        reopened path message s,
      )

  -- Delete never deletes: it returns an error and leaves the storage as it was.
  pub delete_utxo-fails :
      (id : TxOutId) (s : SqliteStorage) → (x : Error) × (delete_utxo e id s ≡ (err x, s))
  unfolding delete_utxo exec_delete
  delete_utxo-fails id s = elim (Bool-cases s.is_dirty) [
    | inl shut ↦ (dirty_storage, ground arith)
    | inr clean ↦ (
      database "sql: converting argument $1 type: unsupported type chainhash.Hash, a array",
      ground arith,
    )
  ]
