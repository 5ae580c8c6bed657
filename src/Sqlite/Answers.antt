-- ===== src/Sqlite/Answers.antt =====
-- block_manager/storage/sqlite.go: what the methods answer when the database does, and that they
-- keep the table of outputs well formed.
use gobalance.Common.{
  Bool-cases, Option-cases, Map, get_or, is_some, lookup, Int64, string_key, nat_key, String, ◌≡◌,
  ap, inl, inr, Bool, List, [], ◌∷◌, map, arith,
}
use gobalance.Sql.{
  Rows, sql_sum, query_value, query_balance, Db, rows_of, query_last_block, Engine, query_out,
  read_out, read_last_block, done,
}
use gobalance.Storage.{err, Result, balance_in, TxOutId, no_data, ok, tx_out_id_key, TxOutData}
use gobalance.Sqlite.{
  bulk_update, bulk_update_from_map, set, out_row, get_balance, contains, bulk_get, get,
  get_last_block, SqliteStorage,
}
use gobalance.Sqlite.Atomic.{bulk_update-cases, bulk_update_from_map-cases, last_of}
use gobalance.Sql.Effects.{remove_ids, add_rows, exec_set-cases, Fresh, transact-cases, run-cases}
use gobalance.Primitives.{TxOut, Hash}
use gobalance.Sql.Tables.{
  add_rows-IsTable, remove_ids-IsTable, keys_of, IsTable, sql_sum-lt, sql_sum-balance_in,
}
use gobalance.Sql.Batch.{with_row, read_all}
use gobalance.Primitives.Deltas.{total}
use gobalance.Storage.Cache.Balances.{balance_in-lt-size}

with_row-ok :
    (out : TxOutData) (p : Result (List TxOutData) × Db) (outs : List TxOutData) (d : Db)
    → with_row out p ≡ (ok outs, d)
    → (rest : List TxOutData) × (p ≡ (ok rest, d)) × (outs ≡ out ∷ rest)
with_row-ok out (err x, db) outs d h = ground arith
with_row-ok out (ok rest, db) outs d h = (rest, ground arith, ground arith)

module _ (e : Engine) where
  pub get_last_block-ok :
      (s : SqliteStorage) (p : Int64 × Hash) → get_last_block e s ≡ ok p → p ≡ last_of s.db
  unfolding get_last_block query_last_block
  get_last_block-ok s p h = elim (Bool-cases s.is_dirty) [
    | inl shut ↦ ground arith
    | inr clean ↦ elim (run-cases e read_last_block s.db (done (lookup 1 s.db.last_block))) [
      | inr (m, bad) ↦ ground arith
      | inl fine ↦ ground (arith, Option-cases (lookup 1 s.db.last_block))
    ]
  ]

  pub get-ok :
      (id : TxOutId) (s : SqliteStorage) (out : TxOutData)
      → get e id s ≡ ok out
      → out ≡ get_or (lookup id s.db.utxo) no_data
  unfolding get query_out
  get-ok id s out h = elim (run-cases e (read_out id) s.db (done (lookup id s.db.utxo))) [
    | inr (m, bad) ↦ ground arith
    | inl fine ↦ ground arith
  ]

  pub contains-ok :
      (id : TxOutId) (s : SqliteStorage) (b : Bool)
      → contains e id s ≡ ok b
      → b ≡ is_some (lookup id s.db.utxo)
  unfolding contains query_value
  contains-ok id s b h = elim (Option-cases (lookup id s.db.utxo)) [
    | inl absent ↦ ground arith
    | inr (out, there) ↦ ground arith
  ]

  pub get_balance-ok :
      (a : String) (s : SqliteStorage) (n : Int64)
      → get_balance e a s ≡ ok n
      → n ≡ balance_in a s.db.utxo
  unfolding get_balance query_balance
  get_balance-ok a s n h = elim (Option-cases (sql_sum 0 (rows_of a s.db.utxo))) [
    | inl over ↦ ground arith
    | inr (total, summed) ↦ ground (
      arith,
      sql_sum-balance_in a s.db.utxo 0 total summed,
      sql_sum-lt (rows_of a s.db.utxo) 0 total (omega arith) summed,
      balance_in-lt-size a s.db.utxo,
    )
  ]

  read_all-ok :
      (ids : List TxOutId) (db d : Db) (outs : List TxOutData)
      → read_all e ids db ≡ (ok outs, d)
      → outs ≡ map (λ id. get_or (lookup id db.utxo) no_data) ids
  unfolding read_all query_out
  read_all-ok [] db d outs h = ground arith
  read_all-ok (id ∷ l) db d outs h =
      elim (run-cases e (read_out id) db (done (lookup id db.utxo))) [
        | inr (m, bad) ↦ ground arith
        | inl fine ↦
            let (rest, ran, same) =
              with_row-ok (get_or (lookup id db.utxo) no_data) (read_all e l db) outs d
                (rw (fine, read_all) at h) in
            rw same (ap (λ r. get_or (lookup id db.utxo) no_data ∷ r) (read_all-ok l db d rest ran))
      ]

  pub bulk_get-ok :
      (ids : List TxOutId) (s : SqliteStorage) (outs : List TxOutData)
      → bulk_get e ids s ≡ ok outs
      → outs ≡ map (λ id. get_or (lookup id s.db.utxo) no_data) ids
  unfolding bulk_get
  bulk_get-ok [] s outs h = ground arith
  bulk_get-ok (id ∷ l) s outs h = elim (transact-cases e (read_all e (id ∷ l)) s.db) [
    | inr (x, bad) ↦ ground arith
    | inl (found, d, ran, kept) ↦ ground (arith, read_all-ok (id ∷ l) s.db d found ran)
  ]

  -- The table stays one of sound rows with different keys.
  pub write_batch-IsTable :
      (ins : Rows) (rem : List TxOutId) (rows : Rows)
      → Fresh e.negative_first ins (remove_ids rem rows)
      → IsTable rows
      → IsTable (add_rows ins (remove_ids rem rows))
  write_batch-IsTable ins rem rows fresh h =
      add_rows-IsTable e.negative_first ins (remove_ids rem rows) fresh
        (remove_ids-IsTable rem rows h)

  pub bulk_update_from_map-IsTable :
      (ins : Map TxOutId TxOutData) (rem : Map TxOutId Bool) (height : Int64) (hash : Hash)
      (s : SqliteStorage)
      → IsTable s.db.utxo
      → IsTable (bulk_update_from_map e ins rem height hash s).1.db.utxo
  bulk_update_from_map-IsTable ins rem height hash s h =
      elim (bulk_update_from_map-cases e ins rem height hash s) [
        | inr (x, bad) ↦ rw bad h
        | inl (clean, above, fresh, did) ↦
            rw did (write_batch-IsTable ins (keys_of rem) s.db.utxo fresh h)
      ]

  pub bulk_update-IsTable :
      (ins : List TxOut) (rem : List TxOutId) (height : Int64) (hash : Hash) (s : SqliteStorage)
      → IsTable s.db.utxo
      → IsTable (bulk_update e ins rem height hash s).1.db.utxo
  bulk_update-IsTable ins rem height hash s h = elim (bulk_update-cases e ins rem height hash s) [
    | inr (x, bad) ↦ rw bad h
    | inl (clean, above, fresh, did) ↦
        rw did (write_batch-IsTable (map out_row ins) rem s.db.utxo fresh h)
  ]

  pub set-IsTable :
      (out : TxOut) (s : SqliteStorage) → IsTable s.db.utxo → IsTable (set e out s).1.db.utxo
  unfolding set
  set-IsTable out s h = elim (Bool-cases s.is_dirty) [
    | inl shut ↦ ground (arith, h)
    | inr clean ↦ elim (exec_set-cases e (out_row out).0 (out_row out).1 s.db) [
      | inr (m, bad) ↦ ground (arith, h)
      | inl (free, new, did) ↦
          ground (
            arith,
            add_rows-IsTable e.negative_first (out_row out ∷ []) s.db.utxo (free, new, tt) h,
          )
    ]
  ]
