-- ===== src/Sqlite/Success.antt =====
-- block_manager/storage/sqlite.go over a database that does not fail: the updates that succeed,
-- and what can be read back.
use gobalance.Common.{
  if◌then◌else◌, Option-cases, All, get_or, lookup, delete, insert, Int64, is_negative, string_key,
  nat_key, ◌≡◌, refl, ap, ◌∙◌, inl, inr, Bool, false, none, some, List, [], ◌∷◌, map, arith,
}
use gobalance.Sql.{
  query_last_block, read_last_block, read_out, write_last_block, query_out, Reply, Engine,
  commit_tx, exec_set, exec_delete, delete_out, insert_row, write_out, Rows, run, Db, begin_tx,
  exec_last_block, Statement, done,
}
use gobalance.Sqlite.{SqliteStorage, bulk_get, get_last_block, bulk_update, out_row, stored}
use gobalance.Storage.{new_tx_out_id, Result, no_data, tx_out_id_key, ok, TxOutId}
use gobalance.Sql.Batch.{
  read_all, end_tx, write_height, transact, write_batch, delete_all, insert_all,
}
use gobalance.Primitives.{TxOut, Hash}
use gobalance.Sql.Effects.{remove_ids, add_rows, Fresh, written}
use gobalance.Sql.Tables.{lookup-add_rows}
use gobalance.Sqlite.Atomic.{last_of}

pub get_add_rows :
    (first : Bool) (l rows : Rows)
    → Fresh first l rows
    → All (λ p. lookup p.0 (add_rows l rows) ≡ some p.1) l
unfolding lookup
get_add_rows first [] rows h = tt
get_add_rows first ((id, out) ∷ l) rows (free, new, h) = (
  ground (arith, lookup-add_rows first l ((id, out) ∷ rows) id h, tx_out_id_key.test_iff id id),
  get_add_rows first l ((id, out) ∷ rows) h,
)

read_back :
    (rows : Rows) (l : Rows)
    → All (λ p. lookup p.0 rows ≡ some p.1) l
    → map (λ id. get_or (lookup id rows) no_data) (map (λ p. p.0) l) ≡ map (λ p. p.1) l
read_back rows [] h = refl
read_back rows ((id, out) ∷ l) h = ground (arith, read_back rows l h.1)

unguarded :
    {A : Type 0} (a b : Bool) (x y z : A)
    → a ≡ false
    → b ≡ false
    → (if a then x else if b then y else z) ≡ z
unguarded a b x y z h k = ground arith

module _ (e : Engine) (works : (st : Statement) (db : Db) → e.fault st db ≡ none) where
  run_works :
      {A : Type 0} (st : Statement) (db : Db) (r : Reply A) → db.closed ≡ false → run e st db r ≡ r
  run_works st db r open_so = rw (works st db, open_so) refl

  transact_works :
      {A : Type 0} (f : Db → Result A × Db) (db during : Db) (a : A)
      → db.closed ≡ false
      → during.closed ≡ false
      → f db ≡ (ok a, during)
      → transact e f db ≡ (ok a, during)
  unfolding transact end_tx
  transact_works f db during a h k ran =
      rw (run_works begin_tx db (done db) h, transact)
        (rw (ran, end_tx) (rw (run_works commit_tx during (done during) k) refl))

  delete_all_works :
      (l : List TxOutId) (db : Db)
      → db.closed ≡ false
      → delete_all e l db ≡ (ok tt, record db { utxo = remove_ids l db.utxo })
  unfolding delete_all exec_delete new_tx_out_id
  delete_all_works [] db h = refl
  delete_all_works (id ∷ l) db h =
      let next = record db { utxo = delete id db.utxo } in
      rw (run_works (delete_out id) db (done next) h, delete_all) (delete_all_works l next h)

  insert_all_works :
      (l : Rows) (db : Db)
      → db.closed ≡ false
      → Fresh e.negative_first l db.utxo
      → insert_all e l db ≡ (ok tt, record db { utxo = add_rows l db.utxo })
  unfolding insert_all exec_set insert_row
  insert_all_works [] db h fresh = refl
  insert_all_works ((id, out) ∷ l) db h (free, new, fresh) =
      let next = record db { utxo = (id, out) ∷ db.utxo } in
      rw (run_works (write_out id out) db (insert_row e.negative_first id out db) h, insert_all)
        (rw (free, insert_row) (rw new (insert_all_works l next h fresh)))

  write_height_works :
      (height : Int64) (hash : Hash) (db : Db)
      → db.closed ≡ false
      → write_height e height hash db
        ≡ (ok tt, record db { last_block = insert 1 (height, hash) db.last_block })
  unfolding write_height exec_last_block
  write_height_works height hash db h =
      let next = record db { last_block = insert 1 (height, hash) db.last_block } in
      rw (run_works (write_last_block height hash) db (done next) h, write_height) refl

  write_batch_works :
      (ins : Rows) (rem : List TxOutId) (height : Int64) (hash : Hash) (db : Db)
      → db.closed ≡ false
      → Fresh e.negative_first ins (remove_ids rem db.utxo)
      → write_batch e ins rem height hash db ≡ (ok tt, written ins rem height hash db)
  unfolding write_batch
  write_batch_works ins rem height hash db h fresh =
      let removed = record db { utxo = remove_ids rem db.utxo } in
      let added = record db { utxo = add_rows ins (remove_ids rem db.utxo) } in
      rw (delete_all_works rem db h, write_batch)
        (rw (insert_all_works ins removed h fresh) (write_height_works height hash added h))

  bulk_update_works :
      (ins : List TxOut) (rem : List TxOutId) (height : Int64) (hash : Hash) (s : SqliteStorage)
      → s.is_dirty ≡ false
      → s.db.closed ≡ false
      → is_negative height ≡ false
      → Fresh e.negative_first (map out_row ins) (remove_ids rem s.db.utxo)
      → bulk_update e ins rem height hash s
        ≡ (ok tt, record s { db = written (map out_row ins) rem height hash s.db })
  unfolding bulk_update
  bulk_update_works ins rem height hash s clean open_so above fresh =
      let batch = write_batch e (map out_row ins) rem height hash in
      let after = written (map out_row ins) rem height hash s.db in
      let did =
        transact_works batch s.db after tt open_so open_so
          (write_batch_works (map out_row ins) rem height hash s.db open_so fresh) in
      unguarded s.is_dirty (is_negative height) _ _ _ clean above ∙ ap (stored s) did

  read_all_works :
      (ids : List TxOutId) (db : Db)
      → db.closed ≡ false
      → read_all e ids db ≡ (ok (map (λ id. get_or (lookup id db.utxo) no_data) ids), db)
  unfolding read_all query_out
  read_all_works [] db h = refl
  read_all_works (id ∷ l) db h =
      rw (run_works (read_out id) db (done (lookup id db.utxo)) h, read_all)
        (rw (read_all_works l db h) refl)

  bulk_get_works :
      (ids : List TxOutId) (s : SqliteStorage)
      → s.is_dirty ≡ false
      → s.db.closed ≡ false
      → bulk_get e ids s ≡ ok (map (λ id. get_or (lookup id s.db.utxo) no_data) ids)
  unfolding bulk_get
  bulk_get_works [] s clean open_so = ground arith
  bulk_get_works (id ∷ l) s clean open_so =
      rw
        (transact_works (read_all e (id ∷ l)) s.db s.db _ open_so open_so
          (read_all_works (id ∷ l) s.db open_so))
        (ground arith)

  get_last_block_works :
      (s : SqliteStorage)
      → s.is_dirty ≡ false
      → s.db.closed ≡ false
      → get_last_block e s ≡ ok (last_of s.db)
  unfolding get_last_block query_last_block
  get_last_block_works s clean open_so =
      let asked = run_works read_last_block s.db (done (lookup 1 s.db.last_block)) open_so in
      elim (Option-cases (lookup 1 s.db.last_block)) [
        | inl absent ↦ ground (arith, asked)
        | inr (p, there) ↦ ground (arith, asked)
      ]

  -- Where the database does not fail, BulkUpdate of an open and clean storage succeeds for every
  -- height from 0 and all outputs with a value above 0, an address and an id that is new once the
  -- deletions are done, no two alike; and BulkGet of their ids then returns each of them in its
  -- place, and GetLastBlock the height and the hash.
  pub bulk_get-bulk_update :
      (ins : List TxOut) (rem : List TxOutId) (height : Int64) (hash : Hash) (s : SqliteStorage)
      → s.is_dirty ≡ false
      → s.db.closed ≡ false
      → is_negative height ≡ false
      → Fresh e.negative_first (map out_row ins) (remove_ids rem s.db.utxo)
      → let (r, s') = bulk_update e ins rem height hash s in
        (r ≡ ok tt)
        × (bulk_get e (map (λ p. p.0) (map out_row ins)) s' ≡ ok (map (λ p. p.1) (map out_row ins)))
        × (get_last_block e s' ≡ ok (height, hash))
  unfolding lookup insert
  bulk_get-bulk_update ins rem height hash s clean open_so above fresh =
      let after = record s { db = written (map out_row ins) rem height hash s.db } in
      rw (bulk_update_works ins rem height hash s clean open_so above fresh) (
        refl,
        bulk_get_works _ after clean open_so
            ∙ ap ok (
                read_back _ (map out_row ins) (
                  get_add_rows e.negative_first (map out_row ins) (remove_ids rem s.db.utxo)
                    fresh)),
        get_last_block_works after clean open_so,
      )
