-- ===== src/Sql/Effects.antt =====
-- What the transactions of block_manager/storage/sqlite.go do to the tables: all that they are
-- asked for, or nothing.
use gobalance.Common.{
  Option-cases, lookup, delete, insert, Int64, string_key, nat_key, String, ◌≡◌, refl, ◌∙◌, ◌⊎◌,
  inl, inr, Bool, true, false, Option, none, some, List, [], ◌∷◌, arith,
}
use gobalance.Sql.{
  exec_last_block, exec_set, write_out, write_last_block, delete_out, insert_row, exec_delete,
  guarded, raised, Db, Reply, begin_tx, run, Statement, Rows, commit_tx, Engine, failed, done,
}
use gobalance.Storage.{
  new_tx_out_id, TxOutData, Error, err, database, Result, TxOutId, ok, tx_out_id_key,
}
use gobalance.Sql.Batch.{
  insert_all, set_error, write_batch, delete_all, write_height, transact, end_tx,
}
use gobalance.Primitives.{Hash}

-- the rows without those of the ids, and with new ones in front
abbrev pub remove_ids : List TxOutId → Rows → Rows
remove_ids [] rows = rows
remove_ids (id ∷ l) rows = remove_ids l (delete id rows)

abbrev pub add_rows : Rows → Rows → Rows
add_rows [] rows = rows
add_rows (p ∷ l) rows = add_rows l (p ∷ rows)

-- No trigger stops a row of the list, and its key is new when its turn comes.
abbrev pub Fresh : Bool → Rows → Rows → Type 0
Fresh first [] rows = Unit
Fresh first ((id, out) ∷ l) rows =
    (raised first out ≡ none) × (lookup id rows ≡ none) × Fresh first l ((id, out) ∷ rows)

-- the tables after a batch
abbrev pub written : Rows → List TxOutId → Int64 → Hash → Db → Db
written ins rem height hash db = record db {
  utxo = add_rows ins (remove_ids rem db.utxo);
  last_block = insert 1 (height, hash) db.last_block;
}

abbrev pub Fails : {A B : Type 0} → Result A × B → Type 0
Fails {B} r = (x : Error) × (b : B) × (r ≡ (err x, b))

guarded-cases :
    {A : Type 0} (closed : Bool) (fault : Option String) (r : Reply A)
    → (guarded closed fault r ≡ r) ⊎ ((m : String) × (guarded closed fault r ≡ failed m))
guarded-cases true fault r = inr ("sql: database is closed", refl)
guarded-cases false (some m) r = inr (m, refl)
guarded-cases false none r = inl refl

pub run-cases :
    {A : Type 0} (e : Engine) (st : Statement) (db : Db) (r : Reply A)
    → (run e st db r ≡ r) ⊎ ((m : String) × (run e st db r ≡ failed m))
run-cases e st db r = guarded-cases db.closed (e.fault st db) r

end_tx-cases :
    {A : Type 0} (e : Engine) (before : Db) (p : Result A × Db)
    → ((a : A) × (during : Db) × (p ≡ (ok a, during)) × (end_tx e before p ≡ (ok a, during)))
      ⊎ ((x : Error) × (end_tx e before p ≡ (err x, before)))
unfolding end_tx
end_tx-cases e before (err x, during) = inr (x, refl)
end_tx-cases e before (ok a, during) = elim (run-cases e commit_tx during (done during)) [
  | inr (m, bad) ↦ inr (database m, rw (bad, end_tx) refl)
  | inl kept ↦ inl (a, during, refl, rw (kept, end_tx) refl)
]

-- A transaction keeps what its function did, or the tables stay as they were.
pub transact-cases :
    {A : Type 0} (e : Engine) (f : Db → Result A × Db) (db : Db)
    → ((a : A) × (during : Db) × (f db ≡ (ok a, during)) × (transact e f db ≡ (ok a, during)))
      ⊎ ((x : Error) × (transact e f db ≡ (err x, db)))
unfolding transact
transact-cases e f db = elim (run-cases e begin_tx db (done db)) [
  | inr (m, bad) ↦ inr (database m, rw (bad, transact) refl)
  | inl begun ↦ rw (begun, transact) (end_tx-cases e db (f db))
]

delete_all_lem :
    (e : Engine) (l : List TxOutId) (db : Db)
    → (delete_all e l db ≡ (ok tt, record db { utxo = remove_ids l db.utxo }))
      ⊎ Fails (delete_all e l db)
unfolding delete_all exec_delete new_tx_out_id
delete_all_lem e [] db = inl refl
delete_all_lem e (id ∷ l) db =
    let next = record db { utxo = delete id db.utxo } in
    elim (run-cases e (delete_out id) db (done next)) [
      | inr (m, bad) ↦ inr (database m, db, rw (bad, delete_all) refl)
      | inl fine ↦ rw (fine, delete_all) (delete_all_lem e l next)
    ]

insert_row-cases :
    (first : Bool) (id : TxOutId) (out : TxOutData) (db : Db)
    → ((raised first out ≡ none)
        × (lookup id db.utxo ≡ none)
        × (insert_row first id out db ≡ done (record db { utxo = (id, out) ∷ db.utxo })))
      ⊎ ((m : String) × (insert_row first id out db ≡ failed m))
unfolding insert_row
insert_row-cases first id out db = elim (Option-cases (raised first out)) [
  | inr (m, barred) ↦ inr (m, rw (barred, insert_row) refl)
  | inl free ↦ elim (Option-cases (lookup id db.utxo)) [
    | inl new ↦ inl (free, new, ground arith)
    | inr (old, there) ↦ inr ("UNIQUE constraint failed: utxo.tx, utxo.nout", ground arith)
  ]
]

pub exec_set-cases :
    (e : Engine) (id : TxOutId) (out : TxOutData) (db : Db)
    → ((raised e.negative_first out ≡ none)
        × (lookup id db.utxo ≡ none)
        × (exec_set e id out db ≡ done (record db { utxo = (id, out) ∷ db.utxo })))
      ⊎ ((m : String) × (exec_set e id out db ≡ failed m))
unfolding exec_set
exec_set-cases e id out db =
    elim (run-cases e (write_out id out) db (insert_row e.negative_first id out db)) [
      | inr (m, bad) ↦ inr (m, bad)
      | inl same ↦ elim (insert_row-cases e.negative_first id out db) [
        | inr (m, bad) ↦ inr (m, same ∙ bad)
        | inl (free, new, did) ↦ inl (free, new, same ∙ did)
      ]
    ]

insert_all_lem :
    (e : Engine) (l : Rows) (db : Db)
    → (Fresh e.negative_first l db.utxo
        × (insert_all e l db ≡ (ok tt, record db { utxo = add_rows l db.utxo })))
      ⊎ Fails (insert_all e l db)
unfolding insert_all
insert_all_lem e [] db = inl (tt, refl)
insert_all_lem e ((id, out) ∷ l) db = elim (exec_set-cases e id out db) [
  | inr (m, bad) ↦ inr (set_error m, db, rw (bad, insert_all) refl)
  | inl (free, new, did) ↦
      rw (did, insert_all)
        (elim (insert_all_lem e l (record db { utxo = (id, out) ∷ db.utxo })) [
          | inl (fresh, done_so) ↦ inl ((free, new, fresh), done_so)
          | inr bad ↦ inr bad
        ])
]

pub write_height-cases :
    (e : Engine) (height : Int64) (hash : Hash) (db : Db)
    → (write_height e height hash db
        ≡ (ok tt, record db { last_block = insert 1 (height, hash) db.last_block }))
      ⊎ ((x : Error) × (write_height e height hash db ≡ (err x, db)))
unfolding write_height exec_last_block
write_height-cases e height hash db =
    elim (run-cases e (write_last_block height hash) db
      (done (record db { last_block = insert 1 (height, hash) db.last_block }))) [
        | inr (m, bad) ↦ inr (database m, rw (bad, write_height) refl)
        | inl fine ↦ inl (rw (fine, write_height) refl)
      ]

pub write_batch-cases :
    (e : Engine) (ins : Rows) (rem : List TxOutId) (height : Int64) (hash : Hash) (db : Db)
    → (Fresh e.negative_first ins (remove_ids rem db.utxo)
        × (write_batch e ins rem height hash db ≡ (ok tt, written ins rem height hash db)))
      ⊎ Fails (write_batch e ins rem height hash db)
unfolding write_batch
write_batch-cases e ins rem height hash db = elim (delete_all_lem e rem db) [
  | inr (x, d, bad) ↦ inr (x, d, rw (bad, write_batch) refl)
  | inl removed ↦
      rw (removed, write_batch)
        (elim (insert_all_lem e ins (record db { utxo = remove_ids rem db.utxo })) [
          | inr (x, d, bad) ↦ inr (x, d, rw bad refl)
          | inl (fresh, added) ↦
              rw added
                (elim (write_height-cases e height hash
                  (record db { utxo = add_rows ins (remove_ids rem db.utxo) })) [
                    | inr (x, bad) ↦ inr (x, _, bad)
                    | inl did ↦ inl (fresh, did)
                  ])
        ])
]
