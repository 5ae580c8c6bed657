-- ===== src/Sqlite/Atomic.antt =====
-- block_manager/storage/sqlite.go: what `BulkUpdate` and `BulkUpdateFromMap` leave behind.
use gobalance.Common.{
  if◌then◌else◌, Map, get_or, lookup, insert, Int64, neg64, is_negative, string_key, nat_key, ◌≡◌,
  refl, sym, ap, ◌∙◌, ◌⊎◌, inl, inr, Bool, true, false, List, map,
}
use gobalance.Sql.{Engine, Rows, Db}
use gobalance.Sql.Batch.{write_batch, Done, transact}
use gobalance.Storage.{
  err_not_ok, updated, negative_height, err, ok, tx_out_id_key, dirty_storage, TxOutId, Error,
  TxOutData,
}
use gobalance.Sql.Effects.{written, write_batch-cases, transact-cases, Fresh, remove_ids}
use gobalance.Sql.Tables.{lookup-written, keys_of}
use gobalance.Primitives.{Hash, zero_hash, TxOut}
use gobalance.Sqlite.{stored, bulk_update_from_map, SqliteStorage, bulk_update, out_row}

-- the height and the hash that the tables hold, or -1 and zeros
abbrev pub last_of : Db → Int64 × Hash
last_of db = get_or (lookup 1 db.last_block) (neg64 1, zero_hash)

module _ (e : Engine) where
  stored_batch :
      (ins : Rows) (rem : List TxOutId) (height : Int64) (hash : Hash) (s : SqliteStorage)
      → (Fresh e.negative_first ins (remove_ids rem s.db.utxo)
          × (stored s (transact e (write_batch e ins rem height hash) s.db)
              ≡ (ok tt, record s { db = written ins rem height hash s.db })))
        ⊎ ((x : Error) × (stored s (transact e (write_batch e ins rem height hash) s.db)
              ≡ (err x, s)))
  stored_batch ins rem height hash s =
      elim (transact-cases e (write_batch e ins rem height hash) s.db) [
        | inr (x, bad) ↦ inr (x, ap (stored s) bad)
        | inl (a, during, ran, kept) ↦ elim (write_batch-cases e ins rem height hash s.db) [
          | inl (fresh, did) ↦ inl (fresh, ap (stored s) (kept ∙ sym ran ∙ did))
          | inr (x, b, bad) ↦ absurd (err_not_ok (ap (λ p. p.0) (sym bad ∙ ran)))
        ]
      ]

  guarded_batch :
      (dirty negative : Bool) (s : SqliteStorage) (h : Done × SqliteStorage)
      → ((dirty ≡ false)
          × (negative ≡ false)
          × ((if dirty
                then (err dirty_storage, s)
                else if negative
                then (err negative_height, s)
                else h)
              ≡ h))
        ⊎ ((x : Error) × ((if dirty
                then (err dirty_storage, s)
                else if negative
                then (err negative_height, s)
                else h)
              ≡ (err x, s)))
  guarded_batch true negative s h = inr (dirty_storage, refl)
  guarded_batch false true s h = inr (negative_height, refl)
  guarded_batch false false s h = inl (refl, refl, refl)

  pub bulk_update_from_map-cases :
      (ins : Map TxOutId TxOutData) (rem : Map TxOutId Bool) (height : Int64) (hash : Hash)
      (s : SqliteStorage)
      → ((s.is_dirty ≡ false)
          × (is_negative height ≡ false)
          × Fresh e.negative_first ins (remove_ids (keys_of rem) s.db.utxo)
          × (bulk_update_from_map e ins rem height hash s
              ≡ (ok tt, record s { db = written ins (keys_of rem) height hash s.db })))
        ⊎ ((x : Error) × (bulk_update_from_map e ins rem height hash s ≡ (err x, s)))
  unfolding bulk_update_from_map
  bulk_update_from_map-cases ins rem height hash s =
      elim (guarded_batch s.is_dirty (is_negative height) s
        (stored s (transact e (write_batch e ins (keys_of rem) height hash) s.db))) [
          | inr refused ↦ inr refused
          | inl (clean, above, same) ↦ elim (stored_batch ins (keys_of rem) height hash s) [
            | inl (fresh, did) ↦ inl (clean, above, fresh, same ∙ did)
            | inr (x, bad) ↦ inr (x, same ∙ bad)
          ]
        ]

  pub bulk_update-cases :
      (ins : List TxOut) (rem : List TxOutId) (height : Int64) (hash : Hash) (s : SqliteStorage)
      → ((s.is_dirty ≡ false)
          × (is_negative height ≡ false)
          × Fresh e.negative_first (map out_row ins) (remove_ids rem s.db.utxo)
          × (bulk_update e ins rem height hash s
              ≡ (ok tt, record s { db = written (map out_row ins) rem height hash s.db })))
        ⊎ ((x : Error) × (bulk_update e ins rem height hash s ≡ (err x, s)))
  unfolding bulk_update
  bulk_update-cases ins rem height hash s =
      elim (guarded_batch s.is_dirty (is_negative height) s
        (stored s (transact e (write_batch e (map out_row ins) rem height hash) s.db))) [
          | inr refused ↦ inr refused
          | inl (clean, above, same) ↦ elim (stored_batch (map out_row ins) rem height hash s) [
            | inl (fresh, did) ↦ inl (clean, above, fresh, same ∙ did)
            | inr (x, bad) ↦ inr (x, same ∙ bad)
          ]
        ]

  -- BulkUpdateFromMap does all of its update or nothing, wherever the database fails: either it
  -- returns no error, and then the stored outputs are those that were there, without the deleted
  -- ones and with the inserted ones, and the last block is the one given; or it returns an error,
  -- and then the storage is as it was.
  pub bulk_update_from_map-atomic :
      (ins : Map TxOutId TxOutData) (rem : Map TxOutId Bool) (height : Int64) (hash : Hash)
      (s : SqliteStorage)
      → let (r, s') = bulk_update_from_map e ins rem height hash s in
        ((r ≡ ok tt)
          × ((id : TxOutId) → lookup id s'.db.utxo ≡ updated ins rem s.db.utxo id)
          × (last_of s'.db ≡ (height, hash)))
        ⊎ ((x : Error) × (r ≡ err x) × (s' ≡ s))
  unfolding lookup insert
  bulk_update_from_map-atomic ins rem height hash s =
      elim (bulk_update_from_map-cases ins rem height hash s) [
        | inl (clean, above, fresh, did) ↦
            inl (
              rw did (refl, λ id. lookup-written e.negative_first ins s.db.utxo rem id fresh, refl))
        | inr (x, bad) ↦ inr (x, ap (λ p. p.0) bad, ap (λ p. p.1) bad)
      ]
