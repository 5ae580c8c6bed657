-- ===== src/Sqlite/Interface.antt =====
-- block_manager/storage/sqlite.go as an implementation of the interface `Storage`, and the cache
-- of block_manager/storage/cache.go on top of it.
-- a storage with a well-formed table of outputs
use gobalance.Common.{Map, lookup, Int64, string_key, nat_key, ◌≡◌, sym, ap, ◌∙◌, inl, inr, Bool}
use gobalance.Sql.Tables.{IsTable}
use gobalance.Sqlite.Answers.{
  get_last_block-ok, bulk_update_from_map-IsTable, contains-ok, get-ok, get_balance-ok, bulk_get-ok,
}
use gobalance.Storage.{
  err_not_ok, err, updated, Storage, ok, TxOutId, TxOutData, ok-injective, Result, tx_out_id_key,
}
use gobalance.Sqlite.Atomic.{last_of, bulk_update_from_map-atomic}
use gobalance.Sqlite.{
  len, get_balance, bulk_update_from_map, SqliteStorage, get_last_block, bulk_get, get, contains,
}
use gobalance.Primitives.{Hash}
use gobalance.Sql.{Engine}

pub record CheckedStorage : Type 0 where
  pub sqlite : SqliteStorage
  pub table : IsTable sqlite.db.utxo

module _ (e : Engine) where
  unfoldable pub checked_update :
      Map TxOutId TxOutData
      → Map TxOutId Bool
      → Int64
      → Hash
      → CheckedStorage
      → Result CheckedStorage
  checked_update ins rem height hash c =
      elim (bulk_update_from_map e ins rem height hash c.sqlite).0 [
        | err x ↦ err x
        | ok _ ↦ ok (record {
          sqlite = (bulk_update_from_map e ins rem height hash c.sqlite).1;
          table = bulk_update_from_map-IsTable e ins rem height hash c.sqlite c.table;
        })
      ]

  pub checked_update-ok :
      (ins : Map TxOutId TxOutData) (rem : Map TxOutId Bool) (height : Int64) (hash : Hash)
      (c c' : CheckedStorage)
      → checked_update ins rem height hash c ≡ ok c'
      → ((id : TxOutId) → lookup id c'.sqlite.db.utxo ≡ updated ins rem c.sqlite.db.utxo id)
        × (last_of c'.sqlite.db ≡ (height, hash))
  unfolding checked_update
  checked_update-ok ins rem height hash c c' h =
      elim (bulk_update_from_map-atomic e ins rem height hash c.sqlite) [
        | inr (x, bad, same) ↦ absurd (err_not_ok (rw (bad, checked_update) at h))
        | inl (fine, outs, last) ↦
            let same = ap (λ c. c.sqlite.db) (ok-injective (rw (fine, checked_update) at h)) in
            (λ id. ap (λ db. lookup id db.utxo) (sym same) ∙ outs id, ap last_of (sym same) ∙ last)
      ]

  abbrev pub sqlite_api : Storage
  sqlite_api = record {
    Sto = CheckedStorage;
    utxos = λ c. c.sqlite.db.utxo;
    utxos-Unique = λ c. c.table.0;
    last_block = λ c. last_of c.sqlite.db;
    len = λ c. len e c.sqlite;
    get_last_block = λ c. get_last_block e c.sqlite;
    get = λ id c. get e id c.sqlite;
    get_balance = λ a c. get_balance e a c.sqlite;
    contains = λ id c. contains e id c.sqlite;
    bulk_get = λ ids c. bulk_get e ids c.sqlite;
    bulk_update_from_map = checked_update;
    get_last_block_ok = λ c. get_last_block-ok e c.sqlite;
    get_ok = λ id c. get-ok e id c.sqlite;
    contains_ok = λ id c. contains-ok e id c.sqlite;
    get_balance_ok = λ a c. get_balance-ok e a c.sqlite;
    bulk_get_ok = λ ids c. bulk_get-ok e ids c.sqlite;
    update_ok = checked_update-ok;
  }
