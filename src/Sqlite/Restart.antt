-- ===== src/Sqlite/Restart.antt =====
-- A start, over what the last run committed:
-- open the storage of block_manager/storage/sqlite.go and put the cache of
-- block_manager/storage/cache.go on it.
use gobalance.Common.{
  Map, lookup, Int64, string_key, nat_key, String, ◌≡◌, refl, ◌⊎◌, inl, inr, true, false, [], arith,
}
use gobalance.Sql.{Db, Engine}
use gobalance.Sqlite.Interface.{checked_update, sqlite_api, CheckedStorage}
use gobalance.Sqlite.{
  SqliteStorage, setup, init_all, opened, fresh_storage, new_sqlite_storage, get_dirty,
  get_last_block,
}
use gobalance.Storage.{
  err_not_ok, tx_out_id_key, TxOutId, Result-cases, dirty_storage, ok, TxOutData, Error, err,
}
use gobalance.Primitives.{Hash}
use gobalance.Sqlite.Answers.{get_last_block-ok}
use gobalance.Storage.Cache.{commit, new_storage_cache, StorageCache}
use gobalance.Storage.Cache.Ledger.{Holds}
use gobalance.Sqlite.Atomic.{last_of}

module _ (e : Engine) where
  pub new_sqlite_storage-cases :
      (path : String) (db : Db)
      → (new_sqlite_storage e path db ≡ ok (fresh_storage db))
        ⊎ ((x : Error) × (new_sqlite_storage e path db ≡ err x))
  unfolding new_sqlite_storage
  new_sqlite_storage-cases path db = elim (Result-cases (init_all e (setup path) (opened db))) [
    | inr (x, bad) ↦ inr (x, ground arith)
    | inl (u, ready) ↦ elim (Result-cases (get_dirty e (opened db))) [
      | inr (x, bad) ↦ inr (x, ground arith)
      | inl ((true, message), marked_so) ↦ inr (dirty_storage, ground arith)
      | inl ((false, message), clean) ↦ inl (ground arith)
    ]
  ]

  -- the cache that is put on a storage just opened
  abbrev pub reopened_cache : CheckedStorage → Int64 × Hash → StorageCache (sqlite_api e)
  reopened_cache c (height, hash) = record {
    sto = record { sqlite = fresh_storage c.sqlite.db; table = c.table };
    inserts = [];
    deletions = [];
    balance = [];
    height = height;
    last_block_hash = hash;
    balance_index_enabled = true;
    uncommitted_blocks = 0;
  }

  pub get_last_block-cases :
      (s : SqliteStorage)
      → (get_last_block e s ≡ ok (last_of s.db)) ⊎ ((x : Error) × (get_last_block e s ≡ err x))
  get_last_block-cases s = elim (Result-cases (get_last_block e s)) [
    | inr failing ↦ inr failing
    | inl (p, answered) ↦ inl (rw (← get_last_block-ok e s p answered) answered)
  ]

  pub reopened_cache-Holds :
      (s : StorageCache (sqlite_api e)) (m : Map TxOutId TxOutData) (p : Int64 × Hash)
      → Holds (sqlite_api e) s m
      → s.inserts ≡ []
      → s.deletions ≡ []
      → s.balance ≡ []
      → Holds (sqlite_api e) (reopened_cache s.sto p) m
  unfolding lookup
  reopened_cache-Holds s m p h i d b = record {
    consistent = record { disjoint = λ id k. cc; unstored = λ id k. cc };
    unique = h.unique;
    outputs = λ id. ground (arith, h.outputs id);
    indexed = refl;
    balances = λ a. ground (arith, h.balances a);
  }

  pub new_storage_cache-cases :
      (c : CheckedStorage) (p : Int64 × Hash)
      → last_of c.sqlite.db ≡ p
      → let r = new_storage_cache (sqlite_api e) (reopened_cache c p).sto true in
        (r ≡ ok (reopened_cache c p)) ⊎ ((x : Error) × (r ≡ err x))
  unfolding new_storage_cache
  new_storage_cache-cases c p last = elim (get_last_block-cases (fresh_storage c.sqlite.db)) [
    | inr (x, bad) ↦ inr (x, rw (bad, new_storage_cache) refl)
    | inl answered ↦ inl (rw (answered, new_storage_cache) (rw last refl))
  ]

  pub commit-empties :
      (s : StorageCache (sqlite_api e))
      → (commit (sqlite_api e) s).0 ≡ ok tt
      → let c = (commit (sqlite_api e) s).1 in
        (c.inserts ≡ []) × (c.deletions ≡ []) × (c.balance ≡ [])
  unfolding commit
  commit-empties s h =
      elim (Result-cases
        (checked_update e s.inserts s.deletions s.height s.last_block_hash s.sto)) [
          | inl (c, did) ↦ rw (did, commit) (refl, refl, refl)
          | inr (x, bad) ↦ absurd (err_not_ok (rw (bad, commit) at h))
        ]
