-- ===== src/Startup/Launch/Resumed.antt =====
-- main.go: a start after a commit.
use gobalance.BlockManager.{start, BlockManager}
use gobalance.Common.{
  Map, lookup, lookup-insert, Int64, add64, string_key, nat_key, ℕ, String, ◌≡◌, refl, sym, ap, ◌∙◌,
  ◌⊎◌, inl, inr, true, false, not, Option, none, some, [], arith,
}
use gobalance.Storage.{Error, err, tx_out_id_key, err_not_ok, ok, TxOutData, TxOutId}
use gobalance.Sqlite.Restart.{
  commit-empties, reopened_cache-Holds, new_storage_cache-cases, get_last_block-cases,
  new_sqlite_storage-cases, reopened_cache,
}
use gobalance.Startup.{BlockSettings}
use gobalance.Startup.Launch.{new_block_manager, start_manager, Launched, launch}
use gobalance.Storage.Cache.{new_storage_cache, StorageCache, commit}
use gobalance.Sqlite.{get_last_block, new_sqlite_storage, fresh_storage}
use gobalance.Storage.Cache.Ledger.{Holds}
use gobalance.Sqlite.Atomic.{last_of}
use gobalance.Storage.Cache.Commits.{commit-Holds}
use gobalance.BlockQueue.{new_block_queue}
use gobalance.Utils.Shuffled.{count}
use gobalance.Sqlite.Interface.{sqlite_api, CheckedStorage}
use gobalance.Primitives.{Hash}
use gobalance.Crawler.{new_crawler, add_subscriber}
use gobalance.Deque.{Deque}
use gobalance.Sql.{Engine}

module _ (e : Engine) (d : Deque) where
  -- Either there is no cache, and no block manager runs, or one does that has the outputs, at the
  -- height.
  abbrev pub Resumes :
      BlockSettings
      → CheckedStorage
      → Int64
      → Map TxOutId TxOutData
      → Option (BlockManager d (sqlite_api e))
      → Type 0
  Resumes blocks sto height m manager =
      ((x : Error) × (new_storage_cache (sqlite_api e) sto (not blocks.sync) ≡ err x)
        × (manager ≡ none))
      ⊎ ((b : BlockManager d (sqlite_api e)) × (manager ≡ some b)
          × (b.height ≡ height)
          × (b.confirmations ≡ blocks.confirmations)
          × (b.pending_blocks ≡ new_block_queue d)
          × Holds (sqlite_api e) b.storage_cache m)

  start_manager-Resumes :
      (blocks : BlockSettings) (c : CheckedStorage) (height : Int64) (hash : Hash)
      (m : Map TxOutId TxOutData)
      → blocks.sync ≡ false
      → last_of c.sqlite.db ≡ (height, hash)
      → Holds (sqlite_api e) (reopened_cache e c (height, hash)) m
      → let sto = (reopened_cache e c (height, hash)).sto in
        Resumes blocks sto height m (start_manager e d blocks sto)
  unfolding start_manager start new_block_manager
  start_manager-Resumes blocks c height hash m mode last holds =
      let cache = reopened_cache e c (height, hash) in
      elim (new_storage_cache-cases e c (height, hash) last) [
        | inr (x, bad) ↦
            let refused : new_storage_cache (sqlite_api e) cache.sto (not blocks.sync) ≡ err x =
              rw mode bad in
            inl (x, refused, rw (refused, start_manager) refl)
        | inl cached ↦
            let made : new_storage_cache (sqlite_api e) cache.sto (not blocks.sync) ≡ ok cache =
              rw mode cached in
            inr (
              start d (sqlite_api e) cache (new_block_manager e d blocks cache),
              rw (made, start_manager) refl,
              refl,
              refl,
              refl,
              holds,
            )
      ]

  -- A start out of sync mode, after a commit and with the tables that it left, either panics,
  -- because the database fails, or resumes where the commit was: the crawler will fetch the block
  -- above the height of the commit, on top of its last block, and has the block manager for its
  -- subscriber; and the block manager holds the outputs and balances that were committed, at
  -- their height, with no pending blocks and the confirmations of its settings, unless the
  -- database fails now, and then it does not run.
  pub launch-Resumes :
      (path : String) (ch : ℕ) (blocks : BlockSettings) (s : StorageCache (sqlite_api e))
      (m : Map TxOutId TxOutData)
      → blocks.sync ≡ false
      → Holds (sqlite_api e) s m
      → (commit (sqlite_api e) s).0 ≡ ok tt
      → let sto = (commit (sqlite_api e) s).1.sto in
        let r = launch e d path ch blocks sto in
        ((x : Error) × (new_sqlite_storage e path sto.sqlite.db ≡ err x) × (r ≡ none))
        ⊎ ((x : Error) × (get_last_block e (fresh_storage sto.sqlite.db) ≡ err x) × (r ≡ none))
        ⊎ ((l : Launched e d) × (r ≡ some l)
            × (l.crawler.height ≡ add64 s.height 1)
            × (l.crawler.block_queue ≡ d.push_back s.last_block_hash d.new)
            × (lookup ch l.crawler.subscribers ≡ some true)
            × Resumes blocks
                (reopened_cache e sto (s.height, s.last_block_hash)).sto
                s.height
                m
                l.manager)
  unfolding launch new_crawler add_subscriber
  launch-Resumes path ch blocks s m mode h did = elim (commit-Holds (sqlite_api e) s m h) [
    | inr (x, bad, same) ↦ absurd (err_not_ok (ap (λ p. p.0) (sym same) ∙ did))
    | inl (fine, holds, empty, count, last) ↦
        let c = (commit (sqlite_api e) s).1 in
        let (i, del, b) = commit-empties e s did in
        elim (new_sqlite_storage-cases e path c.sto.sqlite.db) [
          | inr (x, bad) ↦ inl (x, bad, rw (bad, launch) refl)
          | inl begun ↦ elim (get_last_block-cases e (fresh_storage c.sto.sqlite.db)) [
            | inr (x, bad) ↦ inr (inl (x, bad, rw (begun, bad, launch) refl))
            | inl answered ↦ inr (
                inr (
                  record {
                    crawler =
                        add_subscriber d ch (new_crawler d (add64 s.height 1) s.last_block_hash);
                    manager =
                        start_manager e d blocks
                          (reopened_cache e c.sto (s.height, s.last_block_hash)).sto;
                  },
                  rw (begun, answered, last, launch) refl,
                  refl,
                  refl,
                  rw (lookup-insert ch ch true []) (ground arith),
                  start_manager-Resumes blocks c.sto s.height s.last_block_hash m mode last
                      (reopened_cache-Holds e c m (s.height, s.last_block_hash) holds i del b),
                ))
          ]
        ]
  ]
