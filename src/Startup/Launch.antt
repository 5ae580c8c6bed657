-- ===== src/Startup/Launch.antt =====
-- main.go: the storage, the crawler and the block manager at a start, in the order of `main`.
-- `none` is a panic. The tables are those that the program left, with a well-formed table of
-- outputs.
pub mod Resumed
use gobalance.BlockManager.{start, BlockManager}
use gobalance.Common.{add64, ℕ, String, false, not, Option, none, some, []}
use gobalance.Sqlite.Interface.{CheckedStorage, sqlite_api}
use gobalance.BlockQueue.{new_block_queue}
use gobalance.Storage.Cache.{StorageCache, new_storage_cache}
use gobalance.Crawler.{add_subscriber, new_crawler, Crawler}
use gobalance.Storage.{err, ok}
use gobalance.Sql.{Engine}
use gobalance.Startup.{BlockSettings}
use gobalance.Sqlite.{new_sqlite_storage, fresh_storage, get_last_block}
use gobalance.Deque.{Deque}

-- `main` drops the error of `Start`: `none` is a block manager that does not run.
pub record Launched (e : Engine) (d : Deque) : Type 0 where
  pub crawler : Crawler d
  pub manager : Option (BlockManager d (sqlite_api e))

module _ (e : Engine) (d : Deque) where
  -- the fields that `main` sets, and the zero values of the others; `Start` sets the cache
  unfoldable pub new_block_manager :
      BlockSettings → StorageCache (sqlite_api e) → BlockManager d (sqlite_api e)
  new_block_manager blocks cache = record {
    sync = blocks.sync;
    commit_size = blocks.commit_size;
    commit_min_blocks = blocks.commit_min_blocks;
    confirmations = blocks.confirmations;
    height = 0;
    last_time = 0;
    storage_cache = cache;
    pending_blocks = new_block_queue d;
    commit_timer_started_flag = false;
    subscribers = [];
  }

  -- `Start` of a block manager with these settings
  unfoldable pub start_manager :
      BlockSettings → CheckedStorage → Option (BlockManager d (sqlite_api e))
  unfolding new_block_manager
  start_manager blocks sto = elim (new_storage_cache (sqlite_api e) sto (not blocks.sync)) [
    | err x ↦ none
    | ok cache ↦ some (start d (sqlite_api e) cache (new_block_manager blocks cache))
  ]

  -- The block manager subscribes to the crawler by the channel `ch`.
  unfoldable pub launch : String → ℕ → BlockSettings → CheckedStorage → Option (Launched e d)
  unfolding start_manager
  launch path ch blocks tables = elim (new_sqlite_storage e path tables.sqlite.db) [
    | err x ↦ none
    | ok sqlite ↦ elim (get_last_block e sqlite) [
      | err x ↦ none
      | ok (height, hash) ↦ some (record {
        crawler = add_subscriber d ch (new_crawler d (add64 height 1) hash);
        manager =
            start_manager blocks
              (record { sqlite = fresh_storage tables.sqlite.db; table = tables.table });
      })
    ]
  ]
