-- ===== src/Examples/Startup.antt =====
-- main.go: a start from the defaults with another port of the API.
use gobalance.Common.{
  Map, is_some, lookup, delete, insert, add64, string_key, nat_key, String, ◌≡◌, refl, ◌⊎◌, true,
  false, Option, none, some, [],
}
use gobalance.Config.Options.{
  config, first_unsupported, parse_options, is_supported, read_config, ConfigOutcome, parse_config,
  conf_option, options, init_options,
}
use gobalance.Config.{
  one_of, uint16_validator, string_validator, bool_validator, chain_validator, each_valid,
  kind_validator, kind_of, integer_min_max_validator, integer_max_validator,
  string_choice_validator, at_most, slice_elem_validator, Value, string_value,
  integer_min_validator, integer_validator, at_least,
}
use gobalance.Startup.Typed.{settings-read, known_chain}
use gobalance.Examples.Config.{map_viper}
use gobalance.Startup.{BlockSettings, settings}
use gobalance.Sqlite.{new_sqlite_storage, get_last_block, fresh_storage}
use gobalance.Deque.{list_deque}
use gobalance.Startup.Launch.Resumed.{Resumes, launch-Resumes}
use gobalance.Examples.Sqlite.{sqlite_warm, sqlite_warm-Holds, engine, sqlite_commits}
use gobalance.Storage.{Error, err}
use gobalance.Storage.Cache.Ledger.{with_txs}
use gobalance.Sqlite.Restart.{reopened_cache}
use gobalance.Sqlite.Interface.{CheckedStorage, sqlite_api}
use gobalance.Startup.Launch.{Launched, launch}
use gobalance.Examples.Data.{block_one}
use gobalance.Storage.Cache.{commit}

conf_of : Option ConfigOutcome → Map String Value
conf_of (some (config conf)) = conf
conf_of _ = []

conf_read : Map String Value
unfolding conf_of
conf_read = conf_of (read_config map_viper "" "")

read_default : read_config map_viper "" "" ≡ some (config conf_read)
unfolding conf_of conf_read read_config parse_config parse_options first_unsupported is_supported
    init_options options conf_option string_validator uint16_validator bool_validator
    integer_validator integer_min_max_validator integer_min_validator integer_max_validator
    slice_elem_validator string_choice_validator chain_validator kind_validator kind_of at_least
    at_most one_of each_valid insert delete lookup
read_default = refl

settings-read_example :
    (chain : String) × (lookup "bitcoind.chain" conf_read ≡ some (string_value chain))
    × (is_some (settings 3 60 conf_read) ≡ known_chain chain)
settings-read_example = settings-read map_viper 3 60 "" "" conf_read read_default

abbrev block_settings_read : BlockSettings
block_settings_read = record {
  sync = false;
  confirmations = 20;
  commit_size = 200000;
  commit_min_blocks = 3;
  commit_delay = 60000000000;
}

abbrev tables_left : CheckedStorage
tables_left = (commit (sqlite_api engine) sqlite_warm).1.sto

launch-Resumes_example :
    let r = launch engine list_deque "utxo.db" 1 block_settings_read tables_left in
    ((x : Error) × (new_sqlite_storage engine "utxo.db" tables_left.sqlite.db ≡ err x) × (r ≡ none))
    ⊎ ((x : Error) × (get_last_block engine (fresh_storage tables_left.sqlite.db) ≡ err x)
        × (r ≡ none))
    ⊎ ((l : Launched engine list_deque) × (r ≡ some l)
        × (l.crawler.height ≡ add64 sqlite_warm.height 1)
        × (l.crawler.block_queue ≡ list_deque.push_back sqlite_warm.last_block_hash list_deque.new)
        × (lookup 1 l.crawler.subscribers ≡ some true)
        × Resumes engine list_deque block_settings_read
            (reopened_cache engine tables_left
              (sqlite_warm.height, sqlite_warm.last_block_hash)).sto
            sqlite_warm.height
            (with_txs block_one.transactions [])
            l.manager)
launch-Resumes_example =
    launch-Resumes engine list_deque "utxo.db" 1 block_settings_read sqlite_warm
      (with_txs block_one.transactions []) refl sqlite_warm-Holds sqlite_commits
