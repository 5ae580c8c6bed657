-- ===== src/Startup.antt =====
-- main.go: what the program makes of its configuration. `none` is a panic: a type assertion that
-- fails, or a chain that is not supported. Durations are in nanoseconds, and the random
-- numbers arguments.
pub mod Validated
pub mod Typed
pub mod Launch
use gobalance.Common.{
  if◌then◌else◌, ◌>>=◌, Map, lookup, Int64, int64_size, string_key, nat_key, ◌==◌, ℕ, ◌+◌, String,
  Bool, Option, none, some, List, [], ◌∷◌,
}
use Prim.Native.Nat.{◌%◌, ◌*◌}
use gobalance.Config.{
  int_value, no_values, value_and, Values, Value, string_value, slice_value, bool_value,
}

-- `value.(string)` and the like, where no value is nil
unfoldable pub as_string : Value → Option String
as_string (string_value s) = some s
as_string _ = none

unfoldable pub as_int64 : Value → Option Int64
as_int64 (int_value n) = some n
as_int64 _ = none

unfoldable pub as_bool : Value → Option Bool
as_bool (bool_value b) = some b
as_bool _ = none

unfoldable pub as_slice : Value → Option Values
as_slice (slice_value vs) = some vs
as_slice _ = none

-- `conf[name].(T)`
unfoldable pub assert_conf {ℓ} :
    {A : Type ℓ} → (Value → Option A) → String → Map String Value → Option A
assert_conf kind name conf = lookup name conf >>= kind

pub record ConnConfig : Type 0 where
  pub host : String
  pub user : String
  pub pass : String

unfoldable pub rpc_conf : Map String Value → Option ConnConfig
unfolding assert_conf as_string
rpc_conf conf = do
  host ← assert_conf as_string "bitcoind.host" conf
  user ← assert_conf as_string "bitcoind.user" conf
  pass ← assert_conf as_string "bitcoind.pass" conf
  some (record { host = host; user = user; pass = pass })

pub data ChainParams : Type 0 where
  main_net_params test_net3_params : ChainParams

-- the `switch` on the value of bitcoind.chain, which matches strings only
unfoldable pub select_chain : Option Value → Option ChainParams
select_chain (some (string_value chain)) =
    if chain == "mainnet"
    then some main_net_params
    else if chain == "testnet3"
    then some test_net3_params
    else none
select_chain _ = none

pub record BlockSettings : Type 0 where
  pub sync : Bool
  pub confirmations : ℕ
  pub commit_size : Int64
  pub commit_min_blocks : Int64
  pub commit_delay : ℕ

-- `Int31n(10)` and `Intn(120)` are arguments
unfoldable pub block_settings : ℕ → ℕ → Map String Value → Option BlockSettings
unfolding assert_conf as_bool as_int64
block_settings blocks delay conf = do
  sync ← assert_conf as_bool "sync" conf
  recent ← assert_conf as_int64 "recent_blocks" conf
  size ← assert_conf as_int64 "utxo_cache_size" conf
  some (record {
    sync = sync;
    confirmations = recent % 65536;
    commit_size = size;
    commit_min_blocks = blocks + 1;
    commit_delay = (delay * 1000000000) % int64_size;
  })

-- the loop over the seeds
unfoldable pub peer_seeds : Values → Option (List String)
unfolding as_string
peer_seeds no_values = some []
peer_seeds (value_and v vs) =
    let rest = peer_seeds vs in as_string v >>= λ seed. rest >>= λ seeds. some (seed ∷ seeds)

pub record PeerSettings : Type 0 where
  pub mode : String
  pub peer_port : ℕ
  pub balance_port : ℕ
  pub seeds : List String
  pub allow_local_ip : Bool
  pub unreachable_marks : ℕ
  pub unreachable_period : Int64

unfoldable pub peer_settings : Map String Value → Option PeerSettings
unfolding assert_conf as_string as_int64 as_bool as_slice peer_seeds
peer_settings conf = do
  values ← assert_conf as_slice "peers.seeds" conf
  seeds ← peer_seeds values
  mode ← assert_conf as_string "mode" conf
  peer_port ← assert_conf as_int64 "peers.port" conf
  api_port ← assert_conf as_int64 "api.port" conf
  allow ← assert_conf as_bool "peers.allow_local_ips" conf
  marks ← assert_conf as_int64 "peers.unreachable_marks" conf
  period ← assert_conf as_int64 "peers.unreachable_period" conf
  some (record {
    mode = mode;
    peer_port = peer_port % 65536;
    balance_port = api_port % 65536;
    seeds = seeds;
    allow_local_ip = allow;
    unreachable_marks = marks % 4294967296;
    unreachable_period = (period * 1000000000) % int64_size;
  })

-- what the caches and the API are started with, out of sync mode alone
pub record ServiceSettings : Type 0 where
  pub balance_cache_size : Int64
  pub recent_blocks : ℕ
  pub api_bind : String
  pub api_port : Int64
  pub url_prefix : String

unfoldable pub service_settings : Map String Value → Option ServiceSettings
unfolding assert_conf as_int64 as_string
service_settings conf = do
  size ← assert_conf as_int64 "balance_cache_size" conf
  recent ← assert_conf as_int64 "recent_blocks" conf
  api_bind ← assert_conf as_string "api.bind" conf
  api_port ← assert_conf as_int64 "api.port" conf
  url_prefix ← assert_conf as_string "api.url_prefix" conf
  some (record {
    balance_cache_size = size;
    recent_blocks = recent % 65536;
    api_bind = api_bind;
    api_port = api_port;
    url_prefix = url_prefix;
  })

pub record Settings : Type 0 where
  pub rpc : ConnConfig
  pub chain : ChainParams
  pub workdir : String
  pub blocks : BlockSettings
  pub peers : PeerSettings
  pub services : Option ServiceSettings

unfoldable pub services_unless : Bool → Map String Value → Option (Option ServiceSettings)
unfolding service_settings
services_unless sync conf =
    if sync then some none else (service_settings conf >>= λ s. some (some s))

unfoldable pub settings : ℕ → ℕ → Map String Value → Option Settings
unfolding rpc_conf select_chain block_settings peer_settings services_unless
settings min_blocks delay conf = do
  rpc ← rpc_conf conf
  chain ← select_chain (lookup "bitcoind.chain" conf)
  workdir ← assert_conf as_string "workdir" conf
  blocks ← block_settings min_blocks delay conf
  peers ← peer_settings conf
  services ← services_unless blocks.sync conf
  some (record {
    rpc = rpc;
    chain = chain;
    workdir = workdir;
    blocks = blocks;
    peers = peers;
    services = services;
  })
