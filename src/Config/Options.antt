-- ===== src/Config/Options.antt =====
-- config/options.go, the table of the options, and config/config.go, which reads their values by
-- github.com/spf13/viper, an interface here.
use Prim.Native.Char.{code}
use gobalance.Common.{
  eqb, if◌then◌else◌, ◌>>=◌, Map, is_some, insert, string_key, nat_key, ◌==◌, String, ◌≡◌, Bool,
  true, false, ◌||◌, Option, none, some, List, [], ◌∷◌, ◌++◌,
}
use gobalance.Config.{
  slice_elem_validator, integer_min_validator, string_choice_validator, uint16_validator,
  ValidatorFunc, slice_value, int_value, integer_min_max_validator, string_validator, Value,
  no_values, bool_validator, bool_value, string_value, ValidationError,
}
use gobalance.OrderedMap.{member}

abbrev pub default_peer_modes : List String
default_peer_modes = "full" ∷ "seed" ∷ "loadbalance" ∷ []

-- `Option`
pub record ConfOption : Type 0 where
  pub name : String
  pub val : ValidatorFunc
  pub def : Value

unfoldable pub conf_option : String → ValidatorFunc → Value → ConfOption
conf_option name val def = record { name = name; val = val; def = def }

abbrev pub default_config_path : String
default_config_path = "$HOME/.gobalance/"

abbrev pub default_config_filename : String
default_config_filename = "conf"

abbrev pub bitcoind_options : List ConfOption
bitcoind_options =
    conf_option "bitcoind.host" string_validator (string_value "localhost:8332")
    ∷ conf_option "bitcoind.user" string_validator (string_value "")
    ∷ conf_option "bitcoind.pass" string_validator (string_value "")
    ∷ conf_option "bitcoind.chain" string_validator (string_value "mainnet")
    ∷ []

abbrev pub api_options : List ConfOption
api_options =
    conf_option "api.url_prefix" string_validator (string_value "/")
    ∷ conf_option "api.port" uint16_validator (int_value 8080)
    ∷ conf_option "api.bind" string_validator (string_value "")
    ∷ []

abbrev pub peers_options : List ConfOption
peers_options =
    conf_option "peers.port" uint16_validator (int_value 9090)
    ∷ conf_option "peers.allow_local_ips" bool_validator (bool_value false)
    ∷ conf_option "peers.unreachable_marks" (integer_min_max_validator 1 100000) (int_value 3)
    ∷ conf_option "peers.unreachable_period" (integer_min_max_validator 1 999999) (int_value 5)
    ∷ conf_option "peers.seeds" (slice_elem_validator string_validator) (slice_value no_values)
    ∷ []

abbrev pub base_options : List ConfOption
base_options =
    conf_option "workdir" string_validator (string_value default_config_path)
    ∷ conf_option "recent_blocks" (integer_min_validator 1) (int_value 20)
    ∷ conf_option "utxo_cache_size" (integer_min_validator 1) (int_value 200000)
    ∷ conf_option "balance_cache_size" (integer_min_validator 1) (int_value 100000)
    ∷ conf_option "mode" (string_choice_validator default_peer_modes) (string_value "full")
    ∷ conf_option "sync" bool_validator (bool_value false)
    ∷ []

-- `Options`
unfoldable pub options : List ConfOption
options = bitcoind_options ++ (api_options ++ (peers_options ++ base_options))

-- `ConfigError`, and the error of reading the file
pub data ConfigOutcome : Type 0 where
  config : Map String Value → ConfigOutcome
  unsupported_option : String → ConfigOutcome
  invalid_option : String → ValidationError → ConfigOutcome
  unreadable : ConfigOutcome

-- A key shadows another if this is the key, a dot and more: viper then has no value for it.
unfoldable pub shadows : String → String → Bool
shadows String.[] String.[] = false
shadows String.[] (String.◌∷◌ e k) = eqb (code e) b'.'
shadows (String.◌∷◌ c j) String.[] = false
shadows (String.◌∷◌ c j) (String.◌∷◌ e k) =
    let rest = shadows j k in if eqb (code c) (code e) then rest else false

-- What the program relies on of viper: a default makes a value for its key, and neither a default
-- nor a file takes a value away, unless a key of it shadows the value's key.
pub record Viper : Type 1 where
  pub V : Type 0
  pub new_viper : V
  pub set_default : String → Value → V → V
  -- `SetConfigName`, `AddConfigPath` and `ReadInConfig`; `none` is an error
  pub read_in_config : String → String → V → Option V
  pub all_keys : V → List String
  -- `Get`, which is `none` for nil
  pub get_value : String → V → Option Value
  pub get-set_default :
      (k j : String) (d : Value) (v : V)
      → shadows j k ≡ false
      → is_some (get_value k v) ≡ true
      → is_some (get_value k (set_default j d v)) ≡ true
  pub get-set_default_self :
      (k : String) (d : Value) (v : V) → is_some (get_value k (set_default k d v)) ≡ true
  pub get-read_in_config :
      (k filename path : String) (v w : V)
      → read_in_config filename path v ≡ some w
      → ((j : String) → member j (all_keys w) ≡ true → shadows j k ≡ false)
      → is_some (get_value k v) ≡ true
      → is_some (get_value k w) ≡ true

unfoldable pub is_supported : String → List ConfOption → Bool
is_supported k [] = false
is_supported k (op ∷ ops) = op.name == k || is_supported k ops

unfoldable pub first_unsupported : List String → Option String
unfolding is_supported
first_unsupported [] = none
first_unsupported (k ∷ ks) =
    let rest = first_unsupported ks in if is_supported k options then rest else some k

module _ (vip : Viper) where
  -- `none` is a panic: the kind of nil
  unfoldable pub parse_options : List ConfOption → vip.V → Map String Value → Option ConfigOutcome
  parse_options [] v conf = some (config conf)
  parse_options (op ∷ ops) v conf = vip.get_value op.name v >>= λ value. op.val value >>= λ e.
      elim e [
        | some problem ↦ some (invalid_option op.name problem)
        | none ↦ parse_options ops v (insert op.name value conf)
      ]

  unfoldable pub parse_config : vip.V → Option ConfigOutcome
  unfolding first_unsupported parse_options
  parse_config v = elim (first_unsupported (vip.all_keys v)) [
    | some k ↦ some (unsupported_option k)
    | none ↦ parse_options options v []
  ]

  unfoldable pub init_options : List ConfOption → vip.V → vip.V
  init_options [] v = v
  init_options (op ∷ ops) v = init_options ops (vip.set_default op.name op.def v)

  abbrev pub or_default : String → String → String
  or_default s default = if s == "" then default else s

  unfoldable pub read_config : String → String → Option ConfigOutcome
  unfolding parse_config init_options
  read_config filepath filename =
      elim (vip.read_in_config (or_default filename default_config_filename)
        (or_default filepath default_config_path) (init_options options vip.new_viper)) [
          | none ↦ some unreadable
          | some v ↦ parse_config v
        ]

  unfoldable pub load_config : Option ConfigOutcome
  unfolding read_config
  load_config = read_config "" ""
