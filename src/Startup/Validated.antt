-- ===== src/Startup/Validated.antt =====
-- main.go: the kinds of the values that config/validators.go accepted.
use gobalance.Common.{
  Bool-cases, ◌>>=◌, All, Map, lookup, Int64, string_key, nat_key, String, ◌≡◌, refl, ap, ◌∙◌, inl,
  inr, Bool, true, false, Option, none, some, List, [], ◌∷◌, arith,
}
use gobalance.Config.{
  ValidationError, uint16_validator, integer_min_max_validator, chosen, slice_value,
  string_validator, string_choice_validator, each_valid, lt64, no_values, at_least,
  integer_validator, value_and, one_of, int_value, Value, integer_min_validator, string_value,
  chain_validator, kind_of, bool_value, bool_validator, Values, slice_elem_validator,
  kind_validator,
}
use gobalance.Startup.{peer_seeds, as_string}
use gobalance.Config.Outcomes.{Accepts}
use gobalance.Config.Options.{conf_option, options, Viper, ConfOption}
use gobalance.Config.Accepted.{integer_min_max_validator-accepts}

string_validator-accepts :
    (v : Value) → string_validator v ≡ some none → (s : String) × (v ≡ string_value s)
unfolding string_validator kind_validator kind_of
string_validator-accepts (string_value s) h = (s, refl)
string_validator-accepts (int_value n) h = absurd (ground (arith, h))
string_validator-accepts (bool_value b) h = absurd (ground (arith, h))
string_validator-accepts (slice_value vs) h = absurd (ground (arith, h))

bool_validator-accepts :
    (v : Value) → bool_validator v ≡ some none → (b : Bool) × (v ≡ bool_value b)
unfolding bool_validator kind_validator kind_of
bool_validator-accepts (bool_value b) h = (b, refl)
bool_validator-accepts (string_value s) h = absurd (ground (arith, h))
bool_validator-accepts (int_value n) h = absurd (ground (arith, h))
bool_validator-accepts (slice_value vs) h = absurd (ground (arith, h))

integer_min_validator-accepts :
    (min : Int64) (v : Value)
    → integer_min_validator min v ≡ some none
    → (n : Int64) × (v ≡ int_value n) × (lt64 n min ≡ false)
unfolding integer_min_validator integer_validator chain_validator kind_validator kind_of at_least
integer_min_validator-accepts min (int_value n) h = elim (Bool-cases (lt64 n min)) [
  | inl small ↦ absurd (ground (arith, rw small at h))
  | inr enough ↦ (n, refl, enough)
]
integer_min_validator-accepts min (string_value s) h = absurd (ground (arith, h))
integer_min_validator-accepts min (bool_value b) h = absurd (ground (arith, h))
integer_min_validator-accepts min (slice_value vs) h = absurd (ground (arith, h))

string_choice_validator-accepts :
    (choices : List String) (v : Value)
    → string_choice_validator choices v ≡ some none
    → (s : String) × (v ≡ string_value s) × (chosen s choices ≡ true)
unfolding string_choice_validator string_validator chain_validator kind_validator kind_of one_of
string_choice_validator-accepts choices (string_value s) h = elim (Bool-cases (chosen s choices)) [
  | inl there ↦ (s, refl, there)
  | inr strange ↦ absurd (ground (arith, rw strange at h))
]
string_choice_validator-accepts choices (int_value n) h = absurd (ground (arith, h))
string_choice_validator-accepts choices (bool_value b) h = absurd (ground (arith, h))
string_choice_validator-accepts choices (slice_value vs) h = absurd (ground (arith, h))

each_string :
    (vs : Values)
    → each_valid string_validator vs ≡ some none
    → (seeds : List String) × (peer_seeds vs ≡ some seeds)
unfolding each_valid peer_seeds string_validator kind_validator kind_of as_string
each_string no_values h = ([], refl)
each_string (value_and (string_value s) vs) h =
    let (seeds, fine) = each_string vs h in (s ∷ seeds, rw fine refl)
each_string (value_and (int_value n) vs) h = absurd (ground (arith, h))
each_string (value_and (bool_value b) vs) h = absurd (ground (arith, h))
each_string (value_and (slice_value ws) vs) h = absurd (ground (arith, h))

passes_alone :
    (x : Option (Option ValidationError))
    → (x >>= λ e. elim e [ none ↦ some none | some problem ↦ some (some problem) ]) ≡ some none
    → x ≡ some none
passes_alone none h = h
passes_alone (some none) h = refl
passes_alone (some (some problem)) h = absurd (ground (arith, h))

strings_accepted :
    (v : Value)
    → slice_elem_validator string_validator v ≡ some none
    → (vs : Values) × (v ≡ slice_value vs) × ((seeds : List String) × (peer_seeds vs ≡ some seeds))
unfolding slice_elem_validator chain_validator kind_validator kind_of
strings_accepted (slice_value vs) h = (vs, refl, each_string vs (passes_alone _ h))
strings_accepted (string_value s) h = absurd (ground (arith, h))
strings_accepted (int_value n) h = absurd (ground (arith, h))
strings_accepted (bool_value b) h = absurd (ground (arith, h))

-- The configuration has a value of the right kind for each option.
pub record IsTyped (conf : Map String Value) : Type 0 where
  pub host : (s : String) × (lookup "bitcoind.host" conf ≡ some (string_value s))
  pub user : (s : String) × (lookup "bitcoind.user" conf ≡ some (string_value s))
  pub pass : (s : String) × (lookup "bitcoind.pass" conf ≡ some (string_value s))
  pub chain : (s : String) × (lookup "bitcoind.chain" conf ≡ some (string_value s))
  pub url_prefix : (s : String) × (lookup "api.url_prefix" conf ≡ some (string_value s))
  pub api_port : (n : Int64) × (lookup "api.port" conf ≡ some (int_value n))
  pub api_bind : (s : String) × (lookup "api.bind" conf ≡ some (string_value s))
  pub peers_port : (n : Int64) × (lookup "peers.port" conf ≡ some (int_value n))
  pub allow : (b : Bool) × (lookup "peers.allow_local_ips" conf ≡ some (bool_value b))
  pub marks : (n : Int64) × (lookup "peers.unreachable_marks" conf ≡ some (int_value n))
  pub period : (n : Int64) × (lookup "peers.unreachable_period" conf ≡ some (int_value n))
  pub seeds :
      (vs : Values) × (lookup "peers.seeds" conf ≡ some (slice_value vs))
      × ((seeds : List String) × (peer_seeds vs ≡ some seeds))
  pub workdir : (s : String) × (lookup "workdir" conf ≡ some (string_value s))
  pub recent : (n : Int64) × (lookup "recent_blocks" conf ≡ some (int_value n))
  pub utxos : (n : Int64) × (lookup "utxo_cache_size" conf ≡ some (int_value n))
  pub balances : (n : Int64) × (lookup "balance_cache_size" conf ≡ some (int_value n))
  pub mode : (s : String) × (lookup "mode" conf ≡ some (string_value s))
  pub sync : (b : Bool) × (lookup "sync" conf ≡ some (bool_value b))

module _ (vip : Viper) (v : vip.V) (conf : Map String Value) where
  abbrev Fits : ConfOption → Type 0
  Fits op = Accepts vip v (λ k. lookup k conf) op

  a_string :
      (name : String) (d : Value)
      → Fits (conf_option name string_validator d)
      → (s : String) × (lookup name conf ≡ some (string_value s))
  unfolding conf_option
  a_string name d (value, there, fine, same) =
      let (s, is_so) = string_validator-accepts value fine in (s, same ∙ ap some is_so)

  a_bool :
      (name : String) (d : Value)
      → Fits (conf_option name bool_validator d)
      → (b : Bool) × (lookup name conf ≡ some (bool_value b))
  unfolding conf_option
  a_bool name d (value, there, fine, same) =
      let (b, is_so) = bool_validator-accepts value fine in (b, same ∙ ap some is_so)

  between :
      (name : String) (min max : Int64) (d : Value)
      → Fits (conf_option name (integer_min_max_validator min max) d)
      → (n : Int64) × (lookup name conf ≡ some (int_value n))
  unfolding conf_option
  between name min max d (value, there, fine, same) =
      let (n, is_so, low, high) = (integer_min_max_validator-accepts min max value).1.0 fine in
      (n, same ∙ ap some is_so)

  a_port :
      (name : String) (d : Value)
      → Fits (conf_option name uint16_validator d)
      → (n : Int64) × (lookup name conf ≡ some (int_value n))
  unfolding uint16_validator
  a_port name d fit = between name 0 65535 d fit

  from_min :
      (name : String) (min : Int64) (d : Value)
      → Fits (conf_option name (integer_min_validator min) d)
      → (n : Int64) × (lookup name conf ≡ some (int_value n))
  unfolding conf_option
  from_min name min d (value, there, fine, same) =
      let (n, is_so, enough) = integer_min_validator-accepts min value fine in
      (n, same ∙ ap some is_so)

  a_choice :
      (name : String) (choices : List String) (d : Value)
      → Fits (conf_option name (string_choice_validator choices) d)
      → (s : String) × (lookup name conf ≡ some (string_value s))
  unfolding conf_option
  a_choice name choices d (value, there, fine, same) =
      let (s, is_so, there) = string_choice_validator-accepts choices value fine in
      (s, same ∙ ap some is_so)

  some_strings :
      (name : String) (d : Value)
      → Fits (conf_option name (slice_elem_validator string_validator) d)
      → (vs : Values) × (lookup name conf ≡ some (slice_value vs))
        × ((seeds : List String) × (peer_seeds vs ≡ some seeds))
  unfolding conf_option
  some_strings name d (value, there, fine, same) =
      let (vs, is_so, all_strings) = strings_accepted value fine in
      (vs, same ∙ ap some is_so, all_strings)

  pub options-IsTyped : All Fits options → IsTyped conf
  unfolding options
  options-IsTyped fits = record {
    host = a_string _ _ fits.0;
    user = a_string _ _ fits.1.0;
    pass = a_string _ _ fits.1.1.0;
    chain = a_string _ _ fits.1.1.1.0;
    url_prefix = a_string _ _ fits.1.1.1.1.0;
    api_port = a_port _ _ fits.1.1.1.1.1.0;
    api_bind = a_string _ _ fits.1.1.1.1.1.1.0;
    peers_port = a_port _ _ fits.1.1.1.1.1.1.1.0;
    allow = a_bool _ _ fits.1.1.1.1.1.1.1.1.0;
    marks = between _ _ _ _ fits.1.1.1.1.1.1.1.1.1.0;
    period = between _ _ _ _ fits.1.1.1.1.1.1.1.1.1.1.0;
    seeds = some_strings _ _ fits.1.1.1.1.1.1.1.1.1.1.1.0;
    workdir = a_string _ _ fits.1.1.1.1.1.1.1.1.1.1.1.1.0;
    recent = from_min _ _ _ fits.1.1.1.1.1.1.1.1.1.1.1.1.1.0;
    utxos = from_min _ _ _ fits.1.1.1.1.1.1.1.1.1.1.1.1.1.1.0;
    balances = from_min _ _ _ fits.1.1.1.1.1.1.1.1.1.1.1.1.1.1.1.0;
    mode = a_choice _ _ _ fits.1.1.1.1.1.1.1.1.1.1.1.1.1.1.1.1.0;
    sync = a_bool _ _ fits.1.1.1.1.1.1.1.1.1.1.1.1.1.1.1.1.1.0;
  }
