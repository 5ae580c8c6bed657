-- ===== src/Examples/Config.antt =====
-- config: a port, from 0 to 65535, and a configuration file that sets it.
use gobalance.Common.{
  of-some, All, Map, is_some, lookup, insert, lookup-insert, string_key, nat_key, ==_refl, String,
  ◌≡◌, refl, subst, ◌⊎◌, true, none, some, [], map, arith,
}
use gobalance.Config.{
  too_short, at_most_long, string_value, at_least_long, len_bytes, string_max_length_validator,
  string_min_length_validator, string_choice_validator, slice_elem_validator, bool_validator,
  one_of, each_valid, string_validator, Value, integer_max_validator, at_least, int_value,
  integer_min_max_validator, too_small, uint16_validator, kind_validator, integer_validator,
  kind_of, integer_min_validator, chain_validator, at_most,
}
use gobalance.Config.Read.{read_file, Outcomes, read_config-Outcomes}
use gobalance.Config.Options.{options, read_config, conf_option, unreadable, Viper}

-- -1 is refused
negative_port : uint16_validator (int_value 18446744073709551615) ≡ some (some too_small)
unfolding uint16_validator integer_min_max_validator integer_min_validator integer_max_validator
    integer_validator chain_validator kind_validator kind_of at_least at_most
negative_port = refl

-- five letters are not more than five
five_letters : string_max_length_validator 5 (string_value "hello") ≡ some none
unfolding string_max_length_validator chain_validator string_validator kind_validator kind_of
    at_most_long len_bytes
five_letters = refl

four_letters : string_min_length_validator 5 (string_value "help") ≡ some (some too_short)
unfolding string_min_length_validator chain_validator string_validator kind_validator kind_of
    at_least_long len_bytes
four_letters = refl

pub map_set_default :
    (k j : String) (d : Value) (v : Map String Value)
    → is_some (lookup k v) ≡ true
    → is_some (lookup k (insert j d v)) ≡ true
map_set_default k j d v h = ground (arith, lookup-insert j k d v)

-- a file that sets the port of the API
abbrev pub map_viper : Viper
map_viper = record {
  V = Map String Value;
  new_viper = [];
  set_default = λ k d v. insert k d v;
  read_in_config = λ filename path v. some (insert "api.port" (int_value 80) v);
  all_keys = λ v. map (λ p. p.0) v;
  get_value = λ k v. lookup k v;
  get-set_default = λ k j d v clear h. map_set_default k j d v h;
  get-set_default_self = λ k d v. rw (lookup-insert k k d v, ==_refl k) refl;
  get-read_in_config = λ k filename path v w e clear h.
      subst (λ m. is_some (lookup k m) ≡ true) (of-some e)
        (map_set_default k "api.port" (int_value 80) v h);
}

read_config-Outcomes_example :
    ((read_file map_viper "" "" ≡ none) × (read_config map_viper "" "" ≡ some unreadable))
    ⊎ ((v : Map String Value) × (read_file map_viper "" "" ≡ some v)
        × Outcomes map_viper v (read_config map_viper "" ""))
read_config-Outcomes_example = read_config-Outcomes map_viper "" ""

-- the defaults are valid
defaults_valid : All (λ op. op.val op.def ≡ some none) options
unfolding options conf_option string_validator uint16_validator bool_validator integer_validator
    integer_min_max_validator integer_min_validator integer_max_validator slice_elem_validator
    string_choice_validator chain_validator kind_validator kind_of at_least at_most one_of
    each_valid
defaults_valid = (
  refl,
  (
    refl,
    (
      refl,
      (
        refl,
        (
          refl,
          (
            refl,
            (
              refl,
              (
                refl,
                (refl, (refl, (refl, (refl, (refl, (refl, (refl, (refl, (refl, (refl, tt)))))))))),
              ),
            ),
          ),
        ),
      ),
    ),
  ),
)
