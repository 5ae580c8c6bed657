-- ===== src/Config/Outcomes.antt =====
-- config/config.go: the outcomes of reading a configuration.
use text.Mathlib.TextEquality.{eq_iff}
-- The validator panics on no value.
use gobalance.Common.{
  if◌then◌else◌, Bool-cases, Option-cases, All, Map, is_some, lookup, insert, lookup-insert, Int64,
  string_key, nat_key, ◌==◌, String, ◌≡◌, refl, sym, ap, ◌∙◌, ◌⊎◌, inl, inr, Bool, true, false,
  Option, none, some, List, [], ◌∷◌, ◌++◌, arith,
}
use gobalance.Config.{
  integer_min_max_validator, uint16_validator, kind_of, Kind, wrong_kind, integer_validator, chosen,
  integer_min_validator, string_validator, Value, same_kind, at_least, string_kind,
  string_choice_validator, chain_validator, kind_validator, no_values, too_small, slice_value,
  slice_elem_validator, not_a_choice, each_valid, ValidatorFunc, ValidationError, bool_validator,
  bool_kind, lt64, Values, one_of, value_and, string_value, int_value, bool_value,
}
use gobalance.Config.Accepted.{integer_min_max_validator-accepts}
use gobalance.Config.Options.{
  api_options, base_options, bitcoind_options, peers_options, Viper, default_peer_modes,
  is_supported, ConfigOutcome, ConfOption, parse_options, config, invalid_option, options,
  conf_option,
}
use gobalance.Primitives.Deltas.{total}

abbrev pub IsTotal : ValidatorFunc → Type 0
IsTotal f = (v : Value) → (e : Option ValidationError) × (f v ≡ some e)

kind_validator-IsTotal : (kind : Kind) → IsTotal (kind_validator kind)
unfolding kind_validator
kind_validator-IsTotal kind v = elim (Bool-cases (same_kind (kind_of v) kind)) [
  | inl same ↦ (none, rw same refl)
  | inr apart ↦ (some wrong_kind, rw apart refl)
]

string_validator-IsTotal : IsTotal string_validator
unfolding string_validator
string_validator-IsTotal v = kind_validator-IsTotal string_kind v

bool_validator-IsTotal : IsTotal bool_validator
unfolding bool_validator
bool_validator-IsTotal v = kind_validator-IsTotal bool_kind v

integer_min_max_validator-IsTotal : (min max : Int64) → IsTotal (integer_min_max_validator min max)
integer_min_max_validator-IsTotal min max v = (integer_min_max_validator-accepts min max v).0

uint16_validator-IsTotal : IsTotal uint16_validator
unfolding uint16_validator
uint16_validator-IsTotal v = integer_min_max_validator-IsTotal 0 65535 v

integer_min_validator-IsTotal : (min : Int64) → IsTotal (integer_min_validator min)
unfolding integer_min_validator integer_validator chain_validator kind_validator kind_of at_least
integer_min_validator-IsTotal min (int_value n) = elim (Bool-cases (lt64 n min)) [
  | inl small ↦ (some too_small, rw small refl)
  | inr enough ↦ (none, rw enough refl)
]
integer_min_validator-IsTotal min (string_value s) = (some wrong_kind, refl)
integer_min_validator-IsTotal min (bool_value b) = (some wrong_kind, refl)
integer_min_validator-IsTotal min (slice_value vs) = (some wrong_kind, refl)

string_choice_validator-IsTotal :
    (choices : List String) → IsTotal (string_choice_validator choices)
unfolding string_choice_validator string_validator chain_validator kind_validator kind_of one_of
string_choice_validator-IsTotal choices (string_value s) = elim (Bool-cases (chosen s choices)) [
  | inl there ↦ (none, rw there refl)
  | inr absent ↦ (some not_a_choice, rw absent refl)
]
string_choice_validator-IsTotal choices (int_value n) = (some wrong_kind, refl)
string_choice_validator-IsTotal choices (bool_value b) = (some wrong_kind, refl)
string_choice_validator-IsTotal choices (slice_value vs) = (some wrong_kind, refl)

each_valid-total :
    (f : ValidatorFunc) (vs : Values)
    → IsTotal f
    → (e : Option ValidationError) × (each_valid f vs ≡ some e)
unfolding each_valid
each_valid-total f no_values total = (none, refl)
each_valid-total f (value_and v vs) total =
    let (e, same) = total v in
    elim (Option-cases e) [
      | inl passed ↦ rw (same, each_valid, passed) (each_valid-total f vs total)
      | inr (problem, found) ↦ (some problem, rw (same, each_valid, found) refl)
    ]

slice_elem_validator-IsTotal : (f : ValidatorFunc) → IsTotal f → IsTotal (slice_elem_validator f)
unfolding slice_elem_validator chain_validator kind_validator kind_of
slice_elem_validator-IsTotal f total (slice_value vs) =
    let (e, same) = each_valid-total f vs total in
    elim (Option-cases e) [
      | inl passed ↦ (none, rw (same, passed) refl)
      | inr (problem, found) ↦ (some problem, rw (same, found) refl)
    ]
slice_elem_validator-IsTotal f total (int_value n) = (some wrong_kind, refl)
slice_elem_validator-IsTotal f total (bool_value b) = (some wrong_kind, refl)
slice_elem_validator-IsTotal f total (string_value s) = (some wrong_kind, refl)

abbrev pub AllTotal : List ConfOption → Type 0
AllTotal = All (λ op. IsTotal op.val)

AllTotal-append : (xs ys : List ConfOption) → AllTotal xs → AllTotal ys → AllTotal (xs ++ ys)
AllTotal-append [] ys h k = k
AllTotal-append (x ∷ xs) ys h k = (h.0, AllTotal-append xs ys h.1 k)

bitcoind-AllTotal : AllTotal bitcoind_options
unfolding conf_option
bitcoind-AllTotal = let text = string_validator-IsTotal in (text, (text, (text, (text, tt))))

api-AllTotal : AllTotal api_options
unfolding conf_option
api-AllTotal =
    (string_validator-IsTotal, (uint16_validator-IsTotal, (string_validator-IsTotal, tt)))

peers-AllTotal : AllTotal peers_options
unfolding conf_option
peers-AllTotal =
    let min_max = integer_min_max_validator-IsTotal 1 in
    let seeds = slice_elem_validator-IsTotal string_validator string_validator-IsTotal in
    (
      uint16_validator-IsTotal,
      (bool_validator-IsTotal, (min_max 100000, (min_max 999999, (seeds, tt)))),
    )

base-AllTotal : AllTotal base_options
unfolding conf_option
base-AllTotal =
    let from_one = integer_min_validator-IsTotal 1 in
    let choice = string_choice_validator-IsTotal default_peer_modes in
    (
      string_validator-IsTotal,
      (from_one, (from_one, (from_one, (choice, (bool_validator-IsTotal, tt))))),
    )

pub options-AllTotal : AllTotal options
unfolding options
options-AllTotal =
    AllTotal-append bitcoind_options (api_options ++ (peers_options ++ base_options))
      bitcoind-AllTotal
      (AllTotal-append api_options (peers_options ++ base_options) api-AllTotal
        (AllTotal-append peers_options base_options peers-AllTotal base-AllTotal))

if_same : {A : Type 0} (b : Bool) (a : A) → (if b then a else a) ≡ a
if_same true a = refl
if_same false a = refl

module _ (vip : Viper) where
  -- viper has a value for the option
  abbrev pub IsGiven : vip.V → ConfOption → Type 0
  IsGiven v op = is_some (vip.get_value op.name v) ≡ true

  -- The value of the option is valid, and is the one in the configuration.
  abbrev pub Accepts : vip.V → (String → Option Value) → ConfOption → Type 0
  Accepts v conf op =
      (value : Value) × (vip.get_value op.name v ≡ some value)
      × (op.val value ≡ some none)
      × (conf op.name ≡ some value)

  -- An option of the list whose value is not valid.
  abbrev pub Refuses : vip.V → Option ConfigOutcome → Type 0
  Refuses v r =
      (op : ConfOption) × (value : Value) × (problem : ValidationError) × (vip.get_value op.name v
        ≡ some value)
      × (op.val value ≡ some (some problem))
      × (r ≡ some (invalid_option op.name problem))

  abbrev pub read_over : List ConfOption → vip.V → Map String Value → String → Option Value
  read_over ops v conf k = if is_supported k ops then vip.get_value k v else lookup k conf

  one_step :
      (op : ConfOption) (ops : List ConfOption) (v : vip.V) (conf : Map String Value)
      (value : Value)
      → vip.get_value op.name v ≡ some value
      → op.val value ≡ some none
      → parse_options vip (op ∷ ops) v conf ≡ parse_options vip ops v (insert op.name value conf)
  unfolding parse_options
  one_step op ops v conf value there passed = rw (there, parse_options, passed) refl

  read_step :
      (op : ConfOption) (ops : List ConfOption) (v : vip.V) (conf : Map String Value)
      (value : Value) (k : String)
      → vip.get_value op.name v ≡ some value
      → read_over ops v (insert op.name value conf) k ≡ read_over (op ∷ ops) v conf k
  unfolding is_supported
  read_step op ops v conf value k there =
      rw (lookup-insert op.name k value conf) (elim (Bool-cases (op.name == k)) [
        | inr apart ↦ rw apart refl
        | inl same ↦
            let here = ap (λ j. vip.get_value j v) (sym ((eq_iff op.name k).0 same)) ∙ there in
            rw (same, here) (if_same (is_supported k ops) (some value))
      ])

  pub parse_options-cases :
      (ops : List ConfOption) (v : vip.V) (conf : Map String Value)
      → All (λ op. IsTotal op.val) ops
      → All (IsGiven v) ops
      → ((conf' : Map String Value) × (parse_options vip ops v conf ≡ some (config conf'))
          × All
              (λ op.
                (value : Value) × (vip.get_value op.name v ≡ some value)
                × (op.val value ≡ some none))
              ops
          × ((k : String) → lookup k conf' ≡ read_over ops v conf k))
        ⊎ Refuses v (parse_options vip ops v conf)
  unfolding parse_options is_supported
  parse_options-cases [] v conf total given = inl (conf, refl, tt, λ k. refl)
  parse_options-cases (op ∷ ops) v conf total given =
      elim (Option-cases (vip.get_value op.name v)) [
        | inl absent ↦ absurd (missing (vip.get_value op.name v) absent given.0)
        | inr (value, there) ↦
            let (e, checked) = total.0 value in
            elim (Option-cases e) [
              | inr (problem, found) ↦ inr (
                op,
                value,
                problem,
                there,
                checked ∙ ap some found,
                rw (there, parse_options, checked, found) refl,
              )
              | inl passed ↦
                  let next = insert op.name value conf in
                  let step = one_step op ops v conf value there (checked ∙ ap some passed) in
                  elim (parse_options-cases ops v next total.1 given.1) [
                    | inr (bad_op, w, problem, has_one, wrong, did) ↦
                        inr (bad_op, w, problem, has_one, wrong, step ∙ did)
                    | inl (conf', did, valid, same) ↦ inl (
                      conf',
                      step ∙ did,
                      ((value, there, checked ∙ ap some passed), valid),
                      λ k. same k ∙ read_step op ops v conf value k there,
                    )
                  ]
            ]
      ]
    where
      missing : (r : Option Value) → r ≡ none → is_some r ≡ true → ⊥
      missing r h k = ground arith
