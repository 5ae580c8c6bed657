-- ===== src/Config/Read.antt =====
-- config/config.go: what ReadConfig returns, for any file.
use text.Mathlib.TextEquality.{eq_iff}
use gobalance.Common.{
  Bool-cases, Option-cases, All, Map, is_some, lookup, string_key, nat_key, ◌==◌, ==_refl, String,
  ◌≡◌, refl, sym, ◌∙◌, subst, ◌⊎◌, inl, inr, true, false, Option, none, some, List, [], ◌∷◌, arith,
}
use gobalance.Config.Options.{
  unreadable, default_config_filename, ConfigOutcome, config, default_config_path, ConfOption,
  options, is_supported, parse_config, init_options, unsupported_option, read_config,
  first_unsupported, Viper, or_default,
}
use gobalance.Config.Outcomes.{
  Accepts, Refuses, read_over, IsGiven, parse_options-cases, options-AllTotal,
}
use gobalance.OrderedMap.{member}
use gobalance.Config.{Value}
use gobalance.Config.Shadowed.{
  supported-shadows, names_of, AllClear, shadowed_by_none, supported-member, options-AllClear,
}

module _ (vip : Viper) where
  init_keeps :
      (k : String) (ops : List ConfOption) (v : vip.V)
      → shadowed_by_none k ops ≡ true
      → is_some (vip.get_value k v) ≡ true
      → is_some (vip.get_value k (init_options vip ops v)) ≡ true
  unfolding init_options
  init_keeps k [] v clear h = h
  init_keeps k (op ∷ ops) v clear h =
      init_keeps k ops (vip.set_default op.name op.def v) (ground (arith, clear))
        (vip.get-set_default k op.name op.def v (ground (arith, clear)) h)

  clear_tail :
      (x : ConfOption) (all_ops ops : List ConfOption)
      → AllClear (x ∷ all_ops) ops
      → AllClear all_ops ops
  clear_tail x all_ops [] h = tt
  clear_tail x all_ops (op ∷ ops) h =
      let here = h.0 in (ground (arith, here), clear_tail x all_ops ops h.1)

  init-IsGiven :
      (ops : List ConfOption) (v : vip.V)
      → AllClear ops ops
      → All (IsGiven vip (init_options vip ops v)) ops
  unfolding init_options
  init-IsGiven [] v clear = tt
  init-IsGiven (op ∷ ops) v clear =
      let w = vip.set_default op.name op.def v in
      let here = clear.0 in
      (
        init_keeps op.name ops w (ground (arith, here)) (vip.get-set_default_self op.name op.def v),
        init-IsGiven ops w (clear_tail op ops ops clear.1),
      )

  read-IsGiven :
      (filename path : String) (v w : vip.V) (ops : List ConfOption)
      → vip.read_in_config filename path v ≡ some w
      → ((j : String) → member j (vip.all_keys w) ≡ true → is_supported j options ≡ true)
      → AllClear options ops
      → All (IsGiven vip v) ops
      → All (IsGiven vip w) ops
  read-IsGiven filename path v w [] e supported clear h = tt
  read-IsGiven filename path v w (op ∷ ops) e supported clear h = (
    vip.get-read_in_config op.name filename path v w e
        (λ j there. supported-shadows j op.name options (supported j there) clear.0) h.0,
    read-IsGiven filename path v w ops e supported clear.1 h.1,
  )

  all_keys_supported :
      (ks : List String)
      → first_unsupported ks ≡ none
      → (j : String) → member j ks ≡ true
      → is_supported j options ≡ true
  unfolding first_unsupported
  all_keys_supported [] h j there = absurd (ground (arith, there))
  all_keys_supported (k ∷ ks) h j there = elim (Bool-cases (k == j)) [
    | inl same ↦
        subst (λ i. is_supported i options ≡ true) ((eq_iff k j).0 same) (ground (arith, h))
    | inr apart ↦ all_keys_supported ks (ground (arith, h)) j (ground (arith, there, apart))
  ]

  first_unsupported-not :
      (ks : List String) (k : String)
      → first_unsupported ks ≡ some k
      → (member k ks ≡ true) × (is_supported k options ≡ false)
  unfolding first_unsupported
  first_unsupported-not [] k h = ground arith
  first_unsupported-not (j ∷ ks) k h = ground (arith, first_unsupported-not ks k, ==_refl j)

  -- a list whose names are all those of options
  abbrev AllSupported : List ConfOption → List ConfOption → Type 0
  AllSupported all_ops ops = All (λ op. is_supported op.name all_ops ≡ true) ops

  supported_after :
      (x : ConfOption) (all_ops ops : List ConfOption)
      → AllSupported all_ops ops
      → AllSupported (x ∷ all_ops) ops
  unfolding is_supported
  supported_after x all_ops [] h = tt
  supported_after x all_ops (op ∷ ops) h = (ground (arith, h.0), supported_after x all_ops ops h.1)

  all_supported : (ops : List ConfOption) → AllSupported ops ops
  unfolding is_supported
  all_supported [] = tt
  all_supported (op ∷ ops) =
      (rw (==_refl op.name) refl, supported_after op ops ops (all_supported ops))

  accepted_every :
      (ops : List ConfOption) (v : vip.V) (conf : Map String Value)
      → ((k : String) → lookup k conf ≡ read_over vip options v [] k)
      → AllSupported options ops
      → All
          (λ op.
            (value : Value) × (vip.get_value op.name v ≡ some value) × (op.val value ≡ some none))
          ops
      → All (Accepts vip v (λ k. lookup k conf)) ops
  accepted_every [] v conf same names valid = tt
  accepted_every (op ∷ ops) v conf same names valid =
      let (value, there, passed) = valid.0 in
      (
        (value, there, passed, same op.name ∙ rw (names.0, there) refl),
        accepted_every ops v conf same names.1 valid.1,
      )

  -- Every key that viper has is the name of an option.
  abbrev pub KeysSupported : vip.V → Type 0
  KeysSupported v =
      (k : String) → member k (vip.all_keys v) ≡ true → member k (names_of options) ≡ true

  -- What the values that viper has after reading the file lead to.
  abbrev pub Outcomes : vip.V → Option ConfigOutcome → Type 0
  Outcomes v r =
      ((conf : Map String Value) × (r ≡ some (config conf))
        × KeysSupported v
        × All (Accepts vip v (λ k. lookup k conf)) options)
      ⊎ ((k : String) × (member k (vip.all_keys v) ≡ true)
          × (member k (names_of options) ≡ false)
          × (r ≡ some (unsupported_option k)))
      ⊎ (KeysSupported v × Refuses vip v r)

  parse_config-Outcomes :
      (v : vip.V)
      → (((j : String) → member j (vip.all_keys v) ≡ true → is_supported j options ≡ true)
          → All (IsGiven vip v) options)
      → Outcomes v (parse_config vip v)
  unfolding parse_config
  parse_config-Outcomes v given = elim (Option-cases (first_unsupported (vip.all_keys v))) [
    | inr (k, found) ↦
        let (there, strange) = first_unsupported-not (vip.all_keys v) k found in
        inr (
          inl (k, there, sym (supported-member k options) ∙ strange, rw (found, parse_config) refl))
    | inl fine ↦
        let supported = all_keys_supported (vip.all_keys v) fine in
        elim (parse_options-cases vip options v [] options-AllTotal (given supported)) [
          | inl (conf, did, valid, same) ↦ inl (
            conf,
            rw (fine, parse_config) did,
            λ k there. sym (supported-member k options) ∙ supported k there,
            accepted_every options v conf same (all_supported options) valid,
          )
          | inr (op, value, problem, there, wrong, did) ↦ inr (
              inr (
                λ k has. sym (supported-member k options) ∙ supported k has,
                (op, value, problem, there, wrong, rw (fine, parse_config) did),
              ))
        ]
  ]

  abbrev pub read_file : String → String → Option vip.V
  read_file filepath filename =
      vip.read_in_config (or_default vip filename default_config_filename)
        (or_default vip filepath default_config_path) (init_options vip options vip.new_viper)

  -- ReadConfig never panics, whatever the file gives: if the file cannot be read it returns that
  -- error; else, if every key is the name of an option, it returns a configuration that has the value
  -- of every option, each valid, or the error of an option whose value is not valid; and if not, it
  -- returns the error of a key that no option has.
  pub read_config-Outcomes :
      (filepath filename : String)
      → ((read_file filepath filename ≡ none)
          × (read_config vip filepath filename ≡ some unreadable))
        ⊎ ((v : vip.V) × (read_file filepath filename ≡ some v)
            × Outcomes v (read_config vip filepath filename))
  unfolding read_config
  read_config-Outcomes filepath filename = elim (Option-cases (read_file filepath filename)) [
    | inl unread ↦ inl (unread, rw (unread, read_config) refl)
    | inr (v, done_so) ↦
        let given =
          λ (supported : (j : String)
              → member j (vip.all_keys v) ≡ true
              → is_supported j options ≡ true).
            read-IsGiven _ _ _ v options done_so supported options-AllClear
              (init-IsGiven options vip.new_viper options-AllClear) in
        inr (v, done_so, rw (done_so, read_config) (parse_config-Outcomes v given))
  ]
