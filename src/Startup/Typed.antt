-- ===== src/Startup/Typed.antt =====
-- main.go: its type assertions on the configuration that config/config.go returns.
-- the chains that `main` knows
use gobalance.Common.{
  of-some, ◌>>=◌, All, Map, is_some, lookup, string_key, nat_key, ◌==◌, ℕ, String, ◌≡◌, refl, sym,
  ap, ◌∙◌, subst, inl, inr, Bool, true, false, ◌||◌, Option, none, some, [], arith,
}
use gobalance.Config.{Value, string_value}
use gobalance.Startup.{
  service_settings, as_string, select_chain, as_bool, as_int64, as_slice, rpc_conf, settings,
  assert_conf, peer_settings, block_settings, services_unless,
}
use gobalance.Config.Options.{Viper, ConfigOutcome, read_config, options, config}
use gobalance.Config.Read.{Outcomes, read_config-Outcomes}
use gobalance.Startup.Validated.{options-IsTyped, IsTyped}
use gobalance.Config.Outcomes.{Accepts}

abbrev pub known_chain : String → Bool
known_chain chain = chain == "mainnet" || chain == "testnet3"

rpc_conf-typed : (conf : Map String Value) → IsTyped conf → is_some (rpc_conf conf) ≡ true
unfolding rpc_conf assert_conf as_string
rpc_conf-typed conf t = rw ((t.host).1, (t.user).1, (t.pass).1) refl

block_settings-typed :
    (min_blocks delay : ℕ) (conf : Map String Value)
    → IsTyped conf
    → is_some (block_settings min_blocks delay conf) ≡ true
unfolding block_settings assert_conf as_bool as_int64
block_settings-typed min_blocks delay conf t = rw ((t.sync).1, (t.recent).1, (t.utxos).1) refl

peer_settings-typed : (conf : Map String Value) → IsTyped conf → is_some (peer_settings conf) ≡ true
unfolding peer_settings assert_conf as_string as_int64 as_bool as_slice
peer_settings-typed conf t =
    let (vs, there, (seeds, fine)) = t.seeds in
    rw
      (
        there,
        fine,
        (t.mode).1,
        (t.peers_port).1,
        (t.api_port).1,
        (t.allow).1,
        (t.marks).1,
        (t.period).1,
      )
      refl

service_settings-typed :
    (conf : Map String Value) → IsTyped conf → is_some (service_settings conf) ≡ true
unfolding service_settings assert_conf as_string as_int64
service_settings-typed conf t =
    rw ((t.balances).1, (t.recent).1, (t.api_bind).1, (t.api_port).1, (t.url_prefix).1) refl

services_unless-typed :
    (sync : Bool) (conf : Map String Value)
    → IsTyped conf
    → is_some (services_unless sync conf) ≡ true
unfolding services_unless
services_unless-typed true conf t = refl
services_unless-typed false conf t = ground (arith, service_settings-typed conf t)

select_chain-known :
    (chain : String) → is_some (select_chain (some (string_value chain))) ≡ known_chain chain
unfolding select_chain
select_chain-known chain = ground arith

of-is_some {ℓ} : {A : Type ℓ} (o : Option A) → is_some o ≡ true → (a : A) × (o ≡ some a)
of-is_some none h = absurd (ground (arith, h))
of-is_some (some a) h = (a, refl)

is_some-bind {ℓ κ} :
    {A : Type ℓ} {B : Type κ} (o : Option A) (f : A → B)
    → is_some (o >>= λ a. some (f a)) ≡ is_some o
is_some-bind none f = refl
is_some-bind (some a) f = refl

settings-typed :
    (min_blocks delay : ℕ) (conf : Map String Value) (t : IsTyped conf)
    → is_some (settings min_blocks delay conf) ≡ known_chain (t.chain).0
unfolding settings assert_conf as_string
settings-typed min_blocks delay conf t =
    let (rpc, a) = of-is_some _ (rpc_conf-typed conf t) in
    let (blocks, b) = of-is_some _ (block_settings-typed min_blocks delay conf t) in
    let (peers, c) = of-is_some _ (peer_settings-typed conf t) in
    let (services, d) = of-is_some _ (services_unless-typed blocks.sync conf t) in
    rw (a, (t.chain).1, (t.workdir).1, b, c, d)
      (is_some-bind _ (λ ch. _) ∙ select_chain-known (t.chain).0)

configured : ConfigOutcome → Map String Value
configured (config conf) = conf
configured _ = []

config_same : {c d : Map String Value} → config c ≡ config d → c ≡ d
unfolding configured
config_same e = ap configured e

module _ (vip : Viper) where
  config-IsTyped :
      (v : vip.V) (conf : Map String Value) → Outcomes vip v (some (config conf)) → IsTyped conf
  config-IsTyped v conf (inl (c, same, supported, fits)) = options-IsTyped vip v conf (
      subst (λ m. All (Accepts vip v (λ k. lookup k m)) options) (sym (config_same (of-some same)))
        fits)
  config-IsTyped v conf (inr (inl (k, there, strange, same))) = absurd (ground (arith, same))
  config-IsTyped v conf (inr (inr (supported, (op, value, problem, there, wrong, same)))) =
      absurd (ground (arith, same))

  -- For every configuration that ReadConfig returns, the type assertions of `main` all succeed,
  -- in sync mode and out of it: it panics just where bitcoind.chain, which is a string then, is
  -- neither mainnet nor testnet3.
  pub settings-read :
      (min_blocks delay : ℕ) (filepath filename : String) (conf : Map String Value)
      → read_config vip filepath filename ≡ some (config conf)
      → (chain : String) × (lookup "bitcoind.chain" conf ≡ some (string_value chain))
        × (is_some (settings min_blocks delay conf) ≡ known_chain chain)
  settings-read min_blocks delay filepath filename conf did =
      elim (read_config-Outcomes vip filepath filename) [
        | inl (unread, failing) ↦ absurd (ground (arith, sym did ∙ failing))
        | inr (v, read_so, outcome) ↦
            let t = config-IsTyped v conf (subst (Outcomes vip v) did outcome) in
            ((t.chain).0, (t.chain).1, settings-typed min_blocks delay conf t)
      ]
