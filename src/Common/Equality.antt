-- ===== src/Common/Equality.antt =====
-- Keys of maps: types with a Boolean equality test that decides equality.
use Prim.Native.Nat.{ℕ}
use Prim.Native.String.{String}
use mathlib.Core.Path.{◌≡◌, refl}
use mathlib.Core.Logic.{◌↔◌}
use mathlib.Core.Bool.{Bool, true}
use text.Mathlib.Text
use text.Mathlib.TextEquality.{eq_iff}
use gobalance.Common.Tests.{eqb, eqb_iff}

pub record Key {ℓ} (K : Type ℓ) : Type ℓ where
  pub test : K → K → Bool
  pub test_iff : (j k : K) → (test j k ≡ true) ↔ (j ≡ k)

-- Addresses.
instance abbrev pub string_key : Key String
string_key = record { test = λ s t. Text.◌==◌ s t; test_iff = λ s t. eq_iff s t }

-- Hashes.
instance abbrev pub nat_key : Key ℕ
nat_key = record { test = λ m n. eqb m n; test_iff = λ m n. eqb_iff m n }

infix 50 ◌==◌
abbrev pub ◌==◌ {ℓ} : {K : Type ℓ} ⦃keys : Key K⦄ → K → K → Bool
◌==◌ ⦃keys⦄ j k = keys.test j k

pub ==_refl {ℓ} : {K : Type ℓ} ⦃keys : Key K⦄ (k : K) → (k == k) ≡ true
==_refl ⦃keys⦄ k = (keys.test_iff k k).1 refl
