-- ===== src/Storage/Cache/Balances.antt =====
-- The balance of an address in a set of unspent outputs (block_manager/storage), and what one more
-- or one less output does to it.
use gobalance.Common.{
  if◌then◌else◌, Bool-cases, Map, lookup, delete, insert, lookup-delete, delete_absent, Unique,
  delete-Unique, Int64, int64_size, add64, ◌==◌, nat_key, string_key, ==_refl, ◌<◌, String, ◌≡◌,
  refl, inl, inr, none, some, [], ◌∷◌, arith,
}
use gobalance.Storage.{tx_out_id_key, TxOutId, TxOutData, balance_in}

module _ (a : String) where
  pub balance_in-lt-size : (m : Map TxOutId TxOutData) → balance_in a m < int64_size
  balance_in-lt-size [] = omega arith
  balance_in-lt-size ((id, out) ∷ m) = ground (arith, balance_in-lt-size m)

  -- What the output adds to the balance of the address.
  abbrev pub worth : TxOutData → Int64
  worth out = if out.addr == a then out.value else 0

  pub balance_in-insert :
      (k : TxOutId) (out : TxOutData) (m : Map TxOutId TxOutData)
      → lookup k m ≡ none
      → balance_in a (insert k out m) ≡ add64 (worth out) (balance_in a m)
  unfolding insert
  balance_in-insert k out m h = rw delete_absent (ground (arith, balance_in-lt-size m))

  pub balance_in-delete :
      (k : TxOutId) (out : TxOutData) (m : Map TxOutId TxOutData)
      → Unique m
      → lookup k m ≡ some out
      → add64 (worth out) (balance_in a (delete k m)) ≡ balance_in a m
  unfolding lookup delete
  balance_in-delete k out [] u h = cc
  balance_in-delete k out ((id, o) ∷ m) u h = elim (Bool-cases (id == k)) [
    | inl here ↦
        rw here
          (ground (arith, delete_absent k m, tx_out_id_key.test_iff id k, balance_in-lt-size m))
    | inr there ↦ rw there (ground (arith, balance_in-delete k out m))
  ]

  -- Two duplicate-free listings of the same outputs have the same balance.
  pub balance_in_same :
      (l m : Map TxOutId TxOutData)
      → Unique l
      → Unique m
      → ((id : TxOutId) → lookup id l ≡ lookup id m)
      → balance_in a l ≡ balance_in a m
  unfolding lookup
  balance_in_same [] [] ul um same = refl
  balance_in_same [] ((id, out) ∷ m) ul um same = absurd (ground (arith, same id, ==_refl id))
  balance_in_same ((id, out) ∷ l) m (absent, ul) um same =
      let found : lookup id m ≡ some out = ground (arith, same id, ==_refl id) in
      let rest : balance_in a l ≡ balance_in a (delete id m) =
        balance_in_same l (delete id m) ul (delete-Unique id m um)
          (λ j. rw lookup-delete (ground (arith, same j, tx_out_id_key.test_iff id j))) in
      ground (arith, rest, balance_in-delete id out m um found, balance_in-lt-size (delete id m))
