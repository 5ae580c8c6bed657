-- ===== src/Storage/Cache/Ledger.antt =====
-- block_manager/storage/cache.go against a plain set of unspent outputs, one output or input at a
-- time.
use gobalance.Common.{
  if◌then◌else◌, Bool-cases, Map, get_or, is_some, lookup, delete, insert, lookup-delete,
  lookup-insert, delete_absent, Unique, delete-Unique, insert-Unique, Int64, add64, neg64, ◌==◌,
  nat_key, string_key, String, ◌≡◌, refl, sym, ◌∙◌, inl, inr, true, none, some, List, [], ◌∷◌,
  arith,
}
use text.Mathlib.TextEquality.{eq_iff}
use gobalance.Primitives.{TxOut, Tx}
use gobalance.Storage.{Storage, tx_out_id_key, TxOutId, TxOutData, balance_in}
use gobalance.Storage.Cache.{
  add_tx_out, del_tx_out, add_outputs, id_of, add_output, spend_inputs, update_balance, spend_input,
  data_of, spendable, StorageCache,
}
use gobalance.Storage.Cache.Views.{
  add_tx_out-IsConsistent, seen-del_tx_out, seen-add_tx_out, del_tx_out-IsConsistent, seen,
  IsConsistent, IsNew,
}
use gobalance.BlockQueue.Turns.{lookup-set_balance}
use gobalance.Storage.Cache.Balances.{balance_in-insert, balance_in-delete, balance_in-lt-size}
use gobalance.BlockQueue.{set_balance}

-- The set of unspent outputs after an output, an input, a transaction, a block.
abbrev pub with_output : TxOut → Map TxOutId TxOutData → Map TxOutId TxOutData
with_output o m = if spendable o then insert (id_of o) (data_of o) m else m

abbrev pub with_outputs : List TxOut → Map TxOutId TxOutData → Map TxOutId TxOutData
with_outputs [] m = m
with_outputs (o ∷ os) m = with_outputs os (with_output o m)

abbrev pub without_inputs : List TxOut → Map TxOutId TxOutData → Map TxOutId TxOutData
without_inputs [] m = m
without_inputs (i ∷ is) m = without_inputs is (delete (id_of i) m)

abbrev pub with_txs : List Tx → Map TxOutId TxOutData → Map TxOutId TxOutData
with_txs [] m = m
with_txs (t ∷ ts) m = with_txs ts (without_inputs t.ins (with_outputs t.outs m))

module _ (api : Storage) where
  -- Outputs have new ids, and an input has the address and the value of the output that it
  -- spends, or none if that output cannot be stored.
  abbrev pub ValidOutputs : List TxOut → StorageCache api → Type 0
  ValidOutputs [] s = Unit
  ValidOutputs (o ∷ os) s =
      (spendable o ≡ true → IsNew api s (id_of o)) × ValidOutputs os (add_output api o s)

  abbrev pub ValidInputs : List TxOut → StorageCache api → Type 0
  ValidInputs [] s = Unit
  ValidInputs (i ∷ is) s =
      (seen api s (id_of i) ≡ (if spendable i then some (data_of i) else none))
      × ValidInputs is (spend_input api i s)

  abbrev pub ValidTxs : List Tx → StorageCache api → Type 0
  ValidTxs [] s = Unit
  ValidTxs (t ∷ ts) s =
      ValidOutputs t.outs s
      × ValidInputs t.ins (add_outputs api t.outs s)
      × ValidTxs ts (spend_inputs api t.ins (add_outputs api t.outs s))

  -- The cache and the storage behind it hold the outputs of `m`, and the balances of these.
  pub record Holds (s : StorageCache api) (m : Map TxOutId TxOutData) : Type 0 where
    pub consistent : IsConsistent api s
    pub unique : Unique m
    pub outputs : (id : TxOutId) → seen api s id ≡ lookup id m
    pub indexed : s.balance_index_enabled ≡ true
    pub balances :
        (a : String)
        → add64 (get_or (lookup a s.balance) 0) (balance_in a (api.utxos s.sto)) ≡ balance_in a m

  update_balance_on :
      (k : String) (n : Int64) (s : StorageCache api)
      → s.balance_index_enabled ≡ true
      → update_balance api k n s
        ≡ record s { balance = set_balance k (add64 (get_or (lookup k s.balance) 0) n) s.balance }
  unfolding update_balance
  update_balance_on k n s on = rw on

  get_or-set_balance :
      (k a : String) (n : Int64) (m : Map String Int64)
      → get_or (lookup a (set_balance k n m)) 0 ≡ (if k == a then n else get_or (lookup a m) 0)
  get_or-set_balance k a n m = rw lookup-set_balance (ground arith)

  -- What the updates of the pending outputs leave alone.
  pub record SameRest (s s' : StorageCache api) : Type 0 where
    pub sto : s'.sto ≡ s.sto
    pub balance : s'.balance ≡ s.balance
    pub enabled : s'.balance_index_enabled ≡ s.balance_index_enabled

  add_tx_out-SameRest : (o : TxOut) (s : StorageCache api) → SameRest s (add_tx_out api o s)
  unfolding add_tx_out
  add_tx_out-SameRest o s = elim (Bool-cases (is_some (lookup (id_of o) s.deletions))) [
    | inl e ↦ rw e (record { sto = refl; balance = refl; enabled = refl })
    | inr e ↦ rw e (record { sto = refl; balance = refl; enabled = refl })
  ]

  del_tx_out-SameRest : (k : TxOutId) (s : StorageCache api) → SameRest s (del_tx_out api k s)
  unfolding del_tx_out
  del_tx_out-SameRest k s = elim (Bool-cases (is_some (lookup k s.inserts))) [
    | inl e ↦ rw e (record { sto = refl; balance = refl; enabled = refl })
    | inr e ↦ rw e (record { sto = refl; balance = refl; enabled = refl })
  ]

  -- A change of the pending outputs together with the change of one balance.
  Holds-update_balance :
      (s s' : StorageCache api) (m m' : Map TxOutId TxOutData) (k : String) (n : Int64)
      → Holds s m
      → SameRest s s'
      → IsConsistent api s'
      → Unique m'
      → ((id : TxOutId) → seen api s' id ≡ lookup id m')
      → ((a : String) → balance_in a m' ≡ add64 (balance_in a m) (if k == a then n else 0))
      → Holds (update_balance api k n s') m'
  Holds-update_balance s s' m m' k n h rest c u out bal =
      rw (update_balance_on k n s' (rest.enabled ∙ h.indexed)) (record {
        consistent = record { disjoint = c.disjoint; unstored = c.unstored };
        unique = u;
        outputs = out;
        indexed = rest.enabled ∙ h.indexed;
        balances = λ a.
            rw (get_or-set_balance, rest.sto, rest.balance)
              (ground (arith, h.balances a, bal a, eq_iff k a));
      })

  pub add_output-Holds :
      (o : TxOut) {s : StorageCache api} (m : Map TxOutId TxOutData)
      → (spendable o ≡ true → IsNew api s (id_of o))
      → Holds s m
      → Holds (add_output api o s) (with_output o m)
  unfolding add_output
  add_output-Holds o {s} m new h = elim (Bool-cases (spendable o)) [
    | inl stored ↦
        let fresh = new stored in
        rw stored (
          Holds-update_balance s (add_tx_out api o s) m _ o.addr o.value h (add_tx_out-SameRest o s)
            (add_tx_out-IsConsistent api s h.consistent o fresh)
            (insert-Unique (id_of o) (data_of o) m h.unique)
            (λ id. seen-add_tx_out api s h.consistent o id fresh ∙ rw (h.outputs, lookup-insert))
            (λ a.
              balance_in-insert a (id_of o) (data_of o) m (sym (h.outputs (id_of o)) ∙ fresh.1)
              ∙ omega arith))
    | inr unspendable ↦ rw unspendable h
  ]

  del_absent_Holds :
      (s : StorageCache api) (k : TxOutId) (m : Map TxOutId TxOutData)
      → Holds s m
      → seen api s k ≡ none
      → Holds (del_tx_out api k s) (delete k m)
  del_absent_Holds s k m h absent =
      let rest = del_tx_out-SameRest k s in
      record {
        consistent = del_tx_out-IsConsistent api s h.consistent k;
        unique = delete-Unique k m h.unique;
        outputs = λ id. seen-del_tx_out api s h.consistent k id ∙ rw (h.outputs, lookup-delete);
        indexed = rest.enabled ∙ h.indexed;
        balances = λ a.
            rw (rest.sto, rest.balance, delete_absent k m (sym (h.outputs k) ∙ absent))
              (h.balances a);
      }

  pub spend_input-Holds :
      (i : TxOut) {s : StorageCache api} (m : Map TxOutId TxOutData)
      → seen api s (id_of i) ≡ (if spendable i then some (data_of i) else none)
      → Holds s m
      → Holds (spend_input api i s) (delete (id_of i) m)
  unfolding spend_input
  spend_input-Holds i {s} m found h = elim (Bool-cases (spendable i)) [
    | inl spent ↦ rw spent (
        Holds-update_balance s (del_tx_out api (id_of i) s) m _ i.addr (neg64 i.value) h
          (del_tx_out-SameRest (id_of i) s) (del_tx_out-IsConsistent api s h.consistent (id_of i))
          (delete-Unique (id_of i) m h.unique)
          (λ id. seen-del_tx_out api s h.consistent (id_of i) id ∙ rw (h.outputs, lookup-delete))
          (λ a. ground (
            arith,
            balance_in-delete a (id_of i) (data_of i) m h.unique
                (sym (h.outputs (id_of i)) ∙ rw spent at found),
            balance_in-lt-size a m,
            balance_in-lt-size a (delete (id_of i) m),
          )))
    | inr unspendable ↦ rw unspendable (del_absent_Holds s (id_of i) m h (rw unspendable at found))
  ]
