-- ===== src/BlockManager/Ledger.antt =====
-- The unspent outputs after a list of transactions, as block_manager/storage/cache.go keeps them,
-- against the balance changes that primitives/block_queue.go adds up for the same transactions.
use text.Mathlib.TextEquality.{eq_iff}
use gobalance.Common.{
  if◌then◌else◌, Bool-cases, Map, lookup, delete, delete_absent, Unique, delete-Unique,
  insert-Unique, int64_size, add64, string_key, nat_key, ◌<◌, String, ◌≡◌, refl, inl, inr, true,
  false, none, some, List, [], ◌∷◌, ◌++◌, arith,
}
use gobalance.Primitives.{Tx, TxOut}
use gobalance.Storage.Cache.{spendable, data_of, id_of}
use gobalance.Primitives.Deltas.{total, total_if_mentions, pays, delta, touches}
use gobalance.Storage.Cache.Balances.{balance_in-insert, balance_in-delete, balance_in-lt-size}
use gobalance.Storage.Cache.Ledger.{with_outputs, with_txs, with_output, without_inputs}
use gobalance.BlockQueue.Blocks.{net-lt-size}
use gobalance.Storage.{TxOutId, TxOutData, tx_out_id_key, balance_in}
use gobalance.BlockQueue.Views.{net}

-- Outputs have new ids, and an input has the address and the value of the output that it spends, or
-- none if that output cannot be stored.
abbrev pub FitsOutputs : List TxOut → Map TxOutId TxOutData → Type 0
FitsOutputs [] m = Unit
FitsOutputs (o ∷ os) m =
    (spendable o ≡ true → lookup (id_of o) m ≡ none) × FitsOutputs os (with_output o m)

abbrev pub FitsInputs : List TxOut → Map TxOutId TxOutData → Type 0
FitsInputs [] m = Unit
FitsInputs (i ∷ is) m =
    (lookup (id_of i) m ≡ (if spendable i then some (data_of i) else none))
    × FitsInputs is (delete (id_of i) m)

abbrev pub FitsTxs : List Tx → Map TxOutId TxOutData → Type 0
FitsTxs [] m = Unit
FitsTxs (t ∷ ts) m =
    FitsOutputs t.outs m
    × FitsInputs t.ins (with_outputs t.outs m)
    × FitsTxs ts (without_inputs t.ins (with_outputs t.outs m))

with_outputs-Unique :
    (os : List TxOut) (m : Map TxOutId TxOutData) → Unique m → Unique (with_outputs os m)
with_outputs-Unique [] m u = u
with_outputs-Unique (o ∷ os) m u = elim (Bool-cases (spendable o)) [
  | inl e ↦ rw e (with_outputs-Unique os _ (insert-Unique (id_of o) (data_of o) m u))
  | inr e ↦ rw e (with_outputs-Unique os m u)
]

without_inputs-Unique :
    (is : List TxOut) (m : Map TxOutId TxOutData) → Unique m → Unique (without_inputs is m)
without_inputs-Unique [] m u = u
without_inputs-Unique (i ∷ is) m u = without_inputs-Unique is _ (delete-Unique (id_of i) m u)

pub with_txs-Unique : (ts : List Tx) (m : Map TxOutId TxOutData) → Unique m → Unique (with_txs ts m)
with_txs-Unique [] m u = u
with_txs-Unique (t ∷ ts) m u =
    with_txs-Unique ts _ (without_inputs-Unique t.ins _ (with_outputs-Unique t.outs m u))

pub with_txs-append :
    (ts us : List Tx) (m : Map TxOutId TxOutData)
    → with_txs (ts ++ us) m ≡ with_txs us (with_txs ts m)
with_txs-append [] us m = refl
with_txs-append (t ∷ ts) us m = with_txs-append ts us _

pub FitsTxs-append :
    (ts us : List Tx) (m : Map TxOutId TxOutData)
    → FitsTxs ts m
    → FitsTxs us (with_txs ts m)
    → FitsTxs (ts ++ us) m
FitsTxs-append [] us m f g = g
FitsTxs-append (t ∷ ts) us m f g = (f.0, f.1, FitsTxs-append ts us _ f.2 g)

pub FitsTxs-before :
    (ts us : List Tx) (m : Map TxOutId TxOutData) → FitsTxs (ts ++ us) m → FitsTxs ts m
FitsTxs-before [] us m f = tt
FitsTxs-before (t ∷ ts) us m f = (f.0, f.1, FitsTxs-before ts us _ f.2)

pub FitsTxs-after :
    (ts us : List Tx) (m : Map TxOutId TxOutData)
    → FitsTxs (ts ++ us) m
    → FitsTxs us (with_txs ts m)
FitsTxs-after [] us m f = f
FitsTxs-after (t ∷ ts) us m f = FitsTxs-after ts us _ f.2

module _ (a : String) where
  total-lt-size : (os : List TxOut) → total a os < int64_size
  total-lt-size [] = omega arith
  total-lt-size (o ∷ os) = ground (arith, total-lt-size os)

  balance_in-with_output :
      (o : TxOut) (m : Map TxOutId TxOutData)
      → (spendable o ≡ true → lookup (id_of o) m ≡ none)
      → balance_in a (with_output o m) ≡ add64 (balance_in a m) (if pays a o then o.value else 0)
  balance_in-with_output o m new = elim (Bool-cases (spendable o)) [
    | inl e ↦ rw e (
        ground (
          arith,
          balance_in-insert a (id_of o) (data_of o) m (new e),
          balance_in-lt-size a m,
          eq_iff o.addr "",
          eq_iff o.addr a,
        ))
    | inr e ↦ rw e (ground (arith, balance_in-lt-size a m))
  ]

  balance_in-with_outputs :
      (os : List TxOut) (m : Map TxOutId TxOutData)
      → FitsOutputs os m
      → balance_in a (with_outputs os m) ≡ add64 (balance_in a m) (total a os)
  balance_in-with_outputs [] m f = omega (arith, balance_in-lt-size a m)
  balance_in-with_outputs (o ∷ os) m f =
      ground
        (arith, balance_in-with_outputs os (with_output o m) f.1, balance_in-with_output o m f.0)

  balance_in-without_input :
      (i : TxOut) (m : Map TxOutId TxOutData)
      → Unique m
      → lookup (id_of i) m ≡ (if spendable i then some (data_of i) else none)
      → add64 (balance_in a (delete (id_of i) m)) (if pays a i then i.value else 0) ≡ balance_in a m
  balance_in-without_input i m u found = elim (Bool-cases (spendable i)) [
    | inl e ↦ ground (
      arith,
      balance_in-delete a (id_of i) (data_of i) m u (rw e at found),
      balance_in-lt-size a m,
      balance_in-lt-size a (delete (id_of i) m),
      eq_iff i.addr "",
      eq_iff i.addr a,
    )
    | inr e ↦
        rw (delete_absent (id_of i) m (rw e at found)) (ground (arith, balance_in-lt-size a m))
  ]

  balance_in-without_inputs :
      (is : List TxOut) (m : Map TxOutId TxOutData)
      → Unique m
      → FitsInputs is m
      → add64 (balance_in a (without_inputs is m)) (total a is) ≡ balance_in a m
  balance_in-without_inputs [] m u f = omega (arith, balance_in-lt-size a m)
  balance_in-without_inputs (i ∷ is) m u f = ground (
    arith,
    balance_in-without_inputs is (delete (id_of i) m) (delete-Unique (id_of i) m u) f.1,
    balance_in-without_input i m u f.0,
    balance_in-lt-size a m,
  )

  balance_in-with_tx :
      (t : Tx) (m : Map TxOutId TxOutData)
      → Unique m
      → FitsOutputs t.outs m
      → FitsInputs t.ins (with_outputs t.outs m)
      → balance_in a (without_inputs t.ins (with_outputs t.outs m))
        ≡ add64 (balance_in a m) (delta a t)
  balance_in-with_tx t m u f g = omega (
    arith,
    balance_in-with_outputs t.outs m f,
    balance_in-without_inputs t.ins (with_outputs t.outs m) (with_outputs-Unique t.outs m u) g,
    total-lt-size t.ins,
    total-lt-size t.outs,
    balance_in-lt-size a m,
    balance_in-lt-size a (without_inputs t.ins (with_outputs t.outs m)),
  )

  delta_untouched : (t : Tx) → touches a t ≡ false → delta a t ≡ 0
  delta_untouched t h = ground (arith, total_if_mentions a t.outs, total_if_mentions a t.ins)

  -- Valid transactions change the balance of an address in the unspent outputs by the sum of the
  -- balance changes that `ForEachAddress` reports for them, modulo 2^64.
  pub balance_in-with_txs :
      (ts : List Tx) (m : Map TxOutId TxOutData)
      → Unique m
      → FitsTxs ts m
      → balance_in a (with_txs ts m) ≡ add64 (balance_in a m) (net a ts)
  balance_in-with_txs [] m u f = omega (arith, balance_in-lt-size a m)
  balance_in-with_txs (t ∷ ts) m u f =
      let m' = without_inputs t.ins (with_outputs t.outs m) in
      ground (
        arith,
        balance_in-with_txs ts m' (with_txs-Unique (t ∷ []) m u) f.2,
        balance_in-with_tx t m u f.0 f.1,
        delta_untouched t,
        balance_in-lt-size a m',
        net-lt-size a ts,
      )
