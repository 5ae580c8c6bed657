-- ===== src/Storage/Cache/Commits.antt =====
-- block_manager/storage/cache.go: `AddBlock`, `GetBalance` and `Commit` against a plain set of
-- unspent outputs.
use gobalance.Common.{
  Map, lookup, delete, Int64, neg64, string_key, nat_key, String, ◌≡◌, refl, ◌∙◌, ◌⊎◌, inl, inr,
  List, [], ◌∷◌, arith,
}
use gobalance.Primitives.{TxOut, Tx, Block}
use gobalance.Storage.{
  Result-cases, tx_out_id_key, Error, updated, err, ok, TxOutId, TxOutData, balance_in, Storage,
}
use gobalance.Storage.Cache.{
  id_of, uncommitted_len, add_block, spend_inputs, commit, cache_balance, add_txs, StorageCache,
  add_outputs,
}
use gobalance.Storage.Cache.Views.{seen, IsConsistent}
use gobalance.Storage.Cache.Ledger.{
  Holds, without_inputs, with_outputs, with_txs, ValidInputs, add_output-Holds, ValidTxs,
  with_output, ValidOutputs, spend_input-Holds,
}
use gobalance.Storage.Cache.Balances.{balance_in_same, balance_in-lt-size}

module _ (api : Storage) where
  add_outputs-Holds :
      (os : List TxOut) {s : StorageCache api} (m : Map TxOutId TxOutData)
      → ValidOutputs api os s
      → Holds api s m
      → Holds api (add_outputs api os s) (with_outputs os m)
  unfolding add_outputs
  add_outputs-Holds [] m v h = h
  add_outputs-Holds (o ∷ os) m v h =
      add_outputs-Holds os (with_output o m) v.1 (add_output-Holds api o m v.0 h)

  spend_inputs-Holds :
      (is : List TxOut) {s : StorageCache api} (m : Map TxOutId TxOutData)
      → ValidInputs api is s
      → Holds api s m
      → Holds api (spend_inputs api is s) (without_inputs is m)
  unfolding spend_inputs
  spend_inputs-Holds [] m v h = h
  spend_inputs-Holds (i ∷ is) m v h =
      spend_inputs-Holds is (delete (id_of i) m) v.1 (spend_input-Holds api i m v.0 h)

  add_txs-Holds :
      (ts : List Tx) {s : StorageCache api} (m : Map TxOutId TxOutData)
      → ValidTxs api ts s
      → Holds api s m
      → Holds api (add_txs api ts s) (with_txs ts m)
  unfolding add_txs
  add_txs-Holds [] m v h = h
  add_txs-Holds (t ∷ ts) m v h =
      add_txs-Holds ts _ v.2 (spend_inputs-Holds t.ins _ v.1 (add_outputs-Holds t.outs m v.0 h))

  -- After `AddBlock` of a valid block the cache holds the outputs that were there, with those that
  -- the block creates and without those that it spends, and the balances of these; the height and
  -- the hash are the block's.
  pub add_block-Holds :
      (block : Block) (s : StorageCache api) (m : Map TxOutId TxOutData)
      → ValidTxs api block.transactions s
      → Holds api s m
      → Holds api (add_block api block s) (with_txs block.transactions m)
        × ((add_block api block s).height ≡ block.height)
        × ((add_block api block s).last_block_hash ≡ block.hash)
  unfolding add_block
  add_block-Holds block s m v h =
      let x = add_txs-Holds block.transactions m v h in
      (
        record {
          consistent = record {
            disjoint = x.consistent.disjoint;
            unstored = x.consistent.unstored;
          };
          unique = x.unique;
          outputs = x.outputs;
          indexed = x.indexed;
          balances = x.balances;
        },
        refl,
        refl,
      )

  -- If the storage answers, `GetBalance` is the balance of the address in the outputs that the
  -- cache holds, whether their blocks were committed or not; if the storage fails, it is -1 and no
  -- error.
  pub cache_balance-Holds :
      (a : String) (s : StorageCache api) (m : Map TxOutId TxOutData)
      → Holds api s m
      → ((n : Int64) × (api.get_balance a s.sto ≡ ok n)
          × (cache_balance api a s ≡ ok (balance_in a m)))
        ⊎ ((e : Error) × (api.get_balance a s.sto ≡ err e) × (cache_balance api a s ≡ ok (neg64 1)))
  unfolding cache_balance
  cache_balance-Holds a s m h = elim (Result-cases (api.get_balance a s.sto)) [
    | inl (n, e) ↦ inl (n, e, ground (arith, h.balances a, api.get_balance_ok a s.sto n))
    | inr (e, f) ↦ inr (e, f, ground arith)
  ]

  updated-seen :
      (s : StorageCache api) (id : TxOutId)
      → IsConsistent api s
      → updated s.inserts s.deletions (api.utxos s.sto) id ≡ seen api s id
  updated-seen s id c = ground (arith, c.disjoint id)

  committed :
      (s : StorageCache api) (m : Map TxOutId TxOutData) (sto : api.Sto)
      → Holds api s m
      → api.bulk_update_from_map s.inserts s.deletions s.height s.last_block_hash s.sto ≡ ok sto
      → Holds api
          (record s {
            sto = sto;
            inserts = [];
            deletions = [];
            balance = [];
            uncommitted_blocks = 0;
          })
          m
  unfolding lookup
  committed s m sto h done =
      let (written, _) =
        api.update_ok s.inserts s.deletions s.height s.last_block_hash s.sto sto done in
      let same = λ (id : TxOutId). written id ∙ updated-seen s id h.consistent ∙ h.outputs id in
      record {
        consistent = record { disjoint = λ id e. cc; unstored = λ id e. cc };
        unique = h.unique;
        outputs = same;
        indexed = h.indexed;
        balances = λ a. omega (
          arith,
          balance_in_same a (api.utxos sto) m (api.utxos-Unique sto) h.unique same,
          balance_in-lt-size a m,
        );
      }

  -- A `Commit` that succeeds empties the cache and changes no output and no balance that a client
  -- sees; the storage then has the height and the hash of the last block. One that the storage
  -- refuses returns its error and changes nothing.
  pub commit-Holds :
      (s : StorageCache api) (m : Map TxOutId TxOutData)
      → Holds api s m
      → (((commit api s).0 ≡ ok tt)
          × Holds api (commit api s).1 m
          × (uncommitted_len api (commit api s).1 ≡ 0)
          × ((commit api s).1.uncommitted_blocks ≡ 0)
          × (api.last_block (commit api s).1.sto ≡ (s.height, s.last_block_hash)))
        ⊎ ((e : Error) × (api.bulk_update_from_map s.inserts s.deletions s.height s.last_block_hash
                s.sto
              ≡ err e)
            × (commit api s ≡ (err e, s)))
  unfolding commit uncommitted_len
  commit-Holds s m h =
      elim (Result-cases
        (api.bulk_update_from_map s.inserts s.deletions s.height s.last_block_hash s.sto)) [
          | inl (sto, done) ↦ inl (
              rw (done, commit)
                (
                  refl,
                  committed s m sto h done,
                  refl,
                  refl,
                  (api.update_ok s.inserts s.deletions s.height s.last_block_hash s.sto sto done).1,
                ))
          | inr (e, failed) ↦ inr (e, failed, rw (failed, commit))
        ]
