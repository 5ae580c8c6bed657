-- ===== src/Storage/Cache/Views.antt =====
-- block_manager/storage/cache.go: the unspent outputs that a client sees through the cache, and how
-- each operation changes them.
use gobalance.Common.{
  if◌then◌else◌, Bool-cases, get_or, is_some, lookup, lookup-delete, lookup-insert, ◌==◌, nat_key,
  string_key, ◌≡◌, inl, inr, Bool, true, Option, none, some, arith,
}
use gobalance.Storage.Cache.{
  get_tx_out, del_tx_out, cache_contains, id_of, add_tx_out, data_of, StorageCache,
}
use gobalance.Storage.{TxOutId, no_data, TxOutData, Storage, tx_out_id_key, ok}
use gobalance.Primitives.{TxOut}

module _ (api : Storage) where
  -- The stored outputs with the pending insertions and deletions applied.
  abbrev pub seen : StorageCache api → TxOutId → Option TxOutData
  seen s id =
      if is_some (lookup id s.deletions)
      then none
      else elim (lookup id s.inserts) [ some out ↦ some out | none ↦ lookup id (api.utxos s.sto) ]

  -- No output is both inserted and deleted, and no stored output is inserted.
  pub record IsConsistent (s : StorageCache api) : Type 0 where
    pub disjoint :
        (id : TxOutId) → is_some (lookup id s.inserts) ≡ true → lookup id s.deletions ≡ none
    pub unstored :
        (id : TxOutId) → is_some (lookup id s.inserts) ≡ true → lookup id (api.utxos s.sto) ≡ none

  -- The output is neither there nor deleted since the last commit.
  abbrev pub IsNew : StorageCache api → TxOutId → Type 0
  IsNew s id = (lookup id s.deletions ≡ none) × (seen s id ≡ none)

  -- `GetTxOut` without an error returns the output that is seen, or the empty address and 0.
  pub get_tx_out-seen :
      (id : TxOutId) (s : StorageCache api) (out : TxOutData)
      → get_tx_out api id s ≡ ok out
      → out ≡ get_or (seen s id) no_data
  unfolding get_tx_out
  get_tx_out-seen id s out h = ground (arith, api.get_ok id s.sto out)

  -- `Contains` without an error tells whether the output is seen.
  pub cache_contains-seen :
      (id : TxOutId) (s : StorageCache api) (b : Bool)
      → cache_contains api id s ≡ ok b
      → b ≡ is_some (seen s id)
  unfolding cache_contains
  cache_contains-seen id s b h = ground (arith, api.contains_ok id s.sto b)

  module _ (s : StorageCache api) (c : IsConsistent s) where
    pub seen-add_tx_out :
        (o : TxOut) (id : TxOutId)
        → IsNew s (id_of o)
        → seen (add_tx_out api o s) id ≡ (if id_of o == id then some (data_of o) else seen s id)
    unfolding add_tx_out
    seen-add_tx_out o id (kept, absent) =
        rw (kept, lookup-insert) (ground (arith, tx_out_id_key.test_iff (id_of o) id))

    pub add_tx_out-IsConsistent :
        (o : TxOut) → IsNew s (id_of o) → IsConsistent (add_tx_out api o s)
    unfolding add_tx_out
    add_tx_out-IsConsistent o (kept, absent) = rw kept (record {
      disjoint = λ id.
          rw lookup-insert (ground (arith, tx_out_id_key.test_iff (id_of o) id, c.disjoint id));
      unstored = λ id.
          rw lookup-insert (ground (arith, tx_out_id_key.test_iff (id_of o) id, c.unstored id));
    })

    pub seen-del_tx_out :
        (k id : TxOutId) → seen (del_tx_out api k s) id ≡ (if k == id then none else seen s id)
    unfolding del_tx_out
    seen-del_tx_out k id = elim (Bool-cases (is_some (lookup k s.inserts))) [
      | inl pending ↦
          rw (pending, lookup-delete)
            (ground (arith, tx_out_id_key.test_iff k id, c.disjoint k, c.unstored k))
      | inr other ↦ rw (other, lookup-insert) (ground arith)
    ]

    pub del_tx_out-IsConsistent : (k : TxOutId) → IsConsistent (del_tx_out api k s)
    unfolding del_tx_out
    del_tx_out-IsConsistent k = elim (Bool-cases (is_some (lookup k s.inserts))) [
      | inl pending ↦ rw pending (record {
        disjoint = λ id. rw lookup-delete (ground (arith, c.disjoint id));
        unstored = λ id. rw lookup-delete (ground (arith, c.unstored id));
      })
      | inr other ↦ rw other (record {
        disjoint =
            λ id. rw lookup-insert (ground (arith, tx_out_id_key.test_iff k id, c.disjoint id));
        unstored = c.unstored;
      })
    ]
