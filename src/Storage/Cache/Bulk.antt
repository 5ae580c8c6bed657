-- ===== src/Storage/Cache/Bulk.antt =====
-- block_manager/storage/cache.go: `BulkGetTxOut`, which merges the cached outputs with one bulk
-- fetch of the others.
use gobalance.Common.{
  eqb, eqb_iff, Bool-cases, Option-cases, of-some, ◌>>=◌, length, nil_of_length, Map, get_or,
  lookup, string_key, nat_key, ◌≡◌, refl, sym, ap, ◌∙◌, ◌⊎◌, inl, inr, Option, none, some, List, [],
  ◌∷◌, map, arith,
}
use gobalance.Storage.{
  Error, Result-cases, err, ok, no_data, tx_out_id_key, TxOutId, TxOutData, Storage,
}
use gobalance.Storage.Cache.{StorageCache, missing_ids, cached_outs, place, bulk_get_tx_out}
use gobalance.Storage.Cache.Views.{seen}

module _ (inserts : Map TxOutId TxOutData) where
  head_missing :
      (ids : List TxOutId) (m : TxOutId) (ms : List TxOutId)
      → missing_ids inserts ids ≡ m ∷ ms
      → lookup m inserts ≡ none
  unfolding missing_ids
  head_missing [] m ms h = cc
  head_missing (id ∷ ids) m ms h = elim (Option-cases (lookup id inserts)) [
    | inl absent ↦ ground (arith, absent)
    | inr (x, found) ↦ head_missing ids m ms (rw (found, missing_ids) at h)
  ]

  module _ (fetch : TxOutId → TxOutData) where
    abbrev pub merged : TxOutId → TxOutData
    merged id = get_or (lookup id inserts) (fetch id)

    place-nil :
        (ids : List TxOutId) (outs fetched : List TxOutData) → place ids outs [] fetched ≡ some outs
    unfolding place
    place-nil [] outs fetched = refl
    place-nil (id ∷ ids) outs fetched = refl

    place_cached :
        (id : TxOutId) (x : TxOutData) (ids missing : List TxOutId) (outs : List TxOutData)
        → lookup id inserts ≡ some x
        → ((m : TxOutId) (ms : List TxOutId) → missing ≡ m ∷ ms → lookup m inserts ≡ none)
        → place ids outs missing (map fetch missing) ≡ some (map merged ids)
        → place (id ∷ ids) (x ∷ outs) missing (map fetch missing) ≡ some (x ∷ map merged ids)
    unfolding place
    place_cached id x ids [] outs found uncached h =
        ap (λ (o : Option (List TxOutData)). o >>= λ r. some (x ∷ r))
          (sym (place-nil ids outs []) ∙ h)
    place_cached id x ids (m ∷ ms) outs found uncached h =
        ground (arith, tx_out_id_key.test_iff id m, uncached m ms refl)

    place_fetched :
        (id : TxOutId) (ids : List TxOutId)
        → place ids
            (cached_outs inserts ids)
            (missing_ids inserts ids)
            (map fetch (missing_ids inserts ids))
          ≡ some (map merged ids)
        → place
            (id ∷ ids)
            (no_data ∷ cached_outs inserts ids)
            (id ∷ missing_ids inserts ids)
            (fetch id ∷ map fetch (missing_ids inserts ids))
          ≡ some (fetch id ∷ map merged ids)
    unfolding place
    place_fetched id ids h = ground (arith, tx_out_id_key.test_iff id id)

    place-merged :
        (ids : List TxOutId)
        → place ids
            (cached_outs inserts ids)
            (missing_ids inserts ids)
            (map fetch (missing_ids inserts ids))
          ≡ some (map merged ids)
    unfolding cached_outs missing_ids
    place-merged [] = place-nil [] [] []
    place-merged (id ∷ ids) = elim (Option-cases (lookup id inserts)) [
      | inl absent ↦ rw (absent, missing_ids) (place_fetched id ids (place-merged ids))
      | inr (x, found) ↦
          rw (found, missing_ids)
            (place_cached id x ids (missing_ids inserts ids) (cached_outs inserts ids) found
              (λ m ms. head_missing ids m ms) (place-merged ids))
    ]

module _ (api : Storage) where
  stored_or_none : StorageCache api → TxOutId → TxOutData
  stored_or_none s id = get_or (lookup id (api.utxos s.sto)) no_data

  all_cached :
      (ids : List TxOutId) (s : StorageCache api)
      → missing_ids s.inserts ids ≡ []
      → cached_outs s.inserts ids ≡ map (merged s.inserts (stored_or_none s)) ids
  all_cached ids s none_missing =
      let fetch = stored_or_none s in
      of-some (
        sym (place-nil s.inserts fetch ids (cached_outs s.inserts ids) [])
        ∙ (rw none_missing at (place-merged s.inserts fetch ids)))

  -- `BulkGetTxOut` does not panic: it returns, for each id in its place, the output waiting to be
  -- inserted, or else the stored one, or the empty address and 0; or the error that the storage
  -- answers the one request with, which is for the ids that do not wait to be inserted.
  pub bulk_get_tx_out_lem :
      (ids : List TxOutId) (s : StorageCache api)
      → (bulk_get_tx_out api ids s
          ≡ some (
              ok (map (merged s.inserts (λ id. get_or (lookup id (api.utxos s.sto)) no_data)) ids)))
        ⊎ ((e : Error) × (api.bulk_get (missing_ids s.inserts ids) s.sto ≡ err e)
            × (bulk_get_tx_out api ids s ≡ some (err e)))
  unfolding bulk_get_tx_out stored_or_none
  bulk_get_tx_out_lem ids s = elim (Bool-cases (eqb (length (missing_ids s.inserts ids)) 0)) [
    | inl nothing ↦ inl (
        rw nothing
          (ap (λ o. some (ok o)) (all_cached ids s (nil_of_length _ ((eqb_iff _ 0).0 nothing)))))
    | inr some_missing ↦ elim (Result-cases (api.bulk_get (missing_ids s.inserts ids) s.sto)) [
      | inl (fetched, answered) ↦ inl (
          rw (some_missing, answered, bulk_get_tx_out)
            (rw (
              api.bulk_get_ok _ s.sto fetched answered,
              place-merged s.inserts (stored_or_none s) ids,
            )))
      | inr (e, failed) ↦ inr (e, failed, rw (some_missing, failed, bulk_get_tx_out))
    ]
  ]

  -- It agrees with `GetTxOut` on ids that do not wait to be deleted.
  pub bulk_get_tx_out-seen :
      (id : TxOutId) (s : StorageCache api)
      → lookup id s.deletions ≡ none
      → merged s.inserts (λ i. get_or (lookup i (api.utxos s.sto)) no_data) id
        ≡ get_or (seen api s id) no_data
  bulk_get_tx_out-seen id s h = ground arith
