-- ===== src/Examples/Memory.antt =====
-- A storage kept in memory, whose laws hold, and a storage cache over it before and after one
-- block.
use gobalance.Common.{
  if◌then◌else◌, Bool-cases, length, Map, get_or, is_some, lookup, delete, insert, lookup-delete,
  lookup-insert, Unique, delete-Unique, insert-Unique, Int64, is_negative, string_key, nat_key, ◌≡◌,
  refl, sym, inl, inr, Bool, true, none, some, [], ◌∷◌, map, arith,
}
use gobalance.Primitives.{Hash, TxOut}
use gobalance.Storage.{
  no_data, balance_in, ok-injective, updated, tx_out_id_key, TxOutId, TxOutData, Storage, Result,
  ok, err, negative_height,
}
use gobalance.Storage.Cache.{
  update_balance, add_tx_out, add_output, add_outputs, StorageCache, add_block,
}
use gobalance.Examples.Data.{block_one}
use gobalance.BlockQueue.{set_balance}
use gobalance.Storage.Cache.Ledger.{ValidTxs, with_txs, Holds}
use gobalance.Storage.Cache.Commits.{add_block-Holds}

pub record Memory : Type 0 where
  pub outs : Map TxOutId TxOutData
  pub unique : Unique outs
  pub height : Int64
  pub hash : Hash

unfoldable pub write_all : Map TxOutId TxOutData → Map TxOutId TxOutData → Map TxOutId TxOutData
write_all [] m = m
write_all ((id, out) ∷ l) m = insert id out (write_all l m)

unfoldable pub remove_all : Map TxOutId Bool → Map TxOutId TxOutData → Map TxOutId TxOutData
remove_all [] m = m
remove_all ((id, _) ∷ l) m = delete id (remove_all l m)

pub write_all-Unique : (l m : Map TxOutId TxOutData) → Unique m → Unique (write_all l m)
unfolding write_all
write_all-Unique [] m u = u
write_all-Unique ((id, out) ∷ l) m u = insert-Unique id out _ (write_all-Unique l m u)

pub remove_all-Unique :
    (l : Map TxOutId Bool) (m : Map TxOutId TxOutData) → Unique m → Unique (remove_all l m)
unfolding remove_all
remove_all-Unique [] m u = u
remove_all-Unique ((id, _) ∷ l) m u = delete-Unique id _ (remove_all-Unique l m u)

lookup-write_all :
    (l m : Map TxOutId TxOutData) (k : TxOutId)
    → lookup k (write_all l m) ≡ elim (lookup k l) [ some out ↦ some out | none ↦ lookup k m ]
unfolding write_all lookup
lookup-write_all [] m k = refl
lookup-write_all ((id, out) ∷ l) m k = rw lookup-insert (ground (arith, lookup-write_all l m k))

lookup-remove_all :
    (l : Map TxOutId Bool) (m : Map TxOutId TxOutData) (k : TxOutId)
    → lookup k (remove_all l m) ≡ (if is_some (lookup k l) then none else lookup k m)
unfolding remove_all lookup
lookup-remove_all [] m k = refl
lookup-remove_all ((id, _) ∷ l) m k = rw lookup-delete (ground (arith, lookup-remove_all l m k))

-- Only a negative height is refused.
unfoldable pub write :
    Map TxOutId TxOutData → Map TxOutId Bool → Int64 → Hash → Memory → Result Memory
write ins rem height hash s =
    if is_negative height
    then err negative_height
    else ok (record {
      outs = write_all ins (remove_all rem s.outs);
      unique = write_all-Unique ins _ (remove_all-Unique rem s.outs s.unique);
      height = height;
      hash = hash;
    })

pub write_ok :
    (ins : Map TxOutId TxOutData) (rem : Map TxOutId Bool) (height : Int64) (hash : Hash)
    (s s' : Memory)
    → write ins rem height hash s ≡ ok s'
    → ((id : TxOutId) → lookup id s'.outs ≡ updated ins rem s.outs id)
      × ◌≡◌ {A = Int64 × Hash} (s'.height, s'.hash) (height, hash)
unfolding write
write_ok ins rem height hash s s' h = elim (Bool-cases (is_negative height)) [
  | inl bad ↦ absurd (not_ok (rw bad at h))
  | inr fine ↦
      let e = ok-injective (rw fine at h) in
      (
        λ id. rw (← e) (
            ground (
              arith,
              lookup-write_all ins (remove_all rem s.outs) id,
              lookup-remove_all rem s.outs id,
            )),
        rw (← e),
      )
]
  where
    not_ok : ◌≡◌ {A = Result Memory} (err negative_height) (ok s') → ⊥
    not_ok f = cc

abbrev pub memory : Storage
memory = record {
  Sto = Memory;
  utxos = λ s. s.outs;
  utxos-Unique = λ s. s.unique;
  last_block = λ s. (s.height, s.hash);
  len = λ s. ok (length s.outs);
  get_last_block = λ s. ok (s.height, s.hash);
  get = λ id s. ok (get_or (lookup id s.outs) no_data);
  get_balance = λ a s. ok (balance_in a s.outs);
  contains = λ id s. ok (is_some (lookup id s.outs));
  bulk_get = λ ids s. ok (map (λ id. get_or (lookup id s.outs) no_data) ids);
  bulk_update_from_map = write;
  get_last_block_ok = λ s p h. sym (ok-injective h);
  get_ok = λ id s out h. sym (ok-injective h);
  contains_ok = λ id s b h. sym (ok-injective h);
  get_balance_ok = λ a s n h. sym (ok-injective h);
  bulk_get_ok = λ ids s out h. sym (ok-injective h);
  update_ok = write_ok;
}

abbrev pub mint_out : TxOut
mint_out = record { tx_hash = 11; nout = 0; addr = "alice"; value = 50 }

abbrev pub fresh_memory : Memory
fresh_memory = record { outs = []; unique = tt; height = 0; hash = 0 }

abbrev pub cold : StorageCache memory
cold = record {
  sto = fresh_memory;
  inserts = [];
  deletions = [];
  balance = [];
  height = 0;
  last_block_hash = 0;
  balance_index_enabled = true;
  uncommitted_blocks = 0;
}

pub cold-Holds : Holds memory cold []
unfolding lookup
cold-Holds = record {
  consistent = record { disjoint = λ id h. cc; unstored = λ id h. cc };
  unique = tt;
  outputs = λ id. refl;
  indexed = refl;
  balances = λ a. refl;
}

abbrev pub warm : StorageCache memory
warm = add_block memory block_one cold

pub one_is_valid : ValidTxs memory block_one.transactions cold
unfolding lookup add_output add_tx_out update_balance set_balance insert delete add_outputs
one_is_valid = ((λ _. (refl, refl), tt), (refl, tt), tt)

pub warm-Holds : Holds memory warm (with_txs block_one.transactions [])
warm-Holds = (add_block-Holds memory block_one cold [] one_is_valid cold-Holds).0
