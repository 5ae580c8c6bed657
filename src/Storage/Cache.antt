-- ===== src/Storage/Cache.antt =====
-- block_manager/storage/cache.go: the cache of insertions and deletions that wait for a commit.
use gobalance.Common.{
  eqb, if◌then◌else◌, ◌>>=◌, length, Map, get_or, is_some, lookup, delete, insert, Int64, add64,
  neg64, ◌==◌, nat_key, string_key, ℕ, ◌+◌, String, Bool, true, false, ◌&&◌, not, Option, none,
  some, List, [], ◌∷◌, map,
}
pub mod Views
pub mod Balances
pub mod Ledger
pub mod Commits
pub mod Bulk
use gobalance.Primitives.{Hash, TxOut, Tx, Block}
use gobalance.BlockQueue.{get_balance, len, set_balance}
use gobalance.Storage.{TxOutId, TxOutData, no_data, tx_out_id_key, Result, ok, err, Storage}
use gobalance.BlockQueue.Views.{stored}

pub record StorageCache (api : Storage) : Type 0 where
  pub sto : api.Sto
  pub inserts : Map TxOutId TxOutData
  pub deletions : Map TxOutId Bool
  pub balance : Map String Int64
  pub height : Int64
  pub last_block_hash : Hash
  pub balance_index_enabled : Bool
  pub uncommitted_blocks : ℕ

abbrev pub id_of : TxOut → TxOutId
id_of o = record { tx_hash = o.tx_hash; nout = o.nout }

abbrev pub data_of : TxOut → TxOutData
data_of o = record { value = o.value; addr = o.addr }

-- `Addr != "" && Value != 0`
abbrev pub spendable : TxOut → Bool
spendable o = not (o.addr == "") && not (eqb o.value 0)

-- the two results of the first loop of `BulkGetTxOut`: the outputs found in the cache, with the
-- zero value for the others, and the ids of those others
unfoldable pub cached_outs : Map TxOutId TxOutData → List TxOutId → List TxOutData
cached_outs inserts ids = map (λ id. get_or (lookup id inserts) no_data) ids

unfoldable pub missing_ids : Map TxOutId TxOutData → List TxOutId → List TxOutId
missing_ids inserts [] = []
missing_ids inserts (id ∷ ids) =
    let rest = missing_ids inserts ids in
    elim (lookup id inserts) [ some _ ↦ rest | none ↦ id ∷ rest ]

-- the second loop of `BulkGetTxOut`, over the ids and outputs that are left, with the missing ids
-- and the fetched outputs that are left; `fetched[i]` out of range panics
unfoldable pub place :
    List TxOutId → List TxOutData → List TxOutId → List TxOutData → Option (List TxOutData)
place ids outs [] fetched = some outs
place [] outs (m ∷ missing) fetched = some outs
place (id ∷ ids) [] (m ∷ missing) fetched = some []
place (id ∷ ids) (o ∷ outs) (m ∷ missing) [] =
    let rest = place ids outs (m ∷ missing) [] in
    elim (id == m) [ true ↦ none | false ↦ rest >>= λ r. some (o ∷ r) ]
place (id ∷ ids) (o ∷ outs) (m ∷ missing) (f ∷ fetched) =
    let found = place ids outs missing fetched in
    let skipped = place ids outs (m ∷ missing) (f ∷ fetched) in
    elim (id == m) [ true ↦ found >>= λ r. some (f ∷ r) | false ↦ skipped >>= λ r. some (o ∷ r) ]

module _ (api : Storage) where
  unfoldable pub new_storage_cache : api.Sto → Bool → Result (StorageCache api)
  new_storage_cache sto balance_index = elim (api.get_last_block sto) [
    | err e ↦ err e
    | ok (height, hash) ↦ ok (record {
      sto = sto;
      inserts = [];
      deletions = [];
      balance = [];
      height = height;
      last_block_hash = hash;
      balance_index_enabled = balance_index;
      uncommitted_blocks = 0;
    })
  ]

  unfoldable pub cache_len : StorageCache api → Result ℕ
  cache_len s = api.len s.sto

  unfoldable pub uncommitted_len : StorageCache api → ℕ
  uncommitted_len s = length s.inserts + length s.deletions

  unfoldable pub set_height : Int64 → StorageCache api → StorageCache api
  set_height height s = record s { height = height }

  unfoldable pub set_hash : Hash → StorageCache api → StorageCache api
  set_hash hash s = record s { last_block_hash = hash }

  unfoldable pub get_tx_out : TxOutId → StorageCache api → Result TxOutData
  get_tx_out id s =
      if is_some (lookup id s.deletions)
      then ok no_data
      else elim (lookup id s.inserts) [ some out ↦ ok out | none ↦ api.get id s.sto ]

  unfoldable pub cache_contains : TxOutId → StorageCache api → Result Bool
  cache_contains id s =
      if is_some (lookup id s.deletions)
      then ok false
      else if is_some (lookup id s.inserts)
      then ok true
      else api.contains id s.sto

  -- `none` is a panic.
  unfoldable pub bulk_get_tx_out :
      List TxOutId → StorageCache api → Option (Result (List TxOutData))
  unfolding cached_outs
  bulk_get_tx_out ids s =
      let missing = missing_ids s.inserts ids in
      if eqb (length missing) 0
      then some (ok (cached_outs s.inserts ids))
      else elim (api.bulk_get missing s.sto) [
        | err e ↦ some (err e)
        | ok fetched ↦ place ids (cached_outs s.inserts ids) missing fetched >>= λ r. some (ok r)
      ]

  unfoldable pub update_balance : String → Int64 → StorageCache api → StorageCache api
  update_balance address balance s = if not s.balance_index_enabled then s else record s {
    balance = set_balance address (add64 (get_or (lookup address s.balance) 0) balance) s.balance;
  }

  unfoldable pub add_tx_out : TxOut → StorageCache api → StorageCache api
  add_tx_out utxo s =
      if is_some (lookup (id_of utxo) s.deletions)
      then record s { deletions = delete (id_of utxo) s.deletions }
      else record s { inserts = insert (id_of utxo) (data_of utxo) s.inserts }

  unfoldable pub del_tx_out : TxOutId → StorageCache api → StorageCache api
  del_tx_out id s =
      if is_some (lookup id s.inserts)
      then record s { inserts = delete id s.inserts }
      else record s { deletions = insert id true s.deletions }

  -- one turn of each inner loop of `AddBlock`
  unfoldable pub add_output : TxOut → StorageCache api → StorageCache api
  add_output out s =
      if spendable out then update_balance out.addr out.value (add_tx_out out s) else s

  unfoldable pub spend_input : TxOut → StorageCache api → StorageCache api
  spend_input i s =
      if spendable i
      then update_balance i.addr (neg64 i.value) (del_tx_out (id_of i) s)
      else del_tx_out (id_of i) s

  unfoldable pub add_outputs : List TxOut → StorageCache api → StorageCache api
  add_outputs [] s = s
  add_outputs (o ∷ os) s = add_outputs os (add_output o s)

  unfoldable pub spend_inputs : List TxOut → StorageCache api → StorageCache api
  spend_inputs [] s = s
  spend_inputs (i ∷ is) s = spend_inputs is (spend_input i s)

  unfoldable pub add_txs : List Tx → StorageCache api → StorageCache api
  add_txs [] s = s
  add_txs (t ∷ ts) s = add_txs ts (spend_inputs t.ins (add_outputs t.outs s))

  unfoldable pub add_block : Block → StorageCache api → StorageCache api
  unfolding set_height set_hash
  add_block block s =
      let s' = set_hash block.hash (set_height block.height (add_txs block.transactions s)) in
      record s' { uncommitted_blocks = s'.uncommitted_blocks + 1 }

  -- an error of the storage is answered by -1 and no error
  unfoldable pub cache_balance : String → StorageCache api → Result Int64
  cache_balance address s = elim (api.get_balance address s.sto) [
    | err e ↦ ok (neg64 1)
    | ok stored ↦ ok (add64 (get_or (lookup address s.balance) 0) stored)
  ]

  -- A failed update leaves the storage as it was: it is atomic.
  unfoldable pub commit : StorageCache api → Result (Unit {0}) × StorageCache api
  commit s =
      elim (api.bulk_update_from_map s.inserts s.deletions s.height s.last_block_hash s.sto) [
        | err e ↦ (err e, s)
        | ok sto ↦ (
          ok tt,
          record s {
            sto = sto;
            inserts = [];
            deletions = [];
            balance = [];
            uncommitted_blocks = 0;
          },
        )
      ]
