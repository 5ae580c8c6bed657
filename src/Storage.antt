-- ===== src/Storage.antt =====
-- block_manager/storage/storage.go: the identifiers and the data of unspent outputs, the errors,
-- and the interface `Storage` with what its comments promise.
pub mod Cache
use gobalance.Common.{
  eqb, if◌then◌else◌, Map, get_or, is_some, lookup, insert, Unique, Int64, add64, Key, ◌==◌,
  nat_key, string_key, ℕ, String, ◌≡◌, refl, ◌↔◌, ◌⊎◌, inl, inr, Bool, true, ◌&&◌, Option, none,
  some, List, [], ◌∷◌, map, arith,
}
use gobalance.Primitives.{Hash}

pub record TxOutId : Type 0 where
  pub tx_hash : Hash
  pub nout : ℕ

pub record TxOutData : Type 0 where
  pub value : Int64
  pub addr : String

unfoldable pub new_tx_out_id : Hash → ℕ → TxOutId
new_tx_out_id hash nout = record { tx_hash = hash; nout = nout }

unfoldable pub new_tx_out_data : String → Int64 → TxOutData
new_tx_out_data address value = record { value = value; addr = address }

-- what `Get` returns for an output that is not stored
abbrev pub no_data : TxOutData
no_data = record { value = 0; addr = "" }

abbrev pub id_eq : TxOutId → TxOutId → Bool
id_eq a b = eqb a.tx_hash b.tx_hash && eqb a.nout b.nout

pub id_eq_iff : (a b : TxOutId) → (id_eq a b ≡ true) ↔ (a ≡ b)
id_eq_iff a b = ground arith

instance abbrev pub tx_out_id_key : Key TxOutId
tx_out_id_key = record { test = id_eq; test_iff = id_eq_iff }

-- The package's errors, and any other error of the database.
pub data Error : Type 0 where
  negative_utxo unexpendable_utxo negative_height dirty_storage : Error
  database : String → Error

pub data Result {ℓ} (A : Type ℓ) : Type ℓ where
  ok : A → Result A
  err : Error → Result A

pub Result-cases {ℓ} :
    {A : Type ℓ} (r : Result A) → ((a : A) × (r ≡ ok a)) ⊎ ((e : Error) × (r ≡ err e))
Result-cases (ok a) = inl (a, refl)
Result-cases (err e) = inr (e, refl)

pub ok-injective {ℓ} : {A : Type ℓ} {a b : A} → ok a ≡ ok b → a ≡ b
ok-injective h = cc

pub err_not_ok {ℓ} : {A : Type ℓ} {x : Error} {a : A} → err x ≡ ok a → ⊥
err_not_ok h = cc

-- The balance of an address in a set of unspent outputs, modulo 2^64.
abbrev pub balance_in : String → Map TxOutId TxOutData → Int64
balance_in a [] = 0
balance_in a ((id, out) ∷ m) =
    if out.addr == a then add64 out.value (balance_in a m) else balance_in a m

-- The outputs stored after `remove` and then `insert` were written.
abbrev pub updated :
    Map TxOutId TxOutData → Map TxOutId Bool → Map TxOutId TxOutData → TxOutId → Option TxOutData
updated insert remove utxos id = elim (lookup id insert) [
  | some out ↦ some out
  | none ↦ if is_some (lookup id remove) then none else lookup id utxos
]

pub record Storage : Type 1 where
  pub Sto : Type 0
  pub utxos : Sto → Map TxOutId TxOutData
  pub utxos-Unique : (s : Sto) → Unique (utxos s)
  -- the height and the hash stored, or -1 and zeros
  pub last_block : Sto → Int64 × Hash
  pub len : Sto → Result ℕ
  pub get_last_block : Sto → Result (Int64 × Hash)
  pub get : TxOutId → Sto → Result TxOutData
  pub get_balance : String → Sto → Result Int64
  pub contains : TxOutId → Sto → Result Bool
  pub bulk_get : List TxOutId → Sto → Result (List TxOutData)
  pub bulk_update_from_map :
      Map TxOutId TxOutData → Map TxOutId Bool → Int64 → Hash → Sto → Result Sto
  pub get_last_block_ok : (s : Sto) (p : Int64 × Hash) → get_last_block s ≡ ok p → p ≡ last_block s
  pub get_ok :
      (id : TxOutId) (s : Sto) (out : TxOutData)
      → get id s ≡ ok out
      → out ≡ get_or (lookup id (utxos s)) no_data
  pub contains_ok :
      (id : TxOutId) (s : Sto) (b : Bool) → contains id s ≡ ok b → b ≡ is_some (lookup id (utxos s))
  pub get_balance_ok :
      (a : String) (s : Sto) (n : Int64) → get_balance a s ≡ ok n → n ≡ balance_in a (utxos s)
  pub bulk_get_ok :
      (ids : List TxOutId) (s : Sto) (out : List TxOutData)
      → bulk_get ids s ≡ ok out
      → out ≡ map (λ id. get_or (lookup id (utxos s)) no_data) ids
  pub update_ok :
      (insert : Map TxOutId TxOutData) (remove : Map TxOutId Bool) (height : Int64) (hash : Hash)
      (s s' : Sto)
      → bulk_update_from_map insert remove height hash s ≡ ok s'
      → ((id : TxOutId) → lookup id (utxos s') ≡ updated insert remove (utxos s) id)
        × (last_block s' ≡ (height, hash))
