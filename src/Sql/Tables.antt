-- ===== src/Sql/Tables.antt =====
-- The table of unspent outputs of block_manager/storage/sqlite.go after deletions and insertions,
-- and the sum of an address in it.
use gobalance.Common.{
  if◌then◌else◌, Bool-cases, All, Map, is_some, lookup, delete, lookup-delete, Unique,
  delete-Unique, Int64, int64_size, add64, is_negative, string_key, nat_key, ◌==◌, ◌%◌, ◌<◌, String,
  ◌≡◌, refl, ◌↔◌, ◌⊎◌, inl, inr, Bool, true, false, none, some, List, [], ◌∷◌, map, arith,
}
use gobalance.Sql.{unexpendable, Rows, rows_of, sql_sum, raised}
use gobalance.Sql.Effects.{remove_ids, add_rows, Fresh}
use gobalance.Storage.{tx_out_id_key, TxOutId, TxOutData, balance_in, updated}
use gobalance.Primitives.{TxOut}

-- A row that no trigger stops.
abbrev pub IsSound : TxOutData → Type 0
IsSound out = (is_negative out.value ≡ false) × (unexpendable out ≡ false)

pub raised-IsSound : (first : Bool) (out : TxOutData) → (raised first out ≡ none) ↔ IsSound out
unfolding raised
raised-IsSound true out = ground arith
raised-IsSound false out = ground arith

-- No key stands twice, and every row is sound.
abbrev pub IsTable : Rows → Type 0
IsTable rows = Unique rows × All (λ p. IsSound p.1) rows

abbrev pub keys_of : Map TxOutId Bool → List TxOutId
keys_of = map (λ p. p.0)

lookup-remove_ids :
    (l : Map TxOutId Bool) (rows : Rows) (k : TxOutId)
    → lookup k (remove_ids (keys_of l) rows)
      ≡ (if is_some (lookup k l) then none else lookup k rows)
unfolding lookup
lookup-remove_ids [] rows k = refl
lookup-remove_ids ((id, v) ∷ l) rows k =
    ground (arith, lookup-remove_ids l (delete id rows) k, lookup-delete id k rows)

pub lookup-add_rows :
    (first : Bool) (l rows : Rows) (k : TxOutId)
    → Fresh first l rows
    → (lookup k (add_rows l rows)
        ≡ elim (lookup k l) [ some out ↦ some out | none ↦ lookup k rows ])
      × ((lookup k rows ≡ none) ⊎ (lookup k l ≡ none))
unfolding lookup
lookup-add_rows first [] rows k h = (refl, inr refl)
lookup-add_rows first ((id, out) ∷ l) rows k (free, new, h) =
    let later = lookup-add_rows first l ((id, out) ∷ rows) k h in
    ground (arith, later, tx_out_id_key.test_iff id k)

-- A batch leaves the rows that the interface of the storage asks for.
pub lookup-written :
    (first : Bool) (ins rows : Rows) (rem : Map TxOutId Bool) (k : TxOutId)
    → Fresh first ins (remove_ids (keys_of rem) rows)
    → lookup k (add_rows ins (remove_ids (keys_of rem) rows)) ≡ updated ins rem rows k
lookup-written first ins rows rem k h = ground (
  arith,
  (lookup-add_rows first ins (remove_ids (keys_of rem) rows) k h).0,
  lookup-remove_ids rem rows k,
)

delete-All :
    (id : TxOutId) (rows : Rows)
    → All (λ p. IsSound p.1) rows
    → All (λ p. IsSound p.1) (delete id rows)
unfolding delete
delete-All id [] h = tt
delete-All id ((k, out) ∷ rows) h = ground (arith, delete-All id rows h.1)

pub delete-IsTable : (id : TxOutId) (rows : Rows) → IsTable rows → IsTable (delete id rows)
delete-IsTable id rows (u, s) = (delete-Unique id rows u, delete-All id rows s)

pub remove_ids-IsTable :
    (l : List TxOutId) (rows : Rows) → IsTable rows → IsTable (remove_ids l rows)
remove_ids-IsTable [] rows h = h
remove_ids-IsTable (id ∷ l) rows h =
    remove_ids-IsTable l (delete id rows) (delete-IsTable id rows h)

pub add_rows-IsTable :
    (first : Bool) (l rows : Rows) → Fresh first l rows → IsTable rows → IsTable (add_rows l rows)
add_rows-IsTable first [] rows f h = h
add_rows-IsTable first ((id, out) ∷ l) rows (free, new, f) (u, s) =
    add_rows-IsTable first l ((id, out) ∷ rows) f ((new, u), ((raised-IsSound first out).0 free, s))

-- A sum without an overflow is the balance modulo 2^64.
pub sql_sum-balance_in :
    (a : String) (rows : Rows) (acc n : Int64)
    → sql_sum acc (rows_of a rows) ≡ some n
    → n % int64_size ≡ add64 acc (balance_in a rows)
unfolding sql_sum rows_of
sql_sum-balance_in a [] acc n h = ground arith
sql_sum-balance_in a ((id, out) ∷ rows) acc n h = elim (Bool-cases (out.addr == a)) [
  | inr theirs ↦ ground (arith, sql_sum-balance_in a rows acc n)
  | inl mine ↦ ground (arith, sql_sum-balance_in a rows (add64 acc out.value) n)
]

pub sql_sum-lt :
    (outs : List TxOut) (acc n : Int64)
    → acc < int64_size
    → sql_sum acc outs ≡ some n
    → n < int64_size
unfolding sql_sum
sql_sum-lt [] acc n b h = ground arith
sql_sum-lt (out ∷ outs) acc n b h =
    ground (arith, sql_sum-lt outs (add64 acc out.value) n (omega arith))
