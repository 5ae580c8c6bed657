-- ===== src/Primitives/Deltas.antt =====
-- `ForEachAddress` of primitives/primitives.go against the balance changes of a transaction,
-- read off its outputs and inputs.
use text.Mathlib.TextEquality.{eq_iff}
use gobalance.Common.{
  if◌then◌else◌, Bool-cases, Map, get_or, lookup, lookup-insert, Unique, insert-Unique, Int64,
  add64, sub64, ◌==◌, nat_key, string_key, String, ◌≡◌, refl, inl, inr, Bool, false, ◌&&◌, ◌||◌,
  not, Option, none, some, List, [], ◌∷◌, arith,
}
use gobalance.Primitives.{
  TxOut, Tx, add_balance, sub_balance, add_outputs, sub_inputs, address_balances,
}

-- The output belongs to the address; the empty address stands for none.
abbrev pub pays : String → TxOut → Bool
pays a o = not (o.addr == "") && o.addr == a

abbrev pub mentions : String → List TxOut → Bool
mentions a [] = false
mentions a (o ∷ os) = pays a o || mentions a os

abbrev pub total : String → List TxOut → Int64
total a [] = 0
total a (o ∷ os) = if pays a o then add64 o.value (total a os) else total a os

-- What the outputs pay to an address, less what the inputs take from it.
abbrev pub delta : String → Tx → Int64
delta a t = sub64 (total a t.outs) (total a t.ins)

abbrev pub touches : String → Tx → Bool
touches a t = mentions a t.outs || mentions a t.ins

lookup-add_balance :
    (k a : String) (v : Int64) (m : Map String Int64)
    → lookup a (add_balance k v m)
      ≡ (if k == a then some (add64 (get_or (lookup a m) 0) v) else lookup a m)
unfolding add_balance
lookup-add_balance k a v m = rw lookup-insert (ground (arith, eq_iff k a))

lookup-sub_balance :
    (k a : String) (v : Int64) (m : Map String Int64)
    → lookup a (sub_balance k v m)
      ≡ (if k == a then some (sub64 (get_or (lookup a m) 0) v) else lookup a m)
unfolding sub_balance
lookup-sub_balance k a v m = rw lookup-insert (ground (arith, eq_iff k a))

-- One turn of the first loop, seen from one address.
lookup_credit :
    (a : String) (o : TxOut) (m : Map String Int64)
    → lookup a (if o.addr == "" then m else add_balance o.addr o.value m)
      ≡ (if pays a o then some (add64 (get_or (lookup a m) 0) o.value) else lookup a m)
lookup_credit a o m = elim (Bool-cases (o.addr == "")) [
  | inl e ↦ rw e
  | inr e ↦ rw (e, lookup-add_balance)
]

lookup_debit :
    (a : String) (i : TxOut) (m : Map String Int64)
    → lookup a (if i.addr == "" then m else sub_balance i.addr i.value m)
      ≡ (if pays a i then some (sub64 (get_or (lookup a m) 0) i.value) else lookup a m)
lookup_debit a i m = elim (Bool-cases (i.addr == "")) [
  | inl e ↦ rw e
  | inr e ↦ rw (e, lookup-sub_balance)
]

merge_credit :
    (b c : Bool) (o : Option Int64) (v t : Int64)
    → t ≡ (if c then t else 0)
    → (if c
        then some (add64 (get_or (if b then some (add64 (get_or o 0) v) else o) 0) t)
        else (if b then some (add64 (get_or o 0) v) else o))
      ≡ (if b || c then some (add64 (get_or o 0) (if b then add64 v t else t)) else o)
merge_credit b c o v t h = ground arith

merge_debit :
    (b c : Bool) (o : Option Int64) (v t : Int64)
    → t ≡ (if c then t else 0)
    → (if c
        then some (sub64 (get_or (if b then some (sub64 (get_or o 0) v) else o) 0) t)
        else (if b then some (sub64 (get_or o 0) v) else o))
      ≡ (if b || c then some (sub64 (get_or o 0) (if b then add64 v t else t)) else o)
merge_debit b c o v t h = ground arith

pub total_if_mentions :
    (a : String) (os : List TxOut) → total a os ≡ (if mentions a os then total a os else 0)
total_if_mentions a [] = refl
total_if_mentions a (o ∷ os) = ground (arith, total_if_mentions a os)

lookup-add_outputs :
    (a : String) (os : List TxOut) (m : Map String Int64)
    → lookup a (add_outputs os m)
      ≡ (if mentions a os then some (add64 (get_or (lookup a m) 0) (total a os)) else lookup a m)
unfolding add_outputs
lookup-add_outputs a [] m = refl
lookup-add_outputs a (o ∷ os) m =
    rw
      (
        lookup-add_outputs a os (if o.addr == "" then m else add_balance o.addr o.value m),
        lookup_credit,
      )
      (merge_credit (pays a o) (mentions a os) (lookup a m) o.value (total a os)
        (total_if_mentions a os))

lookup-sub_inputs :
    (a : String) (is : List TxOut) (m : Map String Int64)
    → lookup a (sub_inputs is m)
      ≡ (if mentions a is then some (sub64 (get_or (lookup a m) 0) (total a is)) else lookup a m)
unfolding sub_inputs
lookup-sub_inputs a [] m = refl
lookup-sub_inputs a (i ∷ is) m =
    rw
      (
        lookup-sub_inputs a is (if i.addr == "" then m else sub_balance i.addr i.value m),
        lookup_debit,
      )
      (merge_debit (pays a i) (mentions a is) (lookup a m) i.value (total a is)
        (total_if_mentions a is))

add_outputs-Unique : (os : List TxOut) (m : Map String Int64) → Unique m → Unique (add_outputs os m)
unfolding add_outputs
add_outputs-Unique [] m u = u
add_outputs-Unique (o ∷ os) m u = elim (Bool-cases (o.addr == "")) [
  | inl e ↦ rw e (add_outputs-Unique os m u)
  | inr e ↦ rw e (add_outputs-Unique os (add_balance o.addr o.value m) (insert-Unique o.addr _ m u))
]

sub_inputs-Unique : (is : List TxOut) (m : Map String Int64) → Unique m → Unique (sub_inputs is m)
unfolding sub_inputs
sub_inputs-Unique [] m u = u
sub_inputs-Unique (i ∷ is) m u = elim (Bool-cases (i.addr == "")) [
  | inl e ↦ rw e (sub_inputs-Unique is m u)
  | inr e ↦ rw e (sub_inputs-Unique is (sub_balance i.addr i.value m) (insert-Unique i.addr _ m u))
]

pub address_balances-Unique : (t : Tx) → Unique (address_balances t)
unfolding address_balances
address_balances-Unique t = sub_inputs-Unique t.ins _ (add_outputs-Unique t.outs [] tt)

-- Each address that an output or an input of the transaction belongs to has one balance change, its
-- outputs less its inputs modulo 2^64; no other address has one, and neither has the empty address.
pub lookup-address_balances :
    (a : String) (t : Tx)
    → lookup a (address_balances t) ≡ (if touches a t then some (delta a t) else none)
unfolding address_balances lookup
lookup-address_balances a t =
    rw (lookup-sub_inputs a t.ins (add_outputs t.outs []), lookup-add_outputs a t.outs [])
      (ground (arith, total_if_mentions a t.ins, total_if_mentions a t.outs))
