-- ===== src/Primitives.antt =====
-- primitives/primitives.go: blocks, transactions and transaction outputs, and the balance changes
-- that a transaction makes. Hashes are the 256-bit numbers that their bytes spell. Pointers to
-- transactions and outputs are values here: the code changes an output only while it builds its
-- block, before the block is shared.
pub mod Deltas
pub mod Values
pub mod Visits
use gobalance.Common.{
  eqb, if◌then◌else◌, Map, get_or, lookup, insert, Unique, Enumerates, run_entries, Int64, add64,
  sub64, ◌==◌, nat_key, string_key, ℕ, ◌-◌, ◌^◌, String, Bool, false, ◌&&◌, Option, List, [], ◌∷◌,
  ◌++◌,
}

abbrev pub Hash : Type 0
Hash = ℕ

abbrev pub zero_hash : Hash
zero_hash = 0

abbrev pub max_uint32 : ℕ
max_uint32 = 2 ^ 32 - 1

pub record TxOut : Type 0 where
  pub tx_hash : Hash
  pub nout : ℕ
  pub addr : String
  pub value : Int64

pub record Tx : Type 0 where
  pub hash : Hash
  pub ins : List TxOut
  pub outs : List TxOut

pub record Block : Type 0 where
  pub hash : Hash
  pub prev_hash : Hash
  pub height : ℕ
  pub transactions : List Tx

unfoldable pub new_block : Hash → Hash → ℕ → Block
new_block hash prev height = record {
  hash = hash;
  prev_hash = prev;
  height = height;
  transactions = [];
}

unfoldable pub add_tx : Tx → Block → Block
add_tx tx b = record b { transactions = b.transactions ++ tx ∷ [] }

unfoldable pub new_tx : Hash → Tx
new_tx hash = record { hash = hash; ins = []; outs = [] }

unfoldable pub add_in : TxOut → Tx → Tx
add_in i t = record t { ins = t.ins ++ i ∷ [] }

unfoldable pub add_out : TxOut → Tx → Tx
add_out o t = record t { outs = t.outs ++ o ∷ [] }

unfoldable pub new_tx_out : Hash → ℕ → String → Int64 → TxOut
new_tx_out tx_hash nout address value = record {
  tx_hash = tx_hash;
  nout = nout;
  addr = address;
  value = value;
}

-- the tests of `IsCoinBase` on the list of inputs
unfoldable pub is_coin_base_in : List TxOut → Bool
is_coin_base_in (i ∷ []) = eqb i.tx_hash zero_hash && eqb i.nout max_uint32
is_coin_base_in _ = false

unfoldable pub is_coin_base : Tx → Bool
unfolding is_coin_base_in
is_coin_base t = is_coin_base_in t.ins

-- balance[addr] += value, where a missing entry counts as 0
unfoldable pub add_balance : String → Int64 → Map String Int64 → Map String Int64
add_balance addr value m = insert addr (add64 (get_or (lookup addr m) 0) value) m

unfoldable pub sub_balance : String → Int64 → Map String Int64 → Map String Int64
sub_balance addr value m = insert addr (sub64 (get_or (lookup addr m) 0) value) m

-- the two loops of `ForEachAddress`
unfoldable pub add_outputs : List TxOut → Map String Int64 → Map String Int64
unfolding add_balance
add_outputs [] m = m
add_outputs (o ∷ os) m = add_outputs os (if o.addr == "" then m else add_balance o.addr o.value m)

unfoldable pub sub_inputs : List TxOut → Map String Int64 → Map String Int64
unfolding sub_balance
sub_inputs [] m = m
sub_inputs (i ∷ is) m = sub_inputs is (if i.addr == "" then m else sub_balance i.addr i.value m)

unfoldable pub address_balances : Tx → Map String Int64
address_balances t = sub_inputs t.ins (add_outputs t.outs [])

-- The order in which the `range` of `ForEachAddress` meets the entries of a map: Go fixes none,
-- and it may differ from one transaction to the next.
abbrev pub RangeOrder : Type 0
RangeOrder = Tx → Map String Int64 → Map String Int64

abbrev pub IsRangeOrder : RangeOrder → Type 0
IsRangeOrder order = (t : Tx) (m : Map String Int64) → Unique m → Enumerates (order t m) m

-- The callback may change a state and may panic.
module _ {S : Type 0} where
  unfoldable pub for_each_address :
      RangeOrder → (String → Int64 → Tx → S → Option S) → Tx → S → Option S
  for_each_address order act t s =
      run_entries (λ addr bal. act addr bal t) (order t (address_balances t)) s
