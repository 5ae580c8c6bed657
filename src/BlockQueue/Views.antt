-- ===== src/BlockQueue/Views.antt =====
-- primitives/block_queue.go, seen from one address: its balance change and its queue of
-- transactions, and what indexing and unindexing a block do to them.
use gobalance.Common.{
  eqb, if◌then◌else◌, tail, filter, is_some, lookup, Int64, add64, sub64, nat_key, string_key,
  String, ◌≡◌, Bool, Option, none, some, List, [], ◌∷◌, ◌++◌,
}
use gobalance.Deque.{Deque}
use gobalance.Primitives.{Tx, Block}
use gobalance.Primitives.Deltas.{delta, touches}
use gobalance.BlockQueue.{BlockQueue}

pub record View : Type 0 where
  pub balance : Int64
  pub txs : List Tx

-- A balance of 0 is not stored.
abbrev pub nonzero : Int64 → Option Int64
nonzero n = if eqb n 0 then none else some n

-- An empty queue is not stored.
abbrev pub nonempty : List Tx → Option (List Tx)
nonempty [] = none
nonempty (t ∷ ts) = some (t ∷ ts)

abbrev pub has_txs : View → Bool
has_txs v = is_some (nonempty v.txs)

abbrev pub credit : Tx → Int64 → View → View
credit t n v = record { balance = add64 v.balance n; txs = v.txs ++ t ∷ [] }

abbrev pub debit : Tx → Int64 → View → View
debit t n v = record { balance = sub64 v.balance n; txs = tail v.txs }

module _ (d : Deque) where
  abbrev pub stored : Option (d.Queue Tx) → Option (List Tx)
  stored none = none
  stored (some q) = some (d.items q)

  -- The queue `b` has the view `v` of the address, and the blocks and the index of `base`.
  pub record Shows (base : BlockQueue d) (a : String) (b : BlockQueue d) (v : View) : Type 0 where
    pub balance : lookup a b.addr_balance ≡ nonzero v.balance
    pub txs : stored (lookup a b.addr_tx) ≡ nonempty v.txs
    pub same_blocks : b.blocks ≡ base.blocks
    pub same_index : b.tx_index ≡ base.tx_index

-- The balance change that a list of transactions makes to an address.
abbrev pub net : String → List Tx → Int64
net a [] = 0
net a (t ∷ ts) = if touches a t then add64 (delta a t) (net a ts) else net a ts

-- The transactions of a list of blocks that touch an address.
abbrev pub history : String → List Tx → List Tx
history a ts = filter (touches a) ts

abbrev pub block_txs : List Block → List Tx
block_txs [] = []
block_txs (block ∷ bs) = block.transactions ++ block_txs bs
