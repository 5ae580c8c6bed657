-- ===== src/BlockQueue.antt =====
-- primitives/block_queue.go: a queue of blocks with, for the queued blocks, the balance change and
-- the transactions of every address and an index of the transactions by hash.
-- An operation that may panic returns an `Option`.
pub mod Views
pub mod Turns
pub mod Blocks
pub mod Operations
pub mod Index
pub mod Refinement
pub mod Transactions
pub mod TxIndex
pub mod Runs
use gobalance.Common.{
  eqb, if◌then◌else◌, ◌>>=◌, length, Map, get_or, lookup, delete, insert, Int64, add64, sub64,
  nat_key, string_key, ℕ, String, Bool, true, false, Option, none, some, List, [], ◌∷◌,
}
use gobalance.Deque.{Deque}
use gobalance.Primitives.{Hash, Tx, Block, RangeOrder, for_each_address}
use gobalance.Primitives.Visits.{each_tx}

pub record TxBlock : Type 0 where
  pub tx : Tx
  pub block : Block

pub record BlockQueue (d : Deque) : Type 0 where
  pub blocks : d.Queue Block
  pub addr_balance : Map String Int64
  pub addr_tx : Map String (d.Queue Tx)
  pub tx_index : Map Hash TxBlock

-- addrBalance[address] = balance, or its deletion where the balance is 0
unfoldable pub set_balance : String → Int64 → Map String Int64 → Map String Int64
set_balance address balance m = if eqb balance 0 then delete address m else insert address balance m

-- the loop of `blockUpdateTxIndex`
unfoldable pub update_tx_index : Block → Bool → List Tx → Map Hash TxBlock → Map Hash TxBlock
update_tx_index block reverse [] m = m
update_tx_index block reverse (t ∷ ts) m =
    update_tx_index block reverse ts
      (if reverse then delete t.hash m else insert t.hash (record { tx = t; block = block }) m)

module _ (d : Deque) where
  unfoldable pub new_block_queue : BlockQueue d
  new_block_queue = record { blocks = d.new; addr_balance = []; addr_tx = []; tx_index = [] }

  unfoldable pub add_address : String → Int64 → Tx → BlockQueue d → Option (BlockQueue d)
  add_address address balance tx b = some (record b {
    addr_tx = insert address (d.push_back tx (get_or (lookup address b.addr_tx) d.new)) b.addr_tx;
    addr_balance =
        set_balance address (add64 (get_or (lookup address b.addr_balance) 0) balance)
          b.addr_balance;
  })

  -- the rest of `delAddress`, with the queue of the address after its `PopFront`
  unfoldable pub del_from : d.Queue Tx → String → Int64 → BlockQueue d → BlockQueue d
  del_from rest address balance b = record b {
    addr_tx =
        if eqb (d.len rest) 0 then delete address b.addr_tx else insert address rest b.addr_tx;
    addr_balance =
        set_balance address (sub64 (get_or (lookup address b.addr_balance) 0) balance)
          b.addr_balance;
  }

  -- `addrTx[address]` is nil for an address that is not indexed, and its `PopFront` panics.
  unfoldable pub del_address : String → Int64 → Tx → BlockQueue d → Option (BlockQueue d)
  unfolding del_from
  del_address address balance tx b = elim (lookup address b.addr_tx) [
    | none ↦ none
    | some q ↦ some (del_from (d.pop_front q).1 address balance b)
  ]

  unfoldable pub block_update_address :
      RangeOrder → Block → Bool → BlockQueue d → Option (BlockQueue d)
  block_update_address order block reverse =
      each_tx
        (λ t.
          if reverse
          then for_each_address order del_address t
          else for_each_address order add_address t)
        block.transactions

  unfoldable pub block_update_tx_index : Block → Bool → BlockQueue d → BlockQueue d
  unfolding update_tx_index
  block_update_tx_index block reverse b = record b {
    tx_index = update_tx_index block reverse block.transactions b.tx_index;
  }

  unfoldable pub push_back : RangeOrder → Block → BlockQueue d → Option (BlockQueue d)
  push_back order block b = do
    b' ← block_update_address order block false (record b { blocks = d.push_back block b.blocks })
    some (block_update_tx_index block false b')

  unfoldable pub push_front : RangeOrder → Block → BlockQueue d → Option (BlockQueue d)
  push_front order block b = do
    b' ← block_update_address order block false (record b { blocks = d.push_front block b.blocks })
    some (block_update_tx_index block false b')

  -- what `PopBack` and `PopFront` do with the block that leaves the queue
  unfoldable pub unindex :
      RangeOrder → Option Block → BlockQueue d → Option (Option Block × BlockQueue d)
  unindex order none b = some (none, b)
  unindex order (some block) b = do
    b' ← block_update_address order block true b
    some (some block, block_update_tx_index block true b')

  unfoldable pub pop_back : RangeOrder → BlockQueue d → Option (Option Block × BlockQueue d)
  unfolding unindex
  pop_back order b =
      unindex order (d.pop_back b.blocks).0 (record b { blocks = (d.pop_back b.blocks).1 })

  unfoldable pub pop_front : RangeOrder → BlockQueue d → Option (Option Block × BlockQueue d)
  unfolding unindex
  pop_front order b =
      unindex order (d.pop_front b.blocks).0 (record b { blocks = (d.pop_front b.blocks).1 })

  -- `Front` reads the back of the queue.
  unfoldable pub front : BlockQueue d → Option Block
  front b = d.back b.blocks

  unfoldable pub back : BlockQueue d → Option Block
  back b = d.back b.blocks

  -- `none` where `ok` is false
  unfoldable pub get_balance : String → BlockQueue d → Option Int64
  get_balance address b = lookup address b.addr_balance

  unfoldable pub get_tx : String → BlockQueue d → List Tx
  get_tx address b = elim (lookup address b.addr_tx) [ none ↦ [] | some q ↦ d.items q ]

  unfoldable pub len : BlockQueue d → ℕ
  len b = d.len b.blocks

  unfoldable pub tx_count : BlockQueue d → ℕ
  tx_count b = length b.tx_index

  unfoldable pub tx : Hash → BlockQueue d → Option TxBlock
  tx hash b = lookup hash b.tx_index
