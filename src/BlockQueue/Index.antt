-- ===== src/BlockQueue/Index.antt =====
-- primitives/block_queue.go against a list of blocks: how the view of an address follows the list
-- when a block joins or leaves it at either end.
use gobalance.Common.{
  length, length-append, length-drop, filter-append, add64_comm, ◌≤◌, String, ◌≡◌, refl, sym, ap,
  List, [], ◌∷◌, ◌++◌, append-nil, append_assoc, arith,
}
use gobalance.Primitives.{Block}
use gobalance.BlockQueue.Views.{View, net, history, block_txs}
use gobalance.BlockQueue.Blocks.{credited, debited, net-lt-size, net-append}

pub block_txs-append : (bs cs : List Block) → block_txs (bs ++ cs) ≡ block_txs bs ++ block_txs cs
block_txs-append [] cs = refl
block_txs-append (b ∷ bs) cs =
    rw (block_txs-append bs cs) (sym (append_assoc b.transactions (block_txs bs) (block_txs cs)))

pub block_txs-append_one :
    (bs : List Block) (b : Block) → block_txs (bs ++ b ∷ []) ≡ block_txs bs ++ b.transactions
block_txs-append_one bs b = rw (block_txs-append, append-nil)

-- The view of an address has the balance change of the queued blocks, and as many transactions as
-- they have for the address.
pub record Counts (a : String) (bs : List Block) (v : View) : Type 0 where
  pub balance : v.balance ≡ net a (block_txs bs)
  pub count : length v.txs ≡ length (history a (block_txs bs))

module _ (a : String) (bs : List Block) (block : Block) (v : View) where
  pub credited_back : Counts a bs v → Counts a (bs ++ block ∷ []) (credited a block.transactions v)
  credited_back c = record {
    balance = rw (block_txs-append_one, net-append, c.balance);
    count =
        rw (block_txs-append_one, filter-append, length-append v.txs, c.count)
          (sym (length-append (history a (block_txs bs)) (history a block.transactions)));
  }

  pub credited_front : Counts a bs v → Counts a (block ∷ bs) (credited a block.transactions v)
  credited_front c = record {
    balance = rw (net-append, c.balance) (add64_comm _ _);
    count =
        rw
          (
            filter-append,
            length-append v.txs,
            length-append (history a block.transactions),
            c.count,
          )
          (omega arith);
  }

  pub debited_front : Counts a (block ∷ bs) v → Counts a bs (debited a block.transactions v)
  debited_front c =
      let old = block_txs bs in
      record {
        balance = omega (
          arith,
          c.balance,
          net-append a block.transactions old,
          net-lt-size a block.transactions,
          net-lt-size a old,
        );
        count = rw (length-drop, c.count, filter-append, length-append) (omega arith);
      }

  pub debited_back : Counts a (bs ++ block ∷ []) v → Counts a bs (debited a block.transactions v)
  debited_back c =
      let old = block_txs bs in
      let e = block_txs-append_one bs block in
      record {
        balance = omega (
          arith,
          c.balance,
          ap (net a) e,
          net-append a old block.transactions,
          net-lt-size a block.transactions,
          net-lt-size a old,
        );
        count = rw (length-drop, c.count, e, filter-append, length-append) (omega arith);
      }

  pub enough_front : Counts a (block ∷ bs) v → length (history a block.transactions) ≤ length v.txs
  enough_front c = rw (c.count, filter-append, length-append) (omega arith)

  pub enough_back :
      Counts a (bs ++ block ∷ []) v → length (history a block.transactions) ≤ length v.txs
  enough_back c = rw (c.count, block_txs-append_one, filter-append, length-append) (omega arith)
