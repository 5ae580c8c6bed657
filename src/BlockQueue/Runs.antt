-- ===== src/BlockQueue/Runs.antt =====
-- primitives/block_queue.go: sequences of pushes and pops from an empty queue, against a list of
-- blocks.
pub mod Window
use gobalance.BlockQueue.{get_balance, len}
use gobalance.Common.{
  ◌>>=◌, length, head?, tail, last?, drop_last, String, ◌≡◌, refl, ap, ◌∙◌, Option, some, List, [],
  ◌∷◌, ◌++◌,
}
use gobalance.BlockQueue.Refinement.{
  push_front-Indexes, len-Indexes, Indexes, get_balance-Indexes, new_block_queue-Indexes,
  pop_back-Indexes, pop_front-Indexes, push_back-Indexes,
}
use gobalance.BlockQueue.Views.{block_txs, net, history, nonzero}
use gobalance.BlockQueue.{
  new_block_queue, push_back, push_front, pop_front, BlockQueue, pop_back, get_tx,
}
use gobalance.BlockQueue.Transactions.{get_tx_of_Shows}
use gobalance.Primitives.{RangeOrder, IsRangeOrder, Block}
use gobalance.Deque.{Deque}

pub data Call : Type 0 where
  call_push_back call_push_front : Block → Call
  call_pop_back call_pop_front : Call

-- what the calls return and leave on a list of blocks
abbrev pub replay : List Call → List Block → List (Option Block) × List Block
replay [] bs = ([], bs)
replay (call_push_back block ∷ cs) bs = replay cs (bs ++ block ∷ [])
replay (call_push_front block ∷ cs) bs = replay cs (block ∷ bs)
replay (call_pop_back ∷ cs) bs =
    (last? bs ∷ (replay cs (drop_last bs)).0, (replay cs (drop_last bs)).1)
replay (call_pop_front ∷ cs) bs = (head? bs ∷ (replay cs (tail bs)).0, (replay cs (tail bs)).1)

module _ (d : Deque) (order : RangeOrder) where
  abbrev pub noting :
      Option Block → List (Option Block) × BlockQueue d → List (Option Block) × BlockQueue d
  noting x r = (x ∷ r.0, r.1)

  -- the same calls on a queue
  unfoldable pub run : List Call → BlockQueue d → Option (List (Option Block) × BlockQueue d)
  run [] b = some ([], b)
  run (call_push_back block ∷ cs) b = push_back d order block b >>= λ b'. run cs b'
  run (call_push_front block ∷ cs) b = push_front d order block b >>= λ b'. run cs b'
  run (call_pop_back ∷ cs) b = pop_back d order b >>= λ p. run cs p.1 >>= λ r. some (noting p.0 r)
  run (call_pop_front ∷ cs) b = pop_front d order b >>= λ p. run cs p.1 >>= λ r. some (noting p.0 r)

  pub pushed_on :
      (b b' : BlockQueue d) (o : Option (BlockQueue d)) (cs : List Call)
      (r : Option (List (Option Block) × BlockQueue d))
      → o ≡ some b'
      → run cs b' ≡ r
      → (o >>= λ q. run cs q) ≡ r
  pushed_on b b' o cs r ran rest = rw ran rest

  pub popped_on :
      (x : Option Block) (b' : BlockQueue d) (o : Option (Option Block × BlockQueue d))
      (cs : List Call) (xs : List (Option Block)) (last_b : BlockQueue d)
      → o ≡ some (x, b')
      → run cs b' ≡ some (xs, last_b)
      → (o >>= λ p. run cs p.1 >>= λ r. some (noting p.0 r)) ≡ some (x ∷ xs, last_b)
  popped_on x b' o cs xs last_b ran rest = rw (ran, rest) refl

  run-Indexes :
      (ranges : IsRangeOrder order) (cs : List Call) (b : BlockQueue d) (bs : List Block)
      → Indexes d b bs
      → (b' : BlockQueue d) × (run cs b ≡ some ((replay cs bs).0, b'))
        × Indexes d b' (replay cs bs).1
  unfolding run
  run-Indexes ranges [] b bs x = (b, refl, x)
  run-Indexes ranges (call_push_back block ∷ cs) b bs x =
      let (b', ran, y) = push_back-Indexes d order ranges b bs x block in
      let (last_b, rest, z) = run-Indexes ranges cs b' (bs ++ block ∷ []) y in
      (last_b, pushed_on b b' (push_back d order block b) cs _ ran rest, z)
  run-Indexes ranges (call_push_front block ∷ cs) b bs x =
      let (b', ran, y) = push_front-Indexes d order ranges b bs x block in
      let (last_b, rest, z) = run-Indexes ranges cs b' (block ∷ bs) y in
      (last_b, pushed_on b b' (push_front d order block b) cs _ ran rest, z)
  run-Indexes ranges (call_pop_back ∷ cs) b bs x =
      let (b', ran, y) = pop_back-Indexes d order ranges b bs x in
      let (last_b, rest, z) = run-Indexes ranges cs b' (drop_last bs) y in
      (last_b, popped_on (last? bs) b' (pop_back d order b) cs _ last_b ran rest, z)
  run-Indexes ranges (call_pop_front ∷ cs) b bs x =
      let (b', ran, y) = pop_front-Indexes d order ranges b bs x in
      let (last_b, rest, z) = run-Indexes ranges cs b' (tail bs) y in
      (last_b, popped_on (head? bs) b' (pop_front d order b) cs _ last_b ran rest, z)

  -- Any pushes and pops at both ends of a new queue do not panic, and the pops return what they
  -- return on a list of blocks, or nil where it is empty. After them the queue has the blocks of
  -- the list, Len is their number, GetBalance of an address is the sum of the balance changes that
  -- their transactions make to it, modulo 2^64, and not found if that is 0, and GetTx of it has as
  -- many transactions as they have for it.
  pub run_as_list :
      (ranges : IsRangeOrder order) (cs : List Call)
      → let (popped, bs) = replay cs [] in
        (b : BlockQueue d) × (run cs (new_block_queue d) ≡ some (popped, b))
        × (d.items b.blocks ≡ bs)
        × (len d b ≡ length bs)
        × ((a : String)
            → (get_balance d a b ≡ nonzero (net a (block_txs bs)))
              × (length (get_tx d a b) ≡ length (history a (block_txs bs))))
  run_as_list ranges cs =
      let (b, ran, x) = run-Indexes ranges cs (new_block_queue d) [] (new_block_queue-Indexes d) in
      let bs = (replay cs []).1 in
      (
        b,
        ran,
        x.queued,
        len-Indexes d b bs x,
        λ a. (
          get_balance-Indexes d b bs a x,
          ap length (get_tx_of_Shows d a b (x.view a) (x.shows a)) ∙ (x.counts a).count,
        ),
      )
