-- ===== src/BlockQueue/Runs/Window.antt =====
-- primitives/block_queue.go: a window of blocks, which come in at the back and go out at the front.
-- Pushes at the back, of blocks with transaction hashes that are new in the window, and pops at the
-- front.
use gobalance.Common.{
  Bool-cases, of-some, head?, tail, is_some, lookup, string_key, nat_key, String, ◌≡◌, refl, sym,
  ap, ◌∙◌, subst, inl, inr, Option, none, some, List, [], ◌∷◌, ◌++◌, arith,
}
use gobalance.BlockQueue.Transactions.{
  new_block_queue-InOrder, exact, pop_front-InOrder, InOrder, get_tx-InOrder, push_back-InOrder,
}
use gobalance.Primitives.{RangeOrder, Block, Hash, IsRangeOrder}
use gobalance.BlockQueue.TxIndex.{
  find_tx-append_one, tx-pop_front, IsFresh, find_in, find_tx, IndexesTx, or_else, tx-push_back,
}
use gobalance.BlockQueue.Runs.{
  Call, run, call_push_front, pushed_on, call_pop_front, call_pop_back, replay, popped_on,
  call_push_back,
}
use gobalance.Deque.{Deque}
use gobalance.BlockQueue.Views.{net, nonzero, history, block_txs}
use gobalance.BlockQueue.Refinement.{get_balance-Indexes, Indexes}
use gobalance.BlockQueue.{
  get_balance, push_back, pop_front, new_block_queue, tx, unindex, get_tx, BlockQueue, TxBlock,
}

abbrev pub IsWindow : List Call → List Block → Type 0
IsWindow [] bs = Unit
IsWindow (call_push_back block ∷ cs) bs = IsFresh block bs × IsWindow cs (bs ++ block ∷ [])
IsWindow (call_pop_front ∷ cs) bs = IsWindow cs (tail bs)
IsWindow (call_push_front block ∷ cs) bs = ⊥
IsWindow (call_pop_back ∷ cs) bs = ⊥

-- No two blocks share a transaction hash.
unfoldable AllFresh : List Block → Type 0
AllFresh [] = Unit
AllFresh (block ∷ bs) = IsFresh block bs × AllFresh bs

or_else-none : (p q : Option TxBlock) → or_else p q ≡ none → (p ≡ none) × (q ≡ none)
or_else-none none q h = (refl, h)
or_else-none (some x) q h = absurd (ground (arith, h))

IsFresh-append_one :
    (block new : Block) (bs : List Block)
    → IsFresh block bs
    → IsFresh new (block ∷ bs)
    → IsFresh block (bs ++ new ∷ [])
IsFresh-append_one block new bs fresh later h found =
    elim (Bool-cases (is_some (find_in h new new.transactions))) [
      | inl shared ↦
          let (here, _) =
            or_else-none (find_in h block block.transactions) (find_tx h bs) (later h shared) in
          absurd (ground (arith, here, found))
      | inr apart ↦ rw (find_tx-append_one h bs new, fresh h found) (ground (arith, apart))
    ]

AllFresh-append_one :
    (bs : List Block) (new : Block) → AllFresh bs → IsFresh new bs → AllFresh (bs ++ new ∷ [])
unfolding AllFresh
AllFresh-append_one [] new all fresh = ((λ h found. refl), tt)
AllFresh-append_one (block ∷ bs) new all fresh = (
  IsFresh-append_one block new bs all.0 fresh,
  AllFresh-append_one bs new all.1 (λ h found.
      (or_else-none (find_in h block block.transactions) (find_tx h bs) (fresh h found)).1),
)

module _ (d : Deque) where
  -- All that the queue shows is as in these blocks.
  record Agrees (b : BlockQueue d) (bs : List Block) : Type 0 where
    in_order : InOrder d b bs
    by_hash : IndexesTx d b bs
    fresh : AllFresh bs

  InOrder-Indexes : (b : BlockQueue d) (bs : List Block) → InOrder d b bs → Indexes d b bs
  InOrder-Indexes b bs x = record {
    queued = x.queued;
    view = exact bs;
    shows = x.shows;
    counts = λ a. record { balance = refl; count = refl };
  }

  module _ (order : RangeOrder) (ranges : IsRangeOrder order) where
    push_back-Agrees :
        (block : Block) (b : BlockQueue d) (bs : List Block)
        → Agrees b bs
        → IsFresh block bs
        → (b' : BlockQueue d) × (push_back d order block b ≡ some b') × Agrees b' (bs ++ block ∷ [])
    push_back-Agrees block b bs x fresh =
        let (b', ran, y) = push_back-InOrder d order ranges b bs block x.in_order in
        let (b'', ran', _, z) =
          tx-push_back d order ranges block b bs fresh (InOrder-Indexes b bs x.in_order)
            x.by_hash in
        (
          b',
          ran,
          record {
            in_order = y;
            by_hash = subst (λ q. IndexesTx d q (bs ++ block ∷ [])) (of-some (sym ran' ∙ ran)) z;
            fresh = AllFresh-append_one bs block x.fresh fresh;
          },
        )

    pop_empty :
        (b : BlockQueue d)
        → Agrees b []
        → (b' : BlockQueue d) × (pop_front d order b ≡ some (none, b')) × Agrees b' []
    unfolding pop_front unindex tx
    pop_empty b x = (
      record b { blocks = (d.pop_front b.blocks).1 },
      rw (d.pop_front_lem b.blocks, (x.in_order).queued),
      record {
        in_order = record {
          queued = d.items-pop_front b.blocks ∙ ap tail (x.in_order).queued;
          shows = λ a. record {
            balance = ((x.in_order).shows a).balance;
            txs = ((x.in_order).shows a).txs;
            same_blocks = refl;
            same_index = refl;
          };
        };
        by_hash = x.by_hash;
        fresh = x.fresh;
      },
    )

    pop_front-Agrees :
        (b : BlockQueue d) (bs : List Block)
        → Agrees b bs
        → (b' : BlockQueue d) × (pop_front d order b ≡ some (head? bs, b')) × Agrees b' (tail bs)
    pop_front-Agrees b [] x = pop_empty b x
    pop_front-Agrees b (block ∷ bs) x =
        let (b', ran, y) = pop_front-InOrder d order ranges b bs block x.in_order in
        let (b'', ran', _, z) =
          tx-pop_front d order ranges block b bs (unfold AllFresh in (x.fresh).0)
            (InOrder-Indexes b (block ∷ bs) x.in_order) x.by_hash in
        (
          b',
          ran,
          record {
            in_order = y;
            by_hash =
                subst (λ q. IndexesTx d q bs)
                  (ap (λ (p : Option Block × BlockQueue d). p.1) (of-some (sym ran' ∙ ran))) z;
            fresh = unfold AllFresh in (x.fresh).1;
          },
        )

    run-Agrees :
        (cs : List Call) (b : BlockQueue d) (bs : List Block)
        → Agrees b bs
        → IsWindow cs bs
        → (b' : BlockQueue d) × (run d order cs b ≡ some ((replay cs bs).0, b'))
          × Agrees b' (replay cs bs).1
    unfolding run
    run-Agrees [] b bs x w = (b, refl, x)
    run-Agrees (call_push_back block ∷ cs) b bs x w =
        let (b', ran, y) = push_back-Agrees block b bs x w.0 in
        let (last_b, rest, z) = run-Agrees cs b' (bs ++ block ∷ []) y w.1 in
        (last_b, pushed_on d order b b' (push_back d order block b) cs _ ran rest, z)
    run-Agrees (call_pop_front ∷ cs) b bs x w =
        let (b', ran, y) = pop_front-Agrees b bs x in
        let (last_b, rest, z) = run-Agrees cs b' (tail bs) y w in
        (last_b, popped_on d order (head? bs) b' (pop_front d order b) cs _ last_b ran rest, z)
    run-Agrees (call_push_front block ∷ cs) b bs x w = absurd w
    run-Agrees (call_pop_back ∷ cs) b bs x w = absurd w

    -- Pushes at the back of a new queue, of blocks with transaction hashes that are new in the
    -- queue, and pops at the front do not panic, and the pops return the blocks in the order that
    -- they came in, or nil where there is none. After them GetBalance of an address is the sum of
    -- the balance changes that the transactions of the blocks still there make to it, modulo 2^64,
    -- and not found if that is 0; GetTx of it is those of their transactions that touch it, each
    -- once, oldest first; and Tx finds their transactions, each with its block, and no others.
    pub run_as_window :
        (cs : List Call)
        → IsWindow cs []
        → let (popped, bs) = replay cs [] in
          (b : BlockQueue d) × (run d order cs (new_block_queue d) ≡ some (popped, b))
          × ((a : String)
              → (get_balance d a b ≡ nonzero (net a (block_txs bs)))
                × (get_tx d a b ≡ history a (block_txs bs)))
          × ((h : Hash) → tx d h b ≡ find_tx h bs)
    unfolding AllFresh tx new_block_queue lookup
    run_as_window cs w =
        let (b, ran, x) =
          run-Agrees cs (new_block_queue d) []
            (record { in_order = new_block_queue-InOrder d; by_hash = λ h. refl; fresh = tt }) w in
        let bs = (replay cs []).1 in
        (
          b,
          ran,
          λ a. (
            get_balance-Indexes d b bs a (InOrder-Indexes b bs x.in_order),
            get_tx-InOrder d b bs a x.in_order,
          ),
          x.by_hash,
        )
