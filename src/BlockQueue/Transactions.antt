-- ===== src/BlockQueue/Transactions.antt =====
-- primitives/block_queue.go: `GetTx` of an address.
use gobalance.Common.{
  length, drop, head?, tail, last?, length-append, drop-length-append, last?-append_one,
  filter-append, Map, lookup, Refines, nat_key, string_key, String, ◌≡◌, refl, ap, ◌∙◌, subst,
  Option, none, some, List, [], ◌∷◌, ◌++◌, arith,
}
use gobalance.Deque.{Deque}
use gobalance.Primitives.{Hash, Tx, Block, RangeOrder, IsRangeOrder}
use gobalance.BlockQueue.{
  BlockQueue, TxBlock, push_back, pop_back, pop_front, get_tx, new_block_queue,
}
use gobalance.BlockQueue.Views.{View, Shows, nonempty, stored, net, history, block_txs}
use gobalance.BlockQueue.Blocks.{credited, debited, net-lt-size, net-append}
use gobalance.BlockQueue.Operations.{
  Becomes, push_back-Becomes, pop_back-Becomes, pop_front-Becomes,
}
use gobalance.BlockQueue.Index.{block_txs-append_one}

-- The balance change and the transactions of the blocks, oldest first.
abbrev pub exact : List Block → String → View
exact bs a = record { balance = net a (block_txs bs); txs = history a (block_txs bs) }

View-eq : (v w : View) → v.balance ≡ w.balance → v.txs ≡ w.txs → v ≡ w
View-eq v w p q = λ i. record { balance = p i; txs = q i }

exact_back :
    (bs : List Block) (block : Block) (a : String)
    → credited a block.transactions (exact bs a) ≡ exact (bs ++ block ∷ []) a
exact_back bs block a =
    View-eq _ _ (rw (block_txs-append_one, net-append)) (rw (block_txs-append_one, filter-append))

exact_front :
    (bs : List Block) (block : Block) (a : String)
    → debited a block.transactions (exact (block ∷ bs) a) ≡ exact bs a
exact_front bs block a =
    View-eq _ _
      (omega (
        arith,
        net-append a block.transactions (block_txs bs),
        net-lt-size a block.transactions,
        net-lt-size a (block_txs bs),
      ))
      (rw filter-append (drop-length-append (history a block.transactions) _))

module _ (d : Deque) where
  -- The queue holds these blocks, and shows their transactions of an address in order.
  pub record InOrder (b : BlockQueue d) (bs : List Block) : Type 0 where
    pub queued : d.items b.blocks ≡ bs
    pub shows : Refines (Shows d b) b (exact bs)

  pub new_block_queue-InOrder : InOrder (new_block_queue d) []
  unfolding new_block_queue lookup
  new_block_queue-InOrder = record {
    queued = d.items-new;
    shows = λ a. record { balance = refl; txs = refl; same_blocks = refl; same_index = refl };
  }

  in_order :
      {b : BlockQueue d} {bs : List Block} {view : String → View} {txs : Map Hash TxBlock}
      (cs : List Block)
      → Becomes d b bs view txs
      → bs ≡ cs
      → ((a : String) → view a ≡ exact cs a)
      → InOrder b cs
  in_order {b} cs become e same = record {
    queued = become.blocks ∙ e;
    shows = λ a. subst (Shows d b a b) (same a) (become.shows a);
  }

  pub get_tx_of_Shows :
      (a : String) (b : BlockQueue d) (v : View) → Shows d b a b v → get_tx d a b ≡ v.txs
  unfolding get_tx
  get_tx_of_Shows a b v s = go (lookup a b.addr_tx) v.txs s.txs
    where
      go :
          (o : Option (d.Queue Tx)) (ts : List Tx)
          → stored d o ≡ nonempty ts
          → elim o [ none ↦ [] | some q ↦ d.items q ] ≡ ts
      go none [] h = refl
      go none (t ∷ ts) h = cc
      go (some q) [] h = cc
      go (some q) (t ∷ ts) h = cc

  -- `GetTx` of a queue in order: the transactions of the queued blocks that touch the address,
  -- each once, oldest first.
  pub get_tx-InOrder :
      (b : BlockQueue d) (bs : List Block) (a : String)
      → InOrder b bs
      → get_tx d a b ≡ history a (block_txs bs)
  get_tx-InOrder b bs a x = get_tx_of_Shows a b (exact bs a) (x.shows a)

  module _ (order : RangeOrder) (ranges : IsRangeOrder order) (b : BlockQueue d) (bs : List Block)
      (block : Block) where
    -- `PushBack` on a queue in order does not panic, and leaves a queue in order with the block at
    -- its end.
    pub push_back-InOrder :
        InOrder b bs
        → (b' : BlockQueue d) × (push_back d order block b ≡ some b')
          × InOrder b' (bs ++ block ∷ [])
    push_back-InOrder x =
        let (b', ran, become) =
          push_back-Becomes d order ranges block b (exact bs) x.shows
            (λ a. net-lt-size a (block_txs bs)) in
        (
          b',
          ran,
          in_order _ become (ap (λ (l : List Block). l ++ block ∷ []) x.queued)
              (exact_back bs block),
        )

    -- `PopFront` of a queue in order that is not empty returns its first block and leaves the
    -- others in order; it does not panic.
    pub pop_front-InOrder :
        InOrder b (block ∷ bs)
        → (b' : BlockQueue d) × (pop_front d order b ≡ some (some block, b')) × InOrder b' bs
    pop_front-InOrder x =
        let (b', ran, become) =
          pop_front-Becomes d order ranges block b (exact (block ∷ bs)) x.shows
            (λ a. net-lt-size a (block_txs (block ∷ bs)))
            (λ a. rw (filter-append, length-append) (omega arith)) (ap head? x.queued) in
        (b', ran, in_order bs become (ap tail x.queued) (exact_front bs block))

    -- After `PopBack` of a queue in order, `GetTx` of an address has lost as many transactions as
    -- the removed block has for it, but the oldest ones of the queue and not those of the block.
    pub get_tx-pop_back :
        InOrder b (bs ++ block ∷ [])
        → (b' : BlockQueue d) × (pop_back d order b ≡ some (some block, b'))
          × ((a : String)
              → get_tx d a b'
                ≡ drop
                    (length (history a block.transactions))
                    (history a (block_txs bs) ++ history a block.transactions))
    get_tx-pop_back x =
        let (b', ran, become) =
          pop_back-Becomes d order ranges block b (exact (bs ++ block ∷ [])) x.shows
            (λ a. net-lt-size a (block_txs (bs ++ block ∷ [])))
            (λ a. rw (block_txs-append_one, filter-append, length-append) (omega arith))
            (ap last? x.queued ∙ last?-append_one bs block) in
        (
          b',
          ran,
          λ a. get_tx_of_Shows a b' _ (become.shows a) ∙ rw (block_txs-append_one, filter-append),
        )

    -- A transaction of the removed block is still returned for an address that one earlier
    -- transaction or more touched, and the oldest of those is returned no more.
    pub get_tx-pop_back_stale :
        (a : String) (removed oldest : Tx) (others : List Tx)
        → InOrder b (bs ++ block ∷ [])
        → history a block.transactions ≡ removed ∷ []
        → history a (block_txs bs) ≡ oldest ∷ others
        → (b' : BlockQueue d) × (pop_back d order b ≡ some (some block, b'))
          × (get_tx d a b' ≡ others ++ removed ∷ [])
    get_tx-pop_back_stale a removed oldest others x one some_before =
        let (b', ran, after) = get_tx-pop_back x in (b', ran, after a ∙ rw (one, some_before))
