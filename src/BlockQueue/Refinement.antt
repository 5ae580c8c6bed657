-- ===== src/BlockQueue/Refinement.antt =====
-- primitives/block_queue.go against a list of blocks: the pushes and pops at both ends, and the
-- balance index.
use gobalance.Common.{
  Option-cases, length, head?, tail, last?, drop_last, eq-drop_last-append, Map, lookup, Refines,
  int64_size, nat_key, string_key, ◌<◌, String, ◌≡◌, refl, ap, ◌∙◌, subst, inl, inr, none, some,
  List, [], ◌∷◌, ◌++◌,
}
use gobalance.Deque.{Deque}
use gobalance.Primitives.{Hash, Block, RangeOrder, IsRangeOrder}
use gobalance.BlockQueue.{
  BlockQueue, TxBlock, new_block_queue, push_back, push_front, pop_back, pop_front, unindex,
  get_balance, len,
}
use gobalance.BlockQueue.Views.{View, Shows, nonzero, net, block_txs}
use gobalance.BlockQueue.Blocks.{net-lt-size}
use gobalance.BlockQueue.Operations.{
  Becomes, push_back-Becomes, push_front-Becomes, pop_back-Becomes, pop_front-Becomes,
}
use gobalance.BlockQueue.Index.{
  Counts, credited_back, credited_front, debited_back, debited_front, enough_back, enough_front,
}

module _ (d : Deque) where
  -- The queue holds these blocks, and its indexes by address count what is in them.
  pub record Indexes (b : BlockQueue d) (bs : List Block) : Type 0 where
    pub queued : d.items b.blocks ≡ bs
    pub view : String → View
    pub shows : Refines (Shows d b) b view
    pub counts : (a : String) → Counts a bs (view a)

  pub small_view :
      (b : BlockQueue d) (bs : List Block) (x : Indexes b bs) (a : String)
      → (x.view a).balance < int64_size
  small_view b bs x a = rw ((x.counts a).balance) (net-lt-size a (block_txs bs))

  pub new_block_queue-Indexes : Indexes (new_block_queue d) []
  unfolding new_block_queue lookup
  new_block_queue-Indexes = record {
    queued = d.items-new;
    view = λ a. record { balance = 0; txs = [] };
    shows = λ a. record { balance = refl; txs = refl; same_blocks = refl; same_index = refl };
    counts = λ a. record { balance = refl; count = refl };
  }

  after_pop :
      {b : BlockQueue d} {bs cs : List Block} {view : String → View} {txs : Map Hash TxBlock}
      → Becomes d b bs view txs
      → bs ≡ cs
      → ((a : String) → Counts a cs (view a))
      → Indexes b cs
  after_pop {view} become e counts = record {
    queued = become.blocks ∙ e;
    view = view;
    shows = become.shows;
    counts = counts;
  }

  module _ (order : RangeOrder) (ranges : IsRangeOrder order) (b : BlockQueue d) (bs : List Block)
      (x : Indexes b bs) where
    -- `PushBack` on a queue whose indexes agree with its blocks does not panic, and adds the block
    -- at the end of the blocks that the indexes agree with.
    pub push_back-Indexes :
        (block : Block)
        → (b' : BlockQueue d) × (push_back d order block b ≡ some b')
          × Indexes b' (bs ++ block ∷ [])
    push_back-Indexes block =
        let (b', ran, become) =
          push_back-Becomes d order ranges block b x.view x.shows (small_view b bs x) in
        (
          b',
          ran,
          after_pop become (ap (λ (l : List Block). l ++ block ∷ []) x.queued)
              (λ a. credited_back a bs block (x.view a) (x.counts a)),
        )

    -- `PushFront` on a queue whose indexes agree with its blocks does not panic, and adds the block
    -- before the blocks that the indexes agree with.
    pub push_front-Indexes :
        (block : Block)
        → (b' : BlockQueue d) × (push_front d order block b ≡ some b') × Indexes b' (block ∷ bs)
    push_front-Indexes block =
        let (b', ran, become) =
          push_front-Becomes d order ranges block b x.view x.shows (small_view b bs x) in
        (
          b',
          ran,
          after_pop become (ap (◌∷◌ block) x.queued)
              (λ a. credited_front a bs block (x.view a) (x.counts a)),
        )

  emptied :
      (b : BlockQueue d) (q : d.Queue Block) (x : Indexes b [])
      → d.items q ≡ []
      → Indexes (record b { blocks = q }) []
  emptied b q x e = record {
    queued = e;
    view = x.view;
    shows = λ a. record {
      balance = (x.shows a).balance;
      txs = (x.shows a).txs;
      same_blocks = refl;
      same_index = refl;
    };
    counts = x.counts;
  }

  module _ (order : RangeOrder) (ranges : IsRangeOrder order) (b : BlockQueue d) where
    -- `PopFront` returns the first block, or nil if there is none, and leaves the indexes in
    -- agreement with the other blocks; it does not panic.
    pub pop_front-Indexes :
        (bs : List Block)
        → Indexes b bs
        → (b' : BlockQueue d) × (pop_front d order b ≡ some (head? bs, b')) × Indexes b' (tail bs)
    unfolding pop_front unindex
    pop_front-Indexes [] x = (
      record b { blocks = (d.pop_front b.blocks).1 },
      rw (d.pop_front_lem b.blocks, x.queued),
      emptied b _ x (d.items-pop_front b.blocks ∙ ap tail x.queued),
    )
    pop_front-Indexes (block ∷ bs) x =
        let (b', ran, become) =
          pop_front-Becomes d order ranges block b x.view x.shows (small_view b _ x)
            (λ a. enough_front a bs block (x.view a) (x.counts a)) (ap head? x.queued) in
        (
          b',
          ran,
          after_pop become (ap tail x.queued)
              (λ a. debited_front a bs block (x.view a) (x.counts a)),
        )

    pop_back_at :
        (bs : List Block) (block : Block)
        → last? bs ≡ some block
        → Indexes b bs
        → (b' : BlockQueue d) × (pop_back d order b ≡ some (some block, b'))
          × Indexes b' (drop_last bs)
    pop_back_at bs block last x =
        let split = λ (a : String).
          subst (λ cs. Counts a cs (x.view a)) (eq-drop_last-append bs block last) (x.counts a) in
        let (b', ran, become) =
          pop_back-Becomes d order ranges block b x.view x.shows (small_view b _ x)
            (λ a. enough_back a (drop_last bs) block (x.view a) (split a))
            (ap last? x.queued ∙ last) in
        (
          b',
          ran,
          after_pop become (ap drop_last x.queued)
              (λ a. debited_back a (drop_last bs) block (x.view a) (split a)),
        )

    -- `PopBack` returns the last block, or nil if there is none, and leaves the indexes in
    -- agreement with the other blocks; it does not panic.
    pub pop_back-Indexes :
        (bs : List Block)
        → Indexes b bs
        → (b' : BlockQueue d) × (pop_back d order b ≡ some (last? bs, b'))
          × Indexes b' (drop_last bs)
    unfolding pop_back unindex
    pop_back-Indexes [] x = (
      record b { blocks = (d.pop_back b.blocks).1 },
      rw (d.pop_back_lem b.blocks, x.queued),
      emptied b _ x (d.items-pop_back b.blocks ∙ ap drop_last x.queued),
    )
    pop_back-Indexes (block ∷ bs) x = elim (Option-cases (last? (block ∷ bs))) [
      | inl empty ↦ absurd (last_ne_none block bs empty)
      | inr (l, last) ↦ rw last (pop_back_at (block ∷ bs) l last x)
    ]
      where
        last_ne_none : (y : Block) (ys : List Block) → last? (y ∷ ys) ≡ none → ⊥
        last_ne_none y [] h = cc
        last_ne_none y (z ∷ ys) h = last_ne_none z ys h

  -- `GetBalance` of a queue whose indexes agree with its blocks is the sum of the balance changes
  -- that the transactions of those blocks make to the address, modulo 2^64, and is not found if
  -- that sum is 0.
  pub get_balance-Indexes :
      (b : BlockQueue d) (bs : List Block) (a : String)
      → Indexes b bs
      → get_balance d a b ≡ nonzero (net a (block_txs bs))
  unfolding get_balance
  get_balance-Indexes b bs a x = (x.shows a).balance ∙ ap nonzero (x.counts a).balance

  pub len-Indexes : (b : BlockQueue d) (bs : List Block) → Indexes b bs → len d b ≡ length bs
  unfolding len
  len-Indexes b bs x = d.len_lem b.blocks ∙ ap length x.queued
