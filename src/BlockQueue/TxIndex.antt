-- ===== src/BlockQueue/TxIndex.antt =====
-- primitives/block_queue.go: the index of the queued transactions by hash.
use gobalance.Common.{
  if◌then◌else◌, of-some, head?, last?, drop_last, last?-append_one, drop_last-append_one, Map,
  is_some, lookup, delete, insert, lookup-delete, lookup-insert, ◌==◌, nat_key, string_key, String,
  ◌≡◌, refl, sym, ap, ◌∙◌, subst, true, false, Option, none, some, List, [], ◌∷◌, ◌++◌, arith,
}
use gobalance.Primitives.{RangeOrder, IsRangeOrder, Hash, Tx, Block}
use gobalance.BlockQueue.{
  push_front, push_back, tx, BlockQueue, pop_front, pop_back, TxBlock, update_tx_index,
}
use gobalance.BlockQueue.Operations.{
  Becomes, push_back-Becomes, push_front-Becomes, pop_back-Becomes, pop_front-Becomes,
}
use gobalance.BlockQueue.Index.{enough_front, enough_back}
use gobalance.BlockQueue.Refinement.{
  pop_front-Indexes, pop_back-Indexes, push_front-Indexes, push_back-Indexes, small_view, Indexes,
}
use gobalance.BlockQueue.Views.{View}
use gobalance.Deque.{Deque}

abbrev pub or_else : Option TxBlock → Option TxBlock → Option TxBlock
or_else none p = p
or_else (some x) p = some x

-- The last transaction of a block with the hash, and the block.
abbrev pub find_in : Hash → Block → List Tx → Option TxBlock
find_in h block [] = none
find_in h block (t ∷ ts) =
    or_else (find_in h block ts)
      (if t.hash == h then some (record { tx = t; block = block }) else none)

-- The transaction with the hash in a list of blocks.
abbrev pub find_tx : Hash → List Block → Option TxBlock
find_tx h [] = none
find_tx h (block ∷ bs) = or_else (find_in h block block.transactions) (find_tx h bs)

-- No hash of the block's transactions is one of the blocks'.
abbrev pub IsFresh : Block → List Block → Type 0
IsFresh block bs =
    (h : Hash) → is_some (find_in h block block.transactions) ≡ true → find_tx h bs ≡ none

lookup-update_tx_index_add :
    (h : Hash) (block : Block) (ts : List Tx) (m : Map Hash TxBlock)
    → lookup h (update_tx_index block false ts m) ≡ or_else (find_in h block ts) (lookup h m)
unfolding update_tx_index
lookup-update_tx_index_add h block [] m = refl
lookup-update_tx_index_add h block (t ∷ ts) m =
    rw
      (
        lookup-update_tx_index_add h block ts (insert t.hash (record { tx = t; block = block }) m),
        lookup-insert,
      )
      (ground arith)

lookup-update_tx_index_del :
    (h : Hash) (block : Block) (ts : List Tx) (m : Map Hash TxBlock)
    → lookup h (update_tx_index block true ts m)
      ≡ (if is_some (find_in h block ts) then none else lookup h m)
unfolding update_tx_index
lookup-update_tx_index_del h block [] m = refl
lookup-update_tx_index_del h block (t ∷ ts) m =
    rw (lookup-update_tx_index_del h block ts (delete t.hash m), lookup-delete) (ground arith)

pub find_tx-append_one :
    (h : Hash) (bs : List Block) (block : Block)
    → find_tx h (bs ++ block ∷ []) ≡ or_else (find_tx h bs) (find_in h block block.transactions)
find_tx-append_one h [] block = ground arith
find_tx-append_one h (b ∷ bs) block = rw (find_tx-append_one h bs block) (ground arith)

added_back :
    (h : Hash) (block : Block) (bs : List Block)
    → IsFresh block bs
    → or_else (find_in h block block.transactions) (find_tx h bs)
      ≡ or_else (find_tx h bs) (find_in h block block.transactions)
added_back h block bs fresh = ground (arith, fresh h)

removed_at :
    (h : Hash) (block : Block) (bs : List Block)
    → IsFresh block bs
    → (if is_some (find_in h block block.transactions)
        then none
        else or_else (find_in h block block.transactions) (find_tx h bs))
      ≡ find_tx h bs
removed_at h block bs fresh = ground (arith, fresh h)

module _ (d : Deque) where
  -- The index has the transactions of the blocks, each with its block.
  abbrev pub IndexesTx : BlockQueue d → List Block → Type 0
  IndexesTx b bs = (h : Hash) → tx d h b ≡ find_tx h bs

  added :
      (b : BlockQueue d) (bs : List Block) {b' : BlockQueue d} {cs : List Block}
      {view : String → View} (block : Block)
      → Becomes d b' cs view (update_tx_index block false block.transactions b.tx_index)
      → IndexesTx b bs
      → (h : Hash) → tx d h b' ≡ or_else (find_in h block block.transactions) (find_tx h bs)
  unfolding tx
  added b bs block become x h =
      rw (become.index, lookup-update_tx_index_add h block block.transactions b.tx_index, x h)

  removed :
      (b : BlockQueue d) (bs : List Block) {b' : BlockQueue d} {cs : List Block}
      {view : String → View} (block : Block)
      → Becomes d b' cs view (update_tx_index block true block.transactions b.tx_index)
      → IndexesTx b bs
      → (h : Hash)
      → tx d h b' ≡ (if is_some (find_in h block block.transactions) then none else find_tx h bs)
  unfolding tx
  removed b bs block become x h =
      rw (become.index, lookup-update_tx_index_del h block block.transactions b.tx_index, x h)

  module _ (order : RangeOrder) (ranges : IsRangeOrder order) (block : Block) (b : BlockQueue d)
      (bs : List Block) (fresh : IsFresh block bs) where
    -- After `PushBack` of a block with new transaction hashes, `Tx` finds the transactions of the
    -- block and those of the blocks before it, each with its block, and no others.
    pub tx-push_back :
        Indexes d b bs
        → IndexesTx b bs
        → (b' : BlockQueue d) × (push_back d order block b ≡ some b')
          × Indexes d b' (bs ++ block ∷ [])
          × IndexesTx b' (bs ++ block ∷ [])
    tx-push_back x i =
        let (b', ran, become) =
          push_back-Becomes d order ranges block b x.view x.shows (small_view d b bs x) in
        (
          b',
          ran,
          subst (λ q. Indexes d q (bs ++ block ∷ []))
              (of-some (sym (push_back-Indexes d order ranges b bs x block).1 ∙ ran))
              (push_back-Indexes d order ranges b bs x block).2,
          λ h.
              added b bs block become i h
              ∙ added_back h block bs fresh
              ∙ sym (find_tx-append_one h bs block),
        )

    pub tx-push_front :
        Indexes d b bs
        → IndexesTx b bs
        → (b' : BlockQueue d) × (push_front d order block b ≡ some b')
          × Indexes d b' (block ∷ bs)
          × IndexesTx b' (block ∷ bs)
    tx-push_front x i =
        let (b', ran, become) =
          push_front-Becomes d order ranges block b x.view x.shows (small_view d b bs x) in
        (
          b',
          ran,
          subst (λ q. Indexes d q (block ∷ bs))
              (of-some (sym (push_front-Indexes d order ranges b bs x block).1 ∙ ran))
              (push_front-Indexes d order ranges b bs x block).2,
          added b bs block become i,
        )

    -- After `PopFront`, `Tx` finds the transactions of the remaining blocks and no others, if the
    -- removed block shares no transaction hash with them.
    pub tx-pop_front :
        Indexes d b (block ∷ bs)
        → IndexesTx b (block ∷ bs)
        → (b' : BlockQueue d) × (pop_front d order b ≡ some (some block, b'))
          × Indexes d b' bs
          × IndexesTx b' bs
    tx-pop_front x i =
        let (b', ran, become) =
          pop_front-Becomes d order ranges block b x.view x.shows (small_view d b _ x)
            (λ a. enough_front a bs block (x.view a) (x.counts a)) (ap head? x.queued) in
        (
          b',
          ran,
          subst (λ q. Indexes d q bs)
              (ap (λ (p : Option Block × BlockQueue d). p.1)
                (of-some (sym (pop_front-Indexes d order ranges b (block ∷ bs) x).1 ∙ ran)))
              (pop_front-Indexes d order ranges b (block ∷ bs) x).2,
          λ h. removed b (block ∷ bs) block become i h ∙ removed_at h block bs fresh,
        )

    -- After `PopBack`, `Tx` finds the transactions of the remaining blocks and no others, if the
    -- removed block shares no transaction hash with them.
    pub tx-pop_back :
        Indexes d b (bs ++ block ∷ [])
        → IndexesTx b (bs ++ block ∷ [])
        → (b' : BlockQueue d) × (pop_back d order b ≡ some (some block, b'))
          × Indexes d b' bs
          × IndexesTx b' bs
    tx-pop_back x i =
        let (b', ran, become) =
          pop_back-Becomes d order ranges block b x.view x.shows (small_view d b _ x)
            (λ a. enough_back a bs block (x.view a) (x.counts a))
            (ap last? x.queued ∙ last?-append_one bs block) in
        (
          b',
          ran,
          subst (λ cs. Indexes d b' cs) (drop_last-append_one bs block)
              (subst (λ q. Indexes d q (drop_last (bs ++ block ∷ [])))
                (ap (λ (p : Option Block × BlockQueue d). p.1)
                  (of-some (sym (pop_back-Indexes d order ranges b (bs ++ block ∷ []) x).1 ∙ ran)))
                (pop_back-Indexes d order ranges b (bs ++ block ∷ []) x).2),
          λ h.
              removed b (bs ++ block ∷ []) block become i h
              ∙ rw (find_tx-append_one h bs block, ← added_back h block bs fresh)
                  (removed_at h block bs fresh),
        )
