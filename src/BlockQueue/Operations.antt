-- ===== src/BlockQueue/Operations.antt =====
-- primitives/block_queue.go: what the pushes and pops do to the queue of blocks, the view of each
-- address and the transaction index.
use gobalance.Common.{
  length, head?, tail, last?, drop_last, Map, Refines, int64_size, nat_key, string_key, ◌≤◌, ◌<◌,
  String, ◌≡◌, refl, ap, ◌∙◌, Bool, true, false, some, List, [], ◌∷◌, ◌++◌,
}
use gobalance.Deque.{Deque}
use gobalance.Primitives.{Hash, Block, RangeOrder, IsRangeOrder}
use gobalance.BlockQueue.{
  BlockQueue, TxBlock, update_tx_index, block_update_tx_index, push_back, push_front, pop_back,
  pop_front, unindex,
}
use gobalance.BlockQueue.Views.{View, Shows, history}
use gobalance.BlockQueue.Blocks.{
  credited, debited, block_update_address-credits, block_update_address-debits,
}

module _ (d : Deque) where
  -- What a state looks like after its blocks became `bs`, its views `view` and its index `txs`.
  pub record Becomes (b : BlockQueue d) (bs : List Block) (view : String → View)
      (txs : Map Hash TxBlock) : Type 0 where
    pub blocks : d.items b.blocks ≡ bs
    pub shows : Refines (Shows d b) b view
    pub index : b.tx_index ≡ txs

  reindexed :
      (block : Block) (reverse : Bool) (base b : BlockQueue d) (view : String → View)
      (bs : List Block)
      → d.items base.blocks ≡ bs
      → Refines (Shows d base) b view
      → Becomes
          (block_update_tx_index d block reverse b)
          bs
          view
          (update_tx_index block reverse block.transactions base.tx_index)
  unfolding block_update_tx_index
  reindexed block reverse base b view bs e r = record {
    blocks = ap d.items (r "").same_blocks ∙ e;
    shows = λ a. record {
      balance = (r a).balance;
      txs = (r a).txs;
      same_blocks = refl;
      same_index = refl;
    };
    index = ap (λ m. update_tx_index block reverse block.transactions m) (r "").same_index;
  }

  rebased :
      (blocks : d.Queue Block) (b : BlockQueue d) (view : String → View)
      → Refines (Shows d b) b view
      → Refines (Shows d (record b { blocks = blocks })) (record b { blocks = blocks }) view
  rebased blocks b view r a = record {
    balance = (r a).balance;
    txs = (r a).txs;
    same_blocks = refl;
    same_index = refl;
  }

  module _ (order : RangeOrder) (ranges : IsRangeOrder order) (block : Block) (b : BlockQueue d)
      (view : String → View) (shows : Refines (Shows d b) b view)
      (small : (a : String) → (view a).balance < int64_size) where
    pub push_back-Becomes :
        (b' : BlockQueue d) × (push_back d order block b ≡ some b')
        × Becomes b'
            (d.items b.blocks ++ block ∷ [])
            (λ a. credited a block.transactions (view a))
            (update_tx_index block false block.transactions b.tx_index)
    unfolding push_back
    push_back-Becomes =
        let base : BlockQueue d = record b { blocks = d.push_back block b.blocks } in
        let (b', ran, shows') =
          block_update_address-credits d order ranges block base base view
            (rebased base.blocks b view shows) small in
        (
          block_update_tx_index d block false b',
          rw ran,
          reindexed block false base b' _ _ (d.items-push_back block b.blocks) shows',
        )

    pub push_front-Becomes :
        (b' : BlockQueue d) × (push_front d order block b ≡ some b')
        × Becomes b'
            (block ∷ d.items b.blocks)
            (λ a. credited a block.transactions (view a))
            (update_tx_index block false block.transactions b.tx_index)
    unfolding push_front
    push_front-Becomes =
        let base : BlockQueue d = record b { blocks = d.push_front block b.blocks } in
        let (b', ran, shows') =
          block_update_address-credits d order ranges block base base view
            (rebased base.blocks b view shows) small in
        (
          block_update_tx_index d block false b',
          rw ran,
          reindexed block false base b' _ _ (d.items-push_front block b.blocks) shows',
        )

    module _
        (enough : (a : String) → length (history a block.transactions) ≤ length (view a).txs) where
      unindex-Becomes :
          (blocks : d.Queue Block) (bs : List Block)
          → d.items blocks ≡ bs
          → (b' : BlockQueue d) × (unindex d order (some block) (record b { blocks = blocks })
              ≡ some (some block, b'))
            × Becomes b' bs
                (λ a. debited a block.transactions (view a))
                (update_tx_index block true block.transactions b.tx_index)
      unfolding unindex
      unindex-Becomes blocks bs e =
          let base : BlockQueue d = record b { blocks = blocks } in
          let (b', ran, shows') =
            block_update_address-debits d order ranges block base base view
              (rebased blocks b view shows) small enough in
          (
            block_update_tx_index d block true b',
            rw ran,
            reindexed block true base b' _ bs e shows',
          )

      pub pop_back-Becomes :
          last? (d.items b.blocks) ≡ some block
          → (b' : BlockQueue d) × (pop_back d order b ≡ some (some block, b'))
            × Becomes b'
                (drop_last (d.items b.blocks))
                (λ a. debited a block.transactions (view a))
                (update_tx_index block true block.transactions b.tx_index)
      unfolding pop_back
      pop_back-Becomes e =
          rw (d.pop_back_lem b.blocks, e)
            (unindex-Becomes (d.pop_back b.blocks).1 _ (d.items-pop_back b.blocks))

      pub pop_front-Becomes :
          head? (d.items b.blocks) ≡ some block
          → (b' : BlockQueue d) × (pop_front d order b ≡ some (some block, b'))
            × Becomes b'
                (tail (d.items b.blocks))
                (λ a. debited a block.transactions (view a))
                (update_tx_index block true block.transactions b.tx_index)
      unfolding pop_front
      pop_front-Becomes e =
          rw (d.pop_front_lem b.blocks, e)
            (unindex-Becomes (d.pop_front b.blocks).1 _ (d.items-pop_front b.blocks))
