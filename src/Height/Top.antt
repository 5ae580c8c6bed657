-- ===== src/Height/Top.antt =====
-- height/height.go and block_manager/block_manager.go: the height cache against the height of the
-- block manager.
use gobalance.Common.{
  of-some, length, last?, Map, Int64, add64, sub64, ◌≡◌, sym, ap, ◌∙◌, inl, inr, none, some, List,
  [], ◌∷◌, arith,
}
use gobalance.BlockManager.{op_backtrack, backtrack_block, returned, BlockManager}
use gobalance.Deque.{Deque}
use gobalance.Primitives.{RangeOrder, IsRangeOrder, Block}
use gobalance.BlockManager.Chain.{Tracks, Numbered}
use gobalance.Storage.{Storage, TxOutId, TxOutData, tx_out_id_key}
use gobalance.BlockManager.Chain.Undone.{backtrack_block-Tracks}
use gobalance.Height.{height_update, HeightCache}

last-height :
    (h : Int64) (bs : List Block) (block : Block)
    → Numbered h bs
    → last? bs ≡ some block
    → block.height ≡ add64 h (length bs)
last-height h [] block n ends = cc
last-height h (b ∷ []) block n ends = ap (λ (c : Block). c.height) (sym (of-some ends)) ∙ n.0
last-height h (b ∷ c ∷ bs) block n ends =
    last-height (add64 h 1) (c ∷ bs) block n.1 ends ∙ omega arith

module _ (d : Deque) (api : Storage) where
  -- After `backtrackBlock` of a manager with pending blocks, the update that carries the dropped
  -- block gives the height cache the new height of the manager.
  pub height_update-backtrack :
      (order : RangeOrder) (ranges : IsRangeOrder order) (b : BlockManager d api) (bs : List Block)
      (m : Map TxOutId TxOutData) (block : Block) (h : HeightCache)
      → Tracks d api b bs m
      → last? bs ≡ some block
      → (b' : BlockManager d api) × (backtrack_block d api order b
          ≡ some (returned (some block), b'))
        × (height_update op_backtrack (some block) h ≡ some (record { height = b'.height }))
  unfolding height_update
  height_update-backtrack order ranges b bs m block h x ends =
      elim (backtrack_block-Tracks d api order ranges b bs m x) [
        | inl (empty, _) ↦ absurd (nothing (ap last? (sym empty) ∙ ends))
        | inr (b', ran, _, lower) ↦ (
          b',
          ran ∙ ap (λ o. some (returned o, b')) ends,
          ap (λ n. some (record { height = n }))
              (ap (λ n. sub64 n 1)
                  (last-height b.storage_cache.height bs block x.numbered ends ∙ sym x.height)
                ∙ sym lower),
        )
      ]
    where
      nothing : none ≡ some block → ⊥
      nothing e = cc
