-- ===== src/BlockManager/Chain/Added.antt =====
-- block_manager/block_manager.go: `addBlock` and the chain.
use gobalance.Common.{
  ltb, leb, if◌then◌else◌, Bool-cases, length, head?, tail, length-append, Map, add64, ℕ, ◌+◌, ◌≤◌,
  ◌<◌, ◌≡◌, refl, sym, ◌∙◌, subst, inl, inr, true, false, some, List, [], ◌∷◌, ◌++◌, arith,
}
use gobalance.BlockManager.{BlockManager, confirm, confirm_first, queue_block}
use gobalance.BlockManager.Chain.{Numbered-append_one, Tracks, Numbered, ledger}
use gobalance.BlockQueue.Views.{block_txs}
use gobalance.Storage.Cache.Ledger.{with_txs, ValidTxs, Holds}
use gobalance.Deque.{Deque}
use gobalance.Storage.{tx_out_id_key, Storage, TxOutId, TxOutData}
use gobalance.BlockQueue.Refinement.{len-Indexes, pop_front-Indexes, Indexes, push_back-Indexes}
use gobalance.BlockManager.Ledger.{FitsTxs-append, with_txs-append, FitsTxs-after, FitsTxs}
use gobalance.BlockQueue.Index.{block_txs-append_one}
use gobalance.Primitives.{IsRangeOrder, Block, RangeOrder}
use gobalance.Storage.Cache.Commits.{add_block-Holds}
use gobalance.Storage.Cache.{add_block}

-- The blocks that stay pending, and the confirmed outputs: the first block becomes confirmed if
-- there are more than the confirmations.
abbrev pub still_pending : ℕ → List Block → List Block
still_pending confirmations bs = if leb (length bs) confirmations then bs else tail bs

abbrev pub now_confirmed : ℕ → List Block → Map TxOutId TxOutData → Map TxOutId TxOutData
now_confirmed confirmations [] m = m
now_confirmed confirmations (first ∷ bs) m =
    if leb (length (first ∷ bs)) confirmations then m else with_txs first.transactions m

module _ (d : Deque) (api : Storage) where
  -- The first block that is pending becomes confirmed if there are more than the confirmations.
  confirmed :
      (order : RangeOrder) (ranges : IsRangeOrder order) (now : ℕ) (b : BlockManager d api)
      (first : Block) (bs : List Block) (m : Map TxOutId TxOutData)
      → Indexes d b.pending_blocks (first ∷ bs)
      → Holds api b.storage_cache m
      → FitsTxs (block_txs (first ∷ bs)) m
      → b.confirmations < length (first ∷ bs)
      → length bs ≤ b.confirmations
      → b.height ≡ add64 b.storage_cache.height (length (first ∷ bs))
      → Numbered b.storage_cache.height (first ∷ bs)
      → ValidTxs api first.transactions b.storage_cache
      → (b' : BlockManager d api) × (confirm_first d api order now b ≡ some b')
        × Tracks d api b' bs (with_txs first.transactions m)
        × (b'.height ≡ b.height)
  unfolding confirm_first confirm
  confirmed order ranges now b first bs m x h f over bounded height numbered valid =
      let (q, popped, y) = pop_front-Indexes d order ranges b.pending_blocks (first ∷ bs) x in
      let (held, at, _) = add_block-Holds api first b.storage_cache m valid h in
      (
        record b {
          pending_blocks = q;
          storage_cache = add_block api first b.storage_cache;
          last_time = now;
        },
        rw (ltb_of (len-Indexes d b.pending_blocks (first ∷ bs) x) over, popped),
        record {
          indexes = y;
          holds = held;
          fits = FitsTxs-after first.transactions (block_txs bs) m f;
          bounded = bounded;
          height = height ∙ rw (at, numbered.0) (omega arith);
          numbered = rw (at, numbered.0) numbered.1;
        },
        refl,
      )
    where
      ltb_of : {l n c : ℕ} → l ≡ n → c < n → ltb c l ≡ true
      ltb_of h k = ground arith

  waiting :
      (now : ℕ) (order : RangeOrder) (b : BlockManager d api) (bs : List Block)
      → Indexes d b.pending_blocks bs
      → length bs ≤ b.confirmations
      → confirm_first d api order now b ≡ some (record b { last_time = now })
  unfolding confirm_first
  waiting now order b bs x few = rw (not_over (len-Indexes d b.pending_blocks bs x) few)
    where
      not_over : {l n c : ℕ} → l ≡ n → n ≤ c → ltb c l ≡ false
      not_over h k = ground arith

  settled :
      (order : RangeOrder) (ranges : IsRangeOrder order) (now : ℕ) (b : BlockManager d api)
      (bs : List Block) (m : Map TxOutId TxOutData)
      → Indexes d b.pending_blocks bs
      → Holds api b.storage_cache m
      → FitsTxs (block_txs bs) m
      → length bs ≤ b.confirmations + 1
      → b.height ≡ add64 b.storage_cache.height (length bs)
      → Numbered b.storage_cache.height bs
      → ((first : Block) → head? bs ≡ some first → ValidTxs api first.transactions b.storage_cache)
      → (b' : BlockManager d api) × (confirm_first d api order now b ≡ some b')
        × Tracks d api b' (still_pending b.confirmations bs) (now_confirmed b.confirmations bs m)
        × (b'.height ≡ b.height)
  settled order ranges now b bs m x h f few height numbered valid =
      elim (Bool-cases (leb (length bs) b.confirmations)) [
        | inl fit ↦
            let bounded : length bs ≤ b.confirmations = ground arith in
            (
              record b { last_time = now },
              waiting now order b bs x bounded,
              rw (fit, now_fit bs fit)
                  (record {
                    indexes = x;
                    holds = h;
                    fits = f;
                    bounded = bounded;
                    height = height;
                    numbered = numbered;
                  }),
              refl,
            )
        | inr over ↦ first_of bs x f few height numbered valid over
      ]
    where
      now_fit :
          (bs : List Block)
          → leb (length bs) b.confirmations ≡ true
          → now_confirmed b.confirmations bs m ≡ m
      now_fit [] fit = refl
      now_fit (first ∷ bs) fit = rw fit refl

      first_of :
          (bs : List Block)
          → Indexes d b.pending_blocks bs
          → FitsTxs (block_txs bs) m
          → length bs ≤ b.confirmations + 1
          → b.height ≡ add64 b.storage_cache.height (length bs)
          → Numbered b.storage_cache.height bs
          → ((first : Block)
              → head? bs ≡ some first
              → ValidTxs api first.transactions b.storage_cache)
          → leb (length bs) b.confirmations ≡ false
          → (b' : BlockManager d api) × (confirm_first d api order now b ≡ some b')
            × Tracks d api b'
                (still_pending b.confirmations bs)
                (now_confirmed b.confirmations bs m)
            × (b'.height ≡ b.height)
      first_of [] x f few height numbered valid over = absurd (ground arith)
      first_of (first ∷ bs) x f few height numbered valid over =
          let (b', ran, tracks, same) =
            confirmed order ranges now b first bs m x h f (ground arith) (ground arith) height
              numbered (valid first refl) in
          (b', ran, rw over tracks, same)

  -- `addBlock` of a block that continues the chain, once its inputs are filled in, does not panic:
  -- the height goes up by one, the block is pending after the others, and where these are then more
  -- than the confirmations, the first of them becomes confirmed. The block that gets confirmed, if any, must not bring
  -- back an output deleted since the last commit.
  pub queue_block-Tracks :
      (order order' : RangeOrder) (ranges : IsRangeOrder order) (ranges' : IsRangeOrder order')
      (now : ℕ) (block : Block) (b : BlockManager d api) (bs : List Block)
      (m : Map TxOutId TxOutData)
      → Tracks d api b bs m
      → FitsTxs block.transactions (ledger bs m)
      → block.height ≡ add64 b.height 1
      → ((first : Block)
          → head? (bs ++ block ∷ []) ≡ some first
          → ValidTxs api first.transactions b.storage_cache)
      → let pending = bs ++ block ∷ [] in
        (b' : BlockManager d api) × (queue_block d api order order' now block b ≡ some b')
        × Tracks d api b'
            (still_pending b.confirmations pending)
            (now_confirmed b.confirmations pending m)
        × (b'.height ≡ add64 b.height 1)
  unfolding queue_block
  queue_block-Tracks order order' ranges ranges' now block b bs m x f at valid =
      let (q, pushed, y) = push_back-Indexes d order ranges b.pending_blocks bs x.indexes block in
      let b1 = record b { pending_blocks = q; height = add64 b.height 1 } in
      let (b', ran, tracks, height) =
        settled order' ranges' now b1 (bs ++ block ∷ []) m y x.holds
          (subst (λ ts. FitsTxs ts m) (sym (block_txs-append_one bs block))
            (FitsTxs-append (block_txs bs) block.transactions m x.fits f))
          (omega (arith, x.bounded, length-append bs (block ∷ [])))
          (omega (arith, x.height, length-append bs (block ∷ [])))
          (Numbered-append_one _ bs block x.numbered (omega (arith, at, x.height))) valid in
      (b', rw pushed ran, tracks, height)

-- The chain and its unspent outputs, however many blocks of it are confirmed.
pub ledger-still_pending :
    (confirmations : ℕ) (bs : List Block) (m : Map TxOutId TxOutData)
    → ledger (still_pending confirmations bs) (now_confirmed confirmations bs m) ≡ ledger bs m
ledger-still_pending confirmations [] m = elim (Bool-cases (leb 0 confirmations)) [
  | inl fit ↦ rw fit refl
  | inr over ↦ rw over refl
]
ledger-still_pending confirmations (first ∷ bs) m =
    elim (Bool-cases (leb (length (first ∷ bs)) confirmations)) [
      | inl fit ↦ rw fit refl
      | inr over ↦ rw over (sym (with_txs-append first.transactions (block_txs bs) m))
    ]
