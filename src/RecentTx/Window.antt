-- ===== src/RecentTx/Window.antt =====
-- recent_tx/recent_tx.go: the window of the last blocks, and what a request finds in it.
use gobalance.Common.{
  ltb, if◌then◌else◌, Bool-cases, length, tail, length-append, ◌+◌, ◌≤◌, String, ◌≡◌, refl, ap, ◌∙◌,
  subst, inl, inr, false, Option, none, some, List, [], ◌∷◌, ◌++◌, map, arith,
}
use gobalance.Primitives.{Hash, Tx, Block, RangeOrder, IsRangeOrder}
use gobalance.RecentTx.{get_addr_recent_tx, recent_trim, recent_new_block, RecentTxCache}
use gobalance.BlockQueue.{tx, TxBlock, BlockQueue, len}
use gobalance.BlockQueue.Transactions.{
  pop_front-InOrder, get_tx-InOrder, InOrder, push_back-InOrder,
}
use gobalance.Deque.{Deque}
use gobalance.BlockQueue.Views.{history, block_txs}
use gobalance.BlockQueue.TxIndex.{IndexesTx, find_tx}

-- A transaction and the block that a look-up by hash finds for it.
abbrev pub beside : (Hash → Option TxBlock) → Tx → Tx × Option Block
beside find t = (t, elim (find t.hash) [ none ↦ none | some e ↦ some e.block ])

module _ (d : Deque) where
  len-InOrder : (b : BlockQueue d) (bs : List Block) → InOrder d b bs → len d b ≡ length bs
  unfolding len
  len-InOrder b bs x = d.len_lem b.blocks ∙ ap length x.queued

  recent_trim-InOrder :
      (order : RangeOrder) (ranges : IsRangeOrder order) (r : RecentTxCache d) (bs : List Block)
      → InOrder d r.queue bs
      → length bs ≤ r.size + 1
      → (r' : RecentTxCache d) × (recent_trim d order r ≡ some r')
        × InOrder d r'.queue (if ltb r.size (length bs) then tail bs else bs)
        × (len d r'.queue ≤ r.size)
  unfolding recent_trim
  recent_trim-InOrder order ranges r [] x few =
      let empty = len-InOrder r.queue [] x in
      let nothing : ltb r.size 0 ≡ false = ground arith in
      (r, rw (empty, nothing), rw nothing x, omega (arith, empty))
  recent_trim-InOrder order ranges r (first ∷ bs) x few =
      let sized = len-InOrder r.queue (first ∷ bs) x in
      elim (Bool-cases (ltb r.size (length (first ∷ bs)))) [
        | inl over ↦
            let (q, popped, y) = pop_front-InOrder d order ranges r.queue bs first x in
            (
              record r { queue = q },
              rw (sized, over, popped),
              rw over y,
              omega (arith, len-InOrder q bs y, few),
            )
        | inr fit ↦ (r, rw (sized, fit), rw fit x, ground (arith, sized))
      ]

  -- `newBlock` on a window in order adds the block at the end, and drops the first block of the
  -- window if there are then more than its size; it does not panic, and leaves a window in order of
  -- at most its size.
  pub recent_new_block-InOrder :
      (order order' : RangeOrder) (ranges : IsRangeOrder order) (ranges' : IsRangeOrder order')
      (block : Block) (r : RecentTxCache d) (bs : List Block)
      → InOrder d r.queue bs
      → length bs ≤ r.size
      → (r' : RecentTxCache d) × (recent_new_block d order order' block r ≡ some r')
        × InOrder d r'.queue
            (if ltb r.size (length bs + 1) then tail (bs ++ block ∷ []) else bs ++ block ∷ [])
        × (len d r'.queue ≤ r.size)
  unfolding recent_new_block
  recent_new_block-InOrder order order' ranges ranges' block r bs x few =
      let (q, pushed, y) = push_back-InOrder d order ranges r.queue bs block x in
      let (r', ran, z, small) =
        recent_trim-InOrder order' ranges' (record r { queue = q }) (bs ++ block ∷ []) y
          (omega (arith, few, length-append bs (block ∷ []))) in
      (
        r',
        rw pushed ran,
        subst
            (λ n.
              InOrder d r'.queue
                (if ltb r.size n then tail (bs ++ block ∷ []) else bs ++ block ∷ []))
            (length-append bs (block ∷ [])) z,
        small,
      )

  -- `getAddrRecentTx` of a window in order with its index: the transactions of the window that
  -- touch the address, each once, oldest first, and beside each the block of the window that its
  -- hash is in.
  pub get_addr_recent_tx-InOrder :
      (address : String) (r : RecentTxCache d) (bs : List Block)
      → InOrder d r.queue bs
      → IndexesTx d r.queue bs
      → get_addr_recent_tx d address r
        ≡ map (beside (λ h. find_tx h bs)) (history address (block_txs bs))
  unfolding get_addr_recent_tx
  get_addr_recent_tx-InOrder address r bs x i =
      rw (get_tx-InOrder d r.queue bs address x) (go (history address (block_txs bs)))
    where
      go :
          (ts : List Tx)
          → map (beside (λ h. tx d h r.queue)) ts ≡ map (beside (λ h. find_tx h bs)) ts
      go [] = refl
      go (t ∷ ts) = rw (i t.hash, go ts)
