-- ===== src/BlockManager/Silence/Kept.antt =====
-- block_manager/block_manager.go: the operations and the `subscribers` of the manager.
use gobalance.Common.{
  if◌then◌else◌, Option-cases, of-some, ◌>>=◌, add64, ℕ, ◌≡◌, sym, ap, ◌∙◌, inl, inr, Option, none,
  some, arith,
}
use gobalance.BlockManager.{
  BlockUpdate, manager_add_block, storage_error, manager_commit, backtrack_block, returned,
  get_block_inputs, Outcome, build_block, failed, confirm, confirm_first, queue_block, BlockManager,
}
use gobalance.Primitives.{Hash, Block, RangeOrder}
use gobalance.BlockQueue.{push_back}
use gobalance.Deque.{Deque}
use gobalance.Storage.{err, Result, ok, Storage}
use gobalance.BlockManager.Routine.{
  new_block_at, process_block_update, backtrack_one, unknown_update, ChainUpdate,
}
use gobalance.Wire.{WireBlock, Wire}

module _ (d : Deque) (api : Storage) where
  confirm_first_keeps :
      (order : RangeOrder) (now : ℕ) (b b' : BlockManager d api)
      → confirm_first d api order now b ≡ some b'
      → b'.subscribers ≡ b.subscribers
  unfolding confirm_first confirm
  confirm_first_keeps order now b b' h = ground arith

  queue_block_keeps :
      (order order' : RangeOrder) (now : ℕ) (block : Block) (b b' : BlockManager d api)
      → queue_block d api order order' now block b ≡ some b'
      → b'.subscribers ≡ b.subscribers
  unfolding queue_block
  queue_block_keeps order order' now block b b' h =
      elim (Option-cases (push_back d order block b.pending_blocks)) [
        | inl e ↦ absurd (ground (arith, e))
        | inr (q, e) ↦
            confirm_first_keeps order' now
              (record b { pending_blocks = q; height = add64 b.height 1 }) b'
              (rw (e, queue_block) at h)
      ]

  manager_add_block_keeps :
      (w : Wire) (order order' : RangeOrder) (now : ℕ) (block : WireBlock) (hash : Hash)
      (b : BlockManager d api) (r : Outcome Block × BlockManager d api)
      → manager_add_block d api w order order' now block hash b ≡ some r
      → r.1.subscribers ≡ b.subscribers
  unfolding manager_add_block
  manager_add_block_keeps w order order' now block hash b r h =
      kept
        (if b.sync
          then some (ok (build_block w hash block (add64 b.height 1)))
          else get_block_inputs d api (build_block w hash block (add64 b.height 1)) b)
        h
    where
      kept :
          (o : Option (Result Block))
          → (o >>= λ answer. elim answer as (λ _. Option (Outcome Block × BlockManager d api)) [
            | err e ↦ some (failed (storage_error e), b)
            | ok p ↦ queue_block d api order order' now p b >>= λ c. some (returned p, c)
          ])
            ≡ some r
          → r.1.subscribers ≡ b.subscribers
      kept none h = cc
      kept (some (err e)) h =
          ap (λ (q : Outcome Block × BlockManager d api). q.1.subscribers) (sym (of-some h))
      kept (some (ok p)) h = elim (Option-cases (queue_block d api order order' now p b)) [
        | inl e ↦ absurd (ground (arith, e))
        | inr (c, e) ↦
            ap (λ (q : Outcome Block × BlockManager d api). q.1.subscribers)
              (sym (of-some (rw e at h)))
            ∙ queue_block_keeps order order' now p b c e
      ]

  backtrack_block_keeps :
      (order : RangeOrder) (b : BlockManager d api)
      (r : Outcome (Option Block) × BlockManager d api)
      → backtrack_block d api order b ≡ some r
      → r.1.subscribers ≡ b.subscribers
  unfolding backtrack_block
  backtrack_block_keeps order b r h = ground arith

  pub process_block_update_keeps :
      (w : Wire) (order order' : RangeOrder) (now : ℕ) (u : ChainUpdate) (b : BlockManager d api)
      (r : Outcome BlockUpdate × BlockManager d api)
      → process_block_update d api w order order' now u b ≡ some r
      → r.1.subscribers ≡ b.subscribers
  unfolding process_block_update
  process_block_update_keeps w order order' now (new_block_at block hash) b r h =
      elim (Option-cases (manager_add_block d api w order order' now block hash b)) [
        | inl e ↦ absurd (ground (arith, e))
        | inr (p, e) ↦ ground (arith, manager_add_block_keeps w order order' now block hash b p e)
      ]
  process_block_update_keeps w order order' now backtrack_one b r h =
      elim (Option-cases (backtrack_block d api order b)) [
        | inl e ↦ absurd (ground (arith, e))
        | inr (p, e) ↦ ground (arith, backtrack_block_keeps order b p e)
      ]
  process_block_update_keeps w order order' now unknown_update b r h = ground arith

  pub manager_commit_keeps :
      (now : ℕ) (b : BlockManager d api)
      → (manager_commit d api now b).1.subscribers ≡ b.subscribers
  unfolding manager_commit
  manager_commit_keeps now b = ground arith
