-- ===== src/Balance/Updates.antt =====
-- balance/cache.go and balance.go: the updates of the cache, and the requests, against the unspent
-- outputs of the chain.
use text.Mathlib.TextEquality.{eq_iff}
use gobalance.Common.{
  if◌then◌else◌, Bool-cases, Option-cases, Map, Unique, Int64, string_key, nat_key, ◌==◌, ℕ, String,
  ◌≡◌, refl, sym, ap, ◌∙◌, subst, inl, inr, some,
}
use gobalance.Balance.{
  balance_request, cache_backtrack, proxied, BalanceState, cache_get_balance, balance_to,
  cache_new_block,
}
use gobalance.Storage.{balance_in, TxOutData, TxOutId, tx_out_id_key}
use gobalance.Lru.{Lru}
use gobalance.Balance.Coherence.{added_txs, Answers, removed_txs}
use gobalance.BlockManager.Ledger.{FitsTxs}
use gobalance.Primitives.{RangeOrder, Block, IsRangeOrder}
use gobalance.Storage.Cache.Ledger.{with_txs}

module _ (l : Lru Int64) (order : RangeOrder) (ranges : IsRangeOrder order) where
  -- After the update of a new valid block, every balance that is cached is the balance of its
  -- address in the unspent outputs with the block, if it was that without the block; the update
  -- does not panic.
  pub cache_new_block-Answers :
      (block : Block) (c : l.Cache) (m : Map TxOutId TxOutData)
      → Unique m
      → FitsTxs block.transactions m
      → ((a : String) → Answers l a c (balance_in a m))
      → (c' : l.Cache) × (cache_new_block l order block c ≡ some c')
        × ((a : String) → Answers l a c' (balance_in a (with_txs block.transactions m)))
  unfolding cache_new_block
  cache_new_block-Answers block c m u fits right =
      added_txs l order ranges block.transactions c m u fits right

  -- After the update of a dropped block, every balance that is cached is the balance of its address
  -- in the unspent outputs without the block, if it was that with the block; the update does not
  -- panic.
  pub cache_backtrack-Answers :
      (block : Block) (c : l.Cache) (m : Map TxOutId TxOutData)
      → Unique m
      → FitsTxs block.transactions m
      → ((a : String) → Answers l a c (balance_in a (with_txs block.transactions m)))
      → (c' : l.Cache) × (cache_backtrack l order block c ≡ some c')
        × ((a : String) → Answers l a c' (balance_in a m))
  unfolding cache_backtrack
  cache_backtrack-Answers block c m u fits right =
      removed_txs l order ranges block.transactions c m u fits right

module _ (l : Lru Int64) where
  get_turn :
      (manager : String → Int64) (address : String) (c : l.Cache)
      → ((a : String) → Answers l a c (manager a))
      → ((cache_get_balance l manager address c).0 ≡ manager address)
        × ((a : String) → Answers l a (cache_get_balance l manager address c).1 (manager a))
  unfolding cache_get_balance
  get_turn manager address c right = elim (Option-cases (l.cached address c)) [
    | inl absent ↦ rw (l.get_lem address c, absent, cache_get_balance) (refl, λ a. asked a)
    | inr (w, found) ↦
        rw (l.get_lem address c, found, cache_get_balance)
          (right address w found, λ a v h. right a v (sym (l.cached-get address a c) ∙ h))
  ]
    where
      asked :
          (a : String)
          → Answers l a (l.set address (manager address) (l.get address c).1) (manager a)
      asked a w h = elim (Bool-cases (address == a)) [
        | inl here ↦
            let at : address ≡ a = (eq_iff address a).0 here in
            l.set_lem address (manager address) w (l.get address c).1 (
              subst (λ j. l.cached j (l.set address (manager address) (l.get address c).1) ≡ some w)
                (sym at) h)
            ∙ ap manager at
        | inr there ↦ right a w (
            sym (l.cached-get address a c)
            ∙ l.kept address a (manager address) w (l.get address c).1 there h)
      ]

  -- Out of proxy mode a request is answered by the balance that the block manager gives for the
  -- address, from the cache or from the manager, and what is cached stays right; in proxy mode it
  -- is handed on, and nothing changes.
  pub balance_request-Answers :
      (manager : String → Int64) (address ip : String) (ch : ℕ) (s : BalanceState l)
      → ((a : String) → Answers l a s.cache (manager a))
      → ((a : String) → Answers l a (balance_request l manager address ip ch s).0.cache (manager a))
        × ((balance_request l manager address ip ch s).1
            ≡ (if s.proxy_mode then proxied address ip ch else balance_to ch (manager address)))
  unfolding balance_request
  balance_request-Answers manager address ip ch s right = elim (Bool-cases s.proxy_mode) [
    | inl proxy ↦ rw (proxy, balance_request) (right, refl)
    | inr direct ↦
        let (answer, after) = get_turn manager address s.cache right in
        rw (direct, balance_request) (after, ap (balance_to ch) answer)
  ]
