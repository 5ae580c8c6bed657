-- ===== src/BlockQueue/Blocks.antt =====
-- primitives/block_queue.go: what `blockUpdateAddress` does for a whole block.
use gobalance.Common.{
  Bool-cases, length, drop, tail, drop-tail, is_some, Refines, int64_size, add64, sub64, nat_key,
  string_key, ◌-◌, ◌≤◌, ◌<◌, String, ◌≡◌, refl, subst, inl, inr, true, false, some, List, [], ◌∷◌,
  ◌++◌, append-nil, append_assoc, arith,
}
use gobalance.Deque.{Deque}
use gobalance.Primitives.{Tx, Block, RangeOrder, IsRangeOrder}
use gobalance.Primitives.Deltas.{delta, touches}
use gobalance.Primitives.Visits.{visits, AllReady, each_tx-Refines}
use gobalance.BlockQueue.{BlockQueue, add_address, del_address, block_update_address}
use gobalance.BlockQueue.Views.{View, nonempty, has_txs, credit, debit, Shows, net, history}
use gobalance.BlockQueue.Turns.{add_turn, del_turn}

pub net-lt-size : (a : String) (ts : List Tx) → net a ts < int64_size
net-lt-size a [] = omega arith
net-lt-size a (t ∷ ts) = ground (arith, net-lt-size a ts)

pub net-append : (a : String) (ts us : List Tx) → net a (ts ++ us) ≡ add64 (net a ts) (net a us)
net-append a [] us = omega (arith, net-lt-size a us)
net-append a (t ∷ ts) us = ground (arith, net-append a ts us)

abbrev pub credited : String → List Tx → View → View
credited a ts v = record { balance = add64 v.balance (net a ts); txs = v.txs ++ history a ts }

abbrev pub debited : String → List Tx → View → View
debited a ts v = record {
  balance = sub64 v.balance (net a ts);
  txs = drop (length (history a ts)) v.txs;
}

visits-credit :
    (a : String) (ts : List Tx) (v : View)
    → v.balance < int64_size
    → visits credit a ts v ≡ credited a ts v
visits-credit a [] v h = ground (arith, append-nil v.txs)
visits-credit a (t ∷ ts) v h = elim (Bool-cases (touches a t)) [
  | inl touched ↦
      rw (touched, visits-credit a ts (credit t (delta a t) v) (omega arith))
        (ground (arith, append_assoc v.txs (t ∷ []) (history a ts)))
  | inr untouched ↦ rw (untouched, visits-credit a ts v h)
]

visits-debit :
    (a : String) (ts : List Tx) (v : View)
    → v.balance < int64_size
    → visits debit a ts v ≡ debited a ts v
visits-debit a [] v h = ground arith
visits-debit a (t ∷ ts) v h = elim (Bool-cases (touches a t)) [
  | inl touched ↦
      rw (touched, visits-debit a ts (debit t (delta a t) v) (omega arith))
        (ground (arith, drop-tail (length (history a ts)) v.txs))
  | inr untouched ↦ rw (untouched, visits-debit a ts v h)
]

always_ready : (a : String) (ts : List Tx) (v : View) → AllReady credit (λ _. true) a ts v
always_ready a [] v = tt
always_ready a (t ∷ ts) v = (λ _. refl, always_ready a ts _)

has_txs_of_length : (v : View) → 0 < length v.txs → has_txs v ≡ true
has_txs_of_length v h = go v.txs h
  where
    go : (ts : List Tx) → 0 < length ts → is_some (nonempty ts) ≡ true
    go [] h = absurd (omega arith)
    go (t ∷ ts) h = refl

length-tail : (ts : List Tx) → length (tail ts) ≡ length ts - 1
length-tail [] = omega arith
length-tail (t ∷ ts) = omega arith

debits_ready :
    (a : String) (ts : List Tx) (v : View)
    → length (history a ts) ≤ length v.txs
    → AllReady debit has_txs a ts v
debits_ready a [] v h = tt
debits_ready a (t ∷ ts) v h = elim (Bool-cases (touches a t)) [
  | inl touched ↦ (
    λ _. has_txs_of_length v (ground arith),
    rw touched (debits_ready a ts (debit t (delta a t) v) (ground (arith, length-tail v.txs))),
  )
  | inr untouched ↦ (λ e. cc, rw untouched (debits_ready a ts v (ground arith)))
]

module _ (d : Deque) (order : RangeOrder) (ranges : IsRangeOrder order) (block : Block)
    (base b : BlockQueue d) (view : String → View) (shows : Refines (Shows d base) b view)
    (small : (a : String) → (view a).balance < int64_size) where
  pub block_update_address-credits :
      (b' : BlockQueue d) × (block_update_address d order block false b ≡ some b')
      × Refines (Shows d base) b' (λ a. credited a block.transactions (view a))
  unfolding block_update_address
  block_update_address-credits =
      let (b', ran, shows') =
        each_tx-Refines (Shows d base) (add_address d) credit (λ _. true)
          (λ t k v s w r h. add_turn d base t k v s w r h) order ranges block.transactions b view
          (λ a. always_ready a block.transactions (view a)) shows in
      (
        b',
        ran,
        λ a.
            subst (Shows d base a b') (visits-credit a block.transactions (view a) (small a))
              (shows' a),
      )

  pub block_update_address-debits :
      ((a : String) → length (history a block.transactions) ≤ length (view a).txs)
      → (b' : BlockQueue d) × (block_update_address d order block true b ≡ some b')
        × Refines (Shows d base) b' (λ a. debited a block.transactions (view a))
  unfolding block_update_address
  block_update_address-debits enough =
      let (b', ran, shows') =
        each_tx-Refines (Shows d base) (del_address d) debit has_txs
          (λ t k v s w r h. del_turn d base t k v s w r h) order ranges block.transactions b view
          (λ a. debits_ready a block.transactions (view a) (enough a)) shows in
      (
        b',
        ran,
        λ a.
            subst (Shows d base a b') (visits-debit a block.transactions (view a) (small a))
              (shows' a),
      )
