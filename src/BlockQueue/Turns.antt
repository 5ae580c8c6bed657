-- ===== src/BlockQueue/Turns.antt =====
-- primitives/block_queue.go: `addAddress` and `delAddress`, seen from their own address and from
-- another one.
use gobalance.Common.{
  eqb, if◌then◌else◌, Bool-cases, Option-cases, length, tail, nil_of_length, Map, get_or, is_some,
  lookup, delete, insert, lookup-delete, lookup-insert, update_at, Refines, Int64, add64, sub64,
  ◌==◌, nat_key, string_key, String, ◌≡◌, refl, sym, ap, ◌∙◌, ◌≢◌, inl, inr, true, false, Option,
  none, some, List, [], ◌∷◌, ◌++◌, arith,
}
use text.Mathlib.TextEquality.{eq_iff}
use gobalance.Deque.{Deque}
use gobalance.Primitives.{Tx}
use gobalance.BlockQueue.{BlockQueue, set_balance, add_address, del_from, del_address}
use gobalance.BlockQueue.Views.{View, nonzero, nonempty, has_txs, credit, debit, stored, Shows}

pub get_or-nonzero : (o : Option Int64) (n : Int64) → o ≡ nonzero n → get_or o 0 ≡ n
get_or-nonzero o n h = ground arith

pub lookup-set_balance :
    (k a : String) (n : Int64) (m : Map String Int64)
    → lookup a (set_balance k n m) ≡ (if k == a then nonzero n else lookup a m)
unfolding set_balance
lookup-set_balance k a n m = elim (Bool-cases (eqb n 0)) [
  | inl e ↦ rw (e, lookup-delete)
  | inr e ↦ rw (e, lookup-insert)
]

nonempty-append_one : (ts : List Tx) (t : Tx) → nonempty (ts ++ t ∷ []) ≡ some (ts ++ t ∷ [])
nonempty-append_one [] t = refl
nonempty-append_one (x ∷ ts) t = refl

module _ (d : Deque) where
  items-get_or :
      (o : Option (d.Queue Tx)) (ts : List Tx)
      → stored d o ≡ nonempty ts
      → d.items (get_or o d.new) ≡ ts
  items-get_or none [] h = d.items-new
  items-get_or none (t ∷ ts) h = cc
  items-get_or (some q) [] h = cc
  items-get_or (some q) (t ∷ ts) h = ground arith

  some-nonempty : (ts : List Tx) → ts ≢ [] → some ts ≡ nonempty ts
  some-nonempty [] h = absurd (h refl)
  some-nonempty (t ∷ ts) h = refl

  append_one_ne : (ts : List Tx) (t : Tx) → ts ++ t ∷ [] ≢ []
  append_one_ne [] t = λ e. cc
  append_one_ne (x ∷ ts) t = λ e. cc

  -- A turn for the address `k`, seen from the address `a`.
  module _ (base : BlockQueue d) (k : String) (s : BlockQueue d) (view : String → View)
      (r : Refines (Shows d base) s view) (upd : View → View) (a : String) where
    at_same : (k == a) ≡ true → upd (view k) ≡ upd (view a)
    at_same same = ap (λ j. upd (view j)) ((eq_iff k a).0 same)

    balance_turn :
        (n : Int64)
        → n ≡ (upd (view k)).balance
        → lookup a (set_balance k n s.addr_balance)
          ≡ nonzero (if k == a then upd (view a) else view a).balance
    balance_turn n h = rw lookup-set_balance (elim (Bool-cases (k == a)) [
      | inl same ↦ rw same (ap nonzero (h ∙ ap (λ (o : View). o.balance) (at_same same)))
      | inr other ↦ rw other (r a).balance
    ])

    insert_turn :
        (q : d.Queue Tx)
        → d.items q ≡ (upd (view k)).txs
        → d.items q ≢ []
        → stored d (lookup a (insert k q s.addr_tx))
          ≡ nonempty (if k == a then upd (view a) else view a).txs
    insert_turn q h ne = rw lookup-insert (elim (Bool-cases (k == a)) [
      | inl same ↦
          rw same (
            some-nonempty (d.items q) ne
            ∙ ap nonempty (h ∙ ap (λ (o : View). o.txs) (at_same same)))
      | inr other ↦ rw other (r a).txs
    ])

    delete_turn :
        [] ≡ (upd (view k)).txs
        → stored d (lookup a (delete k s.addr_tx))
          ≡ nonempty (if k == a then upd (view a) else view a).txs
    delete_turn h = rw lookup-delete (elim (Bool-cases (k == a)) [
      | inl same ↦ rw same (ap nonempty (h ∙ ap (λ (o : View). o.txs) (at_same same)))
      | inr other ↦ rw other (r a).txs
    ])

  module _ (base : BlockQueue d) (t : Tx) (k : String) (v : Int64) (s : BlockQueue d)
      (view : String → View) (r : Refines (Shows d base) s view) where
    old_balance : get_or (lookup k s.addr_balance) 0 ≡ (view k).balance
    old_balance = get_or-nonzero _ _ (r k).balance

    pushed_txs :
        d.items (d.push_back t (get_or (lookup k s.addr_tx) d.new)) ≡ (view k).txs ++ t ∷ []
    pushed_txs = rw (d.items-push_back, items-get_or (lookup k s.addr_tx) (view k).txs (r k).txs)

    pub add_turn :
        true ≡ true
        → (s' : BlockQueue d) × (add_address d k v t s ≡ some s')
          × Refines (Shows d base) s' (update_at (credit t) k v view)
    unfolding add_address
    add_turn _ = (
      _,
      refl,
      λ a. record {
        balance = balance_turn base k s view r (credit t v) a _ (ap (λ n. add64 n v) old_balance);
        txs =
            insert_turn base k s view r (credit t v) a _ pushed_txs
              (rw pushed_txs (append_one_ne (view k).txs t));
        same_blocks = (r k).same_blocks;
        same_index = (r k).same_index;
      },
    )

    popped_txs :
        (q : d.Queue Tx)
        → lookup k s.addr_tx ≡ some q
        → d.items (d.pop_front q).1 ≡ tail (view k).txs
    popped_txs q found =
        d.items-pop_front q
        ∙ ap tail (rw found at (items-get_or (lookup k s.addr_tx) (view k).txs (r k).txs))

    indexed_of_has_txs : has_txs (view k) ≡ true → (q : d.Queue Tx) × (lookup k s.addr_tx ≡ some q)
    indexed_of_has_txs h = elim (Option-cases (lookup k s.addr_tx)) [
      | inl absent ↦ absurd (no_txs (view k).txs h (rw absent at (r k).txs))
      | inr found ↦ found
    ]
      where
        no_txs : (ts : List Tx) → is_some (nonempty ts) ≡ true → none ≡ nonempty ts → ⊥
        no_txs [] h e = cc
        no_txs (x ∷ ts) h e = cc

    del_balance :
        (a : String)
        → lookup a (set_balance k (sub64 (get_or (lookup k s.addr_balance) 0) v) s.addr_balance)
          ≡ nonzero (update_at (debit t) k v view a).balance
    del_balance a = balance_turn base k s view r (debit t v) a _ (ap (λ n. sub64 n v) old_balance)

    ne_nil_of_len : (q : d.Queue Tx) → eqb (d.len q) 0 ≡ false → d.items q ≢ []
    ne_nil_of_len q h e = ground (arith, d.len_lem q, ap length e)

    nil_of_len : (q : d.Queue Tx) → eqb (d.len q) 0 ≡ true → d.items q ≡ []
    nil_of_len q h = nil_of_length (d.items q) (ground (arith, d.len_lem q))

    del_txs :
        (q : d.Queue Tx) (a : String)
        → lookup k s.addr_tx ≡ some q
        → stored d (lookup a (del_from d (d.pop_front q).1 k v s).addr_tx)
          ≡ nonempty (update_at (debit t) k v view a).txs
    unfolding del_from
    del_txs q a found = elim (Bool-cases (eqb (d.len (d.pop_front q).1) 0)) [
      | inl emptied ↦ rw emptied (
          delete_turn base k s view r (debit t v) a
            (sym (nil_of_len (d.pop_front q).1 emptied) ∙ popped_txs q found))
      | inr kept ↦ rw kept (
          insert_turn base k s view r (debit t v) a (d.pop_front q).1 (popped_txs q found)
            (ne_nil_of_len (d.pop_front q).1 kept))
    ]

    del_keeps :
        (q : d.Queue Tx)
        → ((del_from d q k v s).blocks ≡ base.blocks)
          × ((del_from d q k v s).tx_index ≡ base.tx_index)
    unfolding del_from
    del_keeps q = ((r k).same_blocks, (r k).same_index)

    pub del_turn :
        has_txs (view k) ≡ true
        → (s' : BlockQueue d) × (del_address d k v t s ≡ some s')
          × Refines (Shows d base) s' (update_at (debit t) k v view)
    unfolding del_address
    del_turn h =
        let (q, found) = indexed_of_has_txs h in
        (
          del_from d (d.pop_front q).1 k v s,
          rw (found, del_address),
          λ a. record {
            balance = del_balance a;
            txs = del_txs q a found;
            same_blocks = (del_keeps (d.pop_front q).1).0;
            same_index = (del_keeps (d.pop_front q).1).1;
          },
        )
