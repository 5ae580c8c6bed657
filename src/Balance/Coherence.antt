-- ===== src/Balance/Coherence.antt =====
-- balance/cache.go and balance.go: `addBalance` and `remBalance` against the balances of the chain.
use text.Mathlib.TextEquality.{eq_iff}
use gobalance.Common.{
  if◌then◌else◌, Bool-cases, Option-cases, Map, Unique, update_at, Refines, Int64, int64_size,
  add64, sub64, string_key, nat_key, ◌==◌, ◌<◌, String, ◌≡◌, refl, sym, ap, ◌∙◌, subst, inl, inr,
  true, none, some, List, [], ◌∷◌, arith,
}
use gobalance.Primitives.Visits.{each_tx-Refines, each_tx, AllReady, visits}
use gobalance.Primitives.Deltas.{touches, delta}
use gobalance.Lru.{Lru}
use gobalance.Primitives.{RangeOrder, for_each_address, IsRangeOrder, Tx}
use gobalance.BlockQueue.Views.{net}
use gobalance.Balance.{rem_cached, add_cached}
use gobalance.BlockQueue.Blocks.{net-lt-size}
use gobalance.Storage.Cache.Balances.{balance_in-lt-size}
use gobalance.Storage.{TxOutData, TxOutId, tx_out_id_key, balance_in}
use gobalance.BlockManager.Ledger.{balance_in-with_txs, FitsTxs}
use gobalance.Storage.Cache.Ledger.{with_txs}

module _ (l : Lru Int64) where
  -- A balance that is cached for the address is this one.
  abbrev pub Answers : String → l.Cache → Int64 → Type 0
  Answers a c n = (w : Int64) → l.cached a c ≡ some w → w ≡ n

  abbrev plus : Tx → Int64 → Int64 → Int64
  plus t v n = add64 n v

  abbrev minus : Tx → Int64 → Int64 → Int64
  minus t v n = sub64 n v

  visits-plus :
      (a : String) (ts : List Tx) (n : Int64)
      → n < int64_size
      → visits plus a ts n ≡ add64 n (net a ts)
  visits-plus a [] n small = omega arith
  visits-plus a (t ∷ ts) n small = elim (Bool-cases (touches a t)) [
    | inl e ↦
        rw (e, visits-plus a ts (add64 n (delta a t)) (omega arith))
          (omega (arith, net-lt-size a ts))
    | inr e ↦ rw (e, visits-plus a ts n small)
  ]

  visits-minus :
      (a : String) (ts : List Tx) (n : Int64)
      → n < int64_size
      → visits minus a ts n ≡ sub64 n (net a ts)
  visits-minus a [] n small = omega arith
  visits-minus a (t ∷ ts) n small = elim (Bool-cases (touches a t)) [
    | inl e ↦
        rw (e, visits-minus a ts (sub64 n (delta a t)) (omega arith))
          (omega (arith, net-lt-size a ts))
    | inr e ↦ rw (e, visits-minus a ts n small)
  ]

  ready_always :
      (upd : Tx → Int64 → Int64 → Int64) (a : String) (ts : List Tx) (n : Int64)
      → AllReady upd (λ _. true) a ts n
  ready_always upd a [] n = tt
  ready_always upd a (t ∷ ts) n = (λ _. refl, ready_always upd a ts _)

  -- A turn that sets the balance of one address, or finds it uncached.
  set_turn :
      (upd : Int64 → Int64) (k : String) (c : l.Cache) (view : String → Int64) (current v : Int64)
      → Refines Answers c view
      → l.cached k c ≡ some current
      → v ≡ upd current
      → (a : String) → Answers a (l.set k v (l.get k c).1) (if k == a then upd (view a) else view a)
  set_turn upd k c view current v r found same a w h = elim (Bool-cases (k == a)) [
    | inl here ↦
        let at : k ≡ a = (eq_iff k a).0 here in
        rw here (
          l.set_lem k v w (l.get k c).1
            (subst (λ j. l.cached j (l.set k v (l.get k c).1) ≡ some w) (sym at) h)
          ∙ same
          ∙ ap upd (r k current found)
          ∙ ap (λ j. upd (view j)) at)
    | inr there ↦ rw there (r a w (sym (l.cached-get k a c) ∙ l.kept k a v w (l.get k c).1 there h))
  ]

  unset_turn :
      (upd : Int64 → Int64) (k : String) (c : l.Cache) (view : String → Int64)
      → Refines Answers c view
      → l.cached k c ≡ none
      → (a : String) → Answers a (l.get k c).1 (if k == a then upd (view a) else view a)
  unset_turn upd k c view r absent a w h = elim (Bool-cases (k == a)) [
    | inl here ↦ absurd (
        not_found (
          sym absent
          ∙ subst (λ j. l.cached j c ≡ some w) (sym ((eq_iff k a).0 here))
              (sym (l.cached-get k a c) ∙ h)))
    | inr there ↦ rw there (r a w (sym (l.cached-get k a c) ∙ h))
  ]
    where
      not_found : none ≡ some w → ⊥
      not_found e = cc

  add_turn :
      (t : Tx) (k : String) (v : Int64) (c : l.Cache) (view : String → Int64)
      → Refines Answers c view
      → true ≡ true
      → (c' : l.Cache) × (add_cached l k v t c ≡ some c')
        × Refines Answers c' (update_at (plus t) k v view)
  unfolding add_cached
  add_turn t k v c view r _ = elim (Option-cases (l.cached k c)) [
    | inl absent ↦ (
      (l.get k c).1,
      rw (l.get_lem k c, absent, add_cached),
      unset_turn (λ n. add64 n v) k c view r absent,
    )
    | inr (current, found) ↦ (
      l.set k (add64 current v) (l.get k c).1,
      rw (l.get_lem k c, found, add_cached),
      set_turn (λ n. add64 n v) k c view current (add64 current v) r found refl,
    )
  ]

  rem_turn :
      (t : Tx) (k : String) (v : Int64) (c : l.Cache) (view : String → Int64)
      → Refines Answers c view
      → true ≡ true
      → (c' : l.Cache) × (rem_cached l k v t c ≡ some c')
        × Refines Answers c' (update_at (minus t) k v view)
  unfolding rem_cached
  rem_turn t k v c view r _ = elim (Option-cases (l.cached k c)) [
    | inl absent ↦ (
      (l.get k c).1,
      rw (l.get_lem k c, absent, rem_cached),
      unset_turn (λ n. sub64 n v) k c view r absent,
    )
    | inr (current, found) ↦ (
      l.set k (sub64 current v) (l.get k c).1,
      rw (l.get_lem k c, found, rem_cached),
      set_turn (λ n. sub64 n v) k c view current (sub64 current v) r found refl,
    )
  ]

  module _ (order : RangeOrder) (ranges : IsRangeOrder order) (ts : List Tx) (c : l.Cache)
      (m : Map TxOutId TxOutData) (u : Unique m) (fits : FitsTxs ts m) where
    pub added_txs :
        ((a : String) → Answers a c (balance_in a m))
        → (c' : l.Cache) × (each_tx (for_each_address order (add_cached l)) ts c ≡ some c')
          × ((a : String) → Answers a c' (balance_in a (with_txs ts m)))
    added_txs right =
        let (c', ran, r) =
          each_tx-Refines Answers (add_cached l) plus (λ _. true) add_turn order ranges ts c
            (λ a. balance_in a m) (λ a. ready_always plus a ts _) right in
        (
          c',
          ran,
          λ a.
              subst (Answers a c')
                (visits-plus a ts (balance_in a m) (balance_in-lt-size a m)
                  ∙ sym (balance_in-with_txs a ts m u fits))
                (r a),
        )

    pub removed_txs :
        ((a : String) → Answers a c (balance_in a (with_txs ts m)))
        → (c' : l.Cache) × (each_tx (for_each_address order (rem_cached l)) ts c ≡ some c')
          × ((a : String) → Answers a c' (balance_in a m))
    removed_txs right =
        let (c', ran, r) =
          each_tx-Refines Answers (rem_cached l) minus (λ _. true) rem_turn order ranges ts c
            (λ a. balance_in a (with_txs ts m)) (λ a. ready_always minus a ts _) right in
        (
          c',
          ran,
          λ a.
              subst (Answers a c')
                (visits-minus a ts _ (balance_in-lt-size a (with_txs ts m))
                  ∙ omega (
                    arith,
                    balance_in-with_txs a ts m u fits,
                    balance_in-lt-size a m,
                    net-lt-size a ts,
                  ))
                (r a),
        )
