-- ===== src/Deque.antt =====
-- The double-ended queue of primitives/queue (a copy of phf/go-queue) as the program uses it: the
-- operations and what its README and comments promise of them. `items` is what an iterator of the
-- queue yields, from front to back.
use gobalance.Common.{
  length, head?, tail, last?, drop_last, ℕ, ◌≡◌, refl, Option, List, [], ◌∷◌, ◌++◌,
}

pub record Deque : Type 1 where
  pub Queue : Type 0 → Type 0
  pub new : {A : Type 0} → Queue A
  pub push_back : {A : Type 0} → A → Queue A → Queue A
  pub push_front : {A : Type 0} → A → Queue A → Queue A
  pub pop_front : {A : Type 0} → Queue A → Option A × Queue A
  pub pop_back : {A : Type 0} → Queue A → Option A × Queue A
  pub front : {A : Type 0} → Queue A → Option A
  pub back : {A : Type 0} → Queue A → Option A
  pub len : {A : Type 0} → Queue A → ℕ
  pub items : {A : Type 0} → Queue A → List A
  pub items-new : {A : Type 0} → items (new {A = A}) ≡ []
  pub items-push_back :
      {A : Type 0} (x : A) (q : Queue A) → items (push_back x q) ≡ items q ++ x ∷ []
  pub items-push_front : {A : Type 0} (x : A) (q : Queue A) → items (push_front x q) ≡ x ∷ items q
  pub pop_front_lem : {A : Type 0} (q : Queue A) → (pop_front q).0 ≡ head? (items q)
  pub items-pop_front : {A : Type 0} (q : Queue A) → items (pop_front q).1 ≡ tail (items q)
  pub pop_back_lem : {A : Type 0} (q : Queue A) → (pop_back q).0 ≡ last? (items q)
  pub items-pop_back : {A : Type 0} (q : Queue A) → items (pop_back q).1 ≡ drop_last (items q)
  pub front_lem : {A : Type 0} (q : Queue A) → front q ≡ head? (items q)
  pub back_lem : {A : Type 0} (q : Queue A) → back q ≡ last? (items q)
  pub len_lem : {A : Type 0} (q : Queue A) → len q ≡ length (items q)

-- A queue kept as the list of its items: what is assumed can be met.
abbrev pub list_deque : Deque
list_deque = record {
  Queue = List;
  new = [];
  push_back = λ x q. q ++ x ∷ [];
  push_front = λ x q. x ∷ q;
  pop_front = λ q. (head? q, tail q);
  pop_back = λ q. (last? q, drop_last q);
  front = λ q. head? q;
  back = λ q. last? q;
  len = λ q. length q;
  items = λ q. q;
  items-new = refl;
  items-push_back = λ x q. refl;
  items-push_front = λ x q. refl;
  pop_front_lem = λ q. refl;
  items-pop_front = λ q. refl;
  pop_back_lem = λ q. refl;
  items-pop_back = λ q. refl;
  front_lem = λ q. refl;
  back_lem = λ q. refl;
  len_lem = λ q. refl;
}
