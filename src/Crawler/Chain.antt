-- ===== src/Crawler/Chain.antt =====
-- crawler/crawler.go: what `processBlock` does to the chain of hashes that the crawler follows, of
-- which it keeps the last 500.
use gobalance.Common.{
  ltb, leb, Bool-cases, length, tail, last?, drop_last, length-append, int64_size, add64, ℕ, ◌+◌,
  ◌%◌, ◌≤◌, ◌<◌, ◌≡◌, refl, sym, ap, ◌∙◌, inl, inr, true, false, List, [], ◌∷◌, ◌++◌, append_assoc,
  arith,
}
use gobalance.Crawler.{Crawler, crawler_new_block, new_crawler}
use gobalance.Deque.{Deque}
use gobalance.Primitives.{Hash}

pub last?-append_cons :
    (xs : List Hash) (y : Hash) (ys : List Hash) → last? (xs ++ y ∷ ys) ≡ last? (y ∷ ys)
last?-append_cons [] y ys = refl
last?-append_cons (x ∷ []) y ys = refl
last?-append_cons (x ∷ z ∷ xs) y ys = last?-append_cons (z ∷ xs) y ys

pub drop_last-append_cons :
    (xs : List Hash) (y : Hash) (ys : List Hash)
    → drop_last (xs ++ y ∷ ys) ≡ xs ++ drop_last (y ∷ ys)
drop_last-append_cons [] y ys = refl
drop_last-append_cons (x ∷ []) y ys = refl
drop_last-append_cons (x ∷ z ∷ xs) y ys = ap (◌∷◌ x) (drop_last-append_cons (z ∷ xs) y ys)

module _ (d : Deque) (start : ℕ) where
  -- The crawler follows the chain, whose first hash is that of the block before the height `start`:
  -- it keeps its last hashes, at least one and at most 500, and asks for the next height.
  pub record Follows (chain : List Hash) (c : Crawler d) : Type 0 where
    pub older : List Hash
    pub first : Hash
    pub rest : List Hash
    pub whole : chain ≡ older ++ first ∷ rest
    pub queued : d.items c.block_queue ≡ first ∷ rest
    pub bounded : length (first ∷ rest) ≤ 500
    pub height : add64 c.height 1 ≡ (start + length chain) % int64_size

  -- A new crawler follows the chain of the one hash it is given.
  pub new_crawler-Follows :
      (prev_block_hash : Hash)
      → Follows (prev_block_hash ∷ []) (new_crawler d start prev_block_hash)
  unfolding new_crawler
  new_crawler-Follows h = record {
    older = [];
    first = h;
    rest = [];
    whole = refl;
    queued = d.items-push_back h d.new ∙ ap (λ l. l ++ h ∷ []) d.items-new;
    bounded = omega arith;
    height = refl;
  }

  ltb_of : {l n : ℕ} → l ≡ n → 500 < n → ltb 500 l ≡ true
  ltb_of h k = ground arith

  not_ltb_of : {l n : ℕ} → l ≡ n → n ≤ 500 → ltb 500 l ≡ false
  not_ltb_of h k = ground arith

  pushed :
      (hash first : Hash) (rest : List Hash) (c : Crawler d)
      → d.items c.block_queue ≡ first ∷ rest
      → d.items (d.push_back hash c.block_queue) ≡ first ∷ (rest ++ hash ∷ [])
  pushed hash first rest c queued =
      d.items-push_back hash c.block_queue ∙ ap (λ l. l ++ hash ∷ []) queued

  over_full :
      (hash first : Hash) (rest : List Hash) (c : Crawler d)
      → d.items c.block_queue ≡ first ∷ rest
      → 500 < length (first ∷ (rest ++ hash ∷ []))
      → d.items (crawler_new_block d hash c).block_queue ≡ rest ++ hash ∷ []
  unfolding crawler_new_block
  over_full hash first rest c queued over =
      let p = pushed hash first rest c queued in
      let q = d.push_back hash c.block_queue in
      rw (ltb_of (d.len_lem q ∙ ap length p) over) (d.items-pop_front q ∙ ap tail p)

  not_full :
      (hash first : Hash) (rest : List Hash) (c : Crawler d)
      → d.items c.block_queue ≡ first ∷ rest
      → length (first ∷ (rest ++ hash ∷ [])) ≤ 500
      → d.items (crawler_new_block d hash c).block_queue ≡ first ∷ (rest ++ hash ∷ [])
  unfolding crawler_new_block
  not_full hash first rest c queued fit =
      let p = pushed hash first rest c queued in
      let q = d.push_back hash c.block_queue in rw (not_ltb_of (d.len_lem q ∙ ap length p) fit) p

  new_height :
      (hash : Hash) (c : Crawler d) → (crawler_new_block d hash c).height ≡ add64 c.height 1
  unfolding crawler_new_block
  new_height hash c = refl

  pub crawler_new_block-Follows :
      (hash : Hash) (chain : List Hash) (c : Crawler d)
      → Follows chain c
      → Follows (chain ++ hash ∷ []) (crawler_new_block d hash c)
  crawler_new_block-Follows hash chain c x = grown x.older x.first x.rest x.whole x.queued x.bounded
    where
      at :
          add64 (crawler_new_block d hash c).height 1
          ≡ (start + length (chain ++ hash ∷ [])) % int64_size
      at = omega (arith, new_height hash c, x.height, length-append chain (hash ∷ []))

      grown :
          (older : List Hash) (first : Hash) (rest : List Hash)
          → chain ≡ older ++ first ∷ rest
          → d.items c.block_queue ≡ first ∷ rest
          → length (first ∷ rest) ≤ 500
          → Follows (chain ++ hash ∷ []) (crawler_new_block d hash c)
      grown older first [] whole queued few = record {
        older = older;
        first = first;
        rest = hash ∷ [];
        whole = rw whole (append_assoc older (first ∷ []) (hash ∷ []));
        queued = not_full hash first [] c queued (omega arith);
        bounded = omega arith;
        height = at;
      }
      grown older first (second ∷ rest) whole queued few =
          elim (Bool-cases (leb (length (first ∷ second ∷ (rest ++ hash ∷ []))) 500)) [
            | inl fit ↦ record {
              older = older;
              first = first;
              rest = second ∷ (rest ++ hash ∷ []);
              whole = rw whole (append_assoc older (first ∷ second ∷ rest) (hash ∷ []));
              queued = not_full hash first (second ∷ rest) c queued (ground arith);
              bounded = ground arith;
              height = at;
            }
            | inr over ↦ record {
              older = older ++ first ∷ [];
              first = second;
              rest = rest ++ hash ∷ [];
              whole =
                  rw (whole, append_assoc older (first ∷ second ∷ rest) (hash ∷ []))
                    (sym (append_assoc older (first ∷ []) (second ∷ (rest ++ hash ∷ []))));
              queued = over_full hash first (second ∷ rest) c queued (ground arith);
              bounded = omega (arith, few, length-append rest (hash ∷ []));
              height = at;
            }
          ]
