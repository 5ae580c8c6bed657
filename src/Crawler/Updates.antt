-- ===== src/Crawler/Updates.antt =====
-- crawler/crawler.go: `processBlock` and the updates that it sends.
use gobalance.Common.{
  eqb, eqb_iff, Bool-cases, length, last?, drop_last, length-append, length-drop_last, int64_size,
  add64, sub64, ℕ, suc, ◌+◌, ◌%◌, ◌≤◌, ◌≡◌, refl, sym, ap, ◌∙◌, ◌≢◌, ◌⊎◌, inl, inr, false, Option,
  none, some, List, [], ◌∷◌, ◌++◌, arith,
}
use gobalance.Primitives.{Hash}
use gobalance.Crawler.{
  Sent, process_block, crawler_new_block, new_block_update, BlockUpdate, notify_subscribers,
  op_newblock, op_backtrack, follow, verify_hash, new_fetcher, crawler_backtrack, Crawler,
}
use gobalance.Deque.{Deque}
use gobalance.Crawler.Chain.{
  crawler_new_block-Follows, drop_last-append_cons, last?-append_cons, Follows,
}
use gobalance.Wire.{Wire, WireBlock}

module _ (d : Deque) (start : ℕ) where
  one_left : {l n : ℕ} → l ≡ suc (suc n) → eqb l 1 ≡ false
  one_left h = ground arith

  crawler_backtrack-Follows :
      (chain older : List Hash) (first second : Hash) (rest : List Hash) (last : Hash)
      (c : Crawler d)
      → chain ≡ older ++ first ∷ second ∷ rest
      → d.items c.block_queue ≡ first ∷ second ∷ rest
      → last? chain ≡ some last
      → length (first ∷ second ∷ rest) ≤ 500
      → add64 c.height 1 ≡ (start + length chain) % int64_size
      → (c' : Crawler d) × (crawler_backtrack d c ≡ some (last, c'))
        × Follows d start (drop_last chain) c'
        × (c'.fetcher ≡ some c'.height)
        × (c'.subscribers ≡ c.subscribers)
  unfolding crawler_backtrack new_fetcher
  crawler_backtrack-Follows chain older first second rest last c whole queued ends few height =
      let h = sub64 c.height 1 in
      let left = (d.pop_back c.block_queue).1 in
      (
        record c { fetcher = some h; height = h; block_queue = left },
        rw (
          one_left (d.len_lem c.block_queue ∙ ap length queued),
          d.pop_back_lem c.block_queue
              ∙ ap last? queued
              ∙ sym (last?-append_cons older first (second ∷ rest))
              ∙ ap last? (sym whole)
              ∙ ends,
        ),
        record {
          older = older;
          first = first;
          rest = drop_last (second ∷ rest);
          whole = rw whole (drop_last-append_cons older first (second ∷ rest));
          queued = d.items-pop_back c.block_queue ∙ ap drop_last queued;
          bounded = omega (arith, few, length-drop_last (second ∷ rest));
          height = omega (
            arith,
            height,
            length-drop_last chain,
            ap length whole,
            length-append older (first ∷ second ∷ rest),
          );
        },
        refl,
        refl,
      )

  verify_hash-Follows :
      (verified hash : Hash) (chain : List Hash) (c : Crawler d)
      → Follows d start chain c
      → Follows d start chain (verify_hash d verified hash c)
        × ((verify_hash d verified hash c).subscribers ≡ c.subscribers)
  unfolding verify_hash new_fetcher
  verify_hash-Follows verified hash chain c x = elim (Bool-cases (eqb verified hash)) [
    | inl e ↦ rw (e, verify_hash) (x, refl)
    | inr e ↦
        rw (e, verify_hash)
          (
            record {
              older = x.older;
              first = x.first;
              rest = x.rest;
              whole = x.whole;
              queued = x.queued;
              bounded = x.bounded;
              height = x.height;
            },
            refl,
          )
  ]

  notifies_same :
      (u : BlockUpdate) (c c' : Crawler d)
      → c'.subscribers ≡ c.subscribers
      → notify_subscribers d u c' ≡ notify_subscribers d u c
  unfolding notify_subscribers
  notifies_same u c c' h = rw h

  new_block_subscribers :
      (hash : Hash) (c : Crawler d) → (crawler_new_block d hash c).subscribers ≡ c.subscribers
  unfolding crawler_new_block
  new_block_subscribers hash c = refl

  backtrack_limit : (c : Crawler d) → d.len c.block_queue ≡ 1 → crawler_backtrack d c ≡ none
  unfolding crawler_backtrack
  backtrack_limit c h = rw h

  -- How a crawler that follows the chain takes a block with the verified hash, on the last hash of
  -- the chain: it joins the chain and each subscriber is sent it with its height; or the last hash
  -- is dropped, the fetcher starts again at its height, and each subscriber is sent the hash; or it
  -- would drop the only hash that the queue has, and panics.
  abbrev pub Followed :
      WireBlock → Hash → Hash → List Hash → Crawler d → Option (Crawler d × List Sent) → Type 0
  Followed block verified last chain c outcome =
      ((block.prev_block ≡ last)
        × (c' : Crawler d) × (outcome
            ≡ some (
              c',
              notify_subscribers d
                  (new_block_update op_newblock (some block) verified (sub64 c'.height 1)) c,
            ))
        × Follows d start (chain ++ verified ∷ []) c')
      ⊎ ((block.prev_block ≢ last)
          × (c' : Crawler d) × (outcome
              ≡ some
                  (c', notify_subscribers d (new_block_update op_backtrack none last c'.height) c))
          × Follows d start (drop_last chain) c'
          × (c'.fetcher ≡ some c'.height))
      ⊎ ((block.prev_block ≢ last) × (d.len c.block_queue ≡ 1) × (outcome ≡ none))

  follow-Follows :
      (block : WireBlock) (verified last : Hash) (chain : List Hash) (c : Crawler d)
      → Follows d start chain c
      → last? chain ≡ some last
      → Followed block verified last chain c (follow d block verified last c)
  unfolding follow
  follow-Follows block verified last chain c x ends =
      elim (Bool-cases (eqb block.prev_block last)) [
        | inl joins ↦ inl (
          (eqb_iff _ _).0 joins,
          crawler_new_block d verified c,
          rw (
            joins,
            notifies_same
                (new_block_update op_newblock (some block) verified
                  (sub64 (crawler_new_block d verified c).height 1))
                c (crawler_new_block d verified c) (new_block_subscribers verified c),
          ),
          crawler_new_block-Follows d start verified chain c x,
        )
        | inr apart ↦ inr (dropped apart x.older x.first x.rest x.whole x.queued x.bounded)
      ]
    where
      ne_of : {m n : ℕ} → eqb m n ≡ false → m ≢ n
      ne_of h e = ground arith

      dropped :
          eqb block.prev_block last ≡ false
          → (older : List Hash) (first : Hash) (rest : List Hash) → chain ≡ older ++ first ∷ rest
          → d.items c.block_queue ≡ first ∷ rest
          → length (first ∷ rest) ≤ 500
          → ((block.prev_block ≢ last)
              × (c' : Crawler d) × (follow d block verified last c
                  ≡ some (
                    c',
                    notify_subscribers d (new_block_update op_backtrack none last c'.height) c,
                  ))
              × Follows d start (drop_last chain) c'
              × (c'.fetcher ≡ some c'.height))
            ⊎ ((block.prev_block ≢ last)
                × (d.len c.block_queue ≡ 1)
                × (follow d block verified last c ≡ none))
      dropped apart older first [] whole queued few =
          let one = d.len_lem c.block_queue ∙ ap length queued in
          inr (ne_of apart, one, rw (apart, backtrack_limit c one))
      dropped apart older first (second ∷ rest) whole queued few =
          let (c', ran, follows, fetching, same) =
            crawler_backtrack-Follows chain older first second rest last c whole queued ends few
              x.height in
          inl (
            ne_of apart,
            c',
            rw (
              apart,
              ran,
              notifies_same (new_block_update op_backtrack none last c'.height) c c' same,
            ),
            follows,
            fetching,
          )

  Followed-same :
      (block : WireBlock) (verified last : Hash) (chain : List Hash) (c c' : Crawler d)
      (o : Option (Crawler d × List Sent))
      → c'.subscribers ≡ c.subscribers
      → c'.block_queue ≡ c.block_queue
      → Followed block verified last chain c' o
      → Followed block verified last chain c o
  Followed-same block verified last chain c c' o same queue (inl (joins, c1, ran, x)) =
      inl (joins, c1, ran ∙ ap (λ l. some (c1, l)) (notifies_same _ c c' same), x)
  Followed-same block verified last chain c c' o same queue (inr (inl (apart, c1, ran, x, f))) =
      inr (inl (apart, c1, ran ∙ ap (λ l. some (c1, l)) (notifies_same _ c c' same), x, f))
  Followed-same block verified last chain c c' o same queue (inr (inr (apart, one, stuck))) =
      inr (inr (apart, ap d.len (sym queue) ∙ one, stuck))

  verify_hash-block_queue :
      (verified hash : Hash) (c : Crawler d)
      → (verify_hash d verified hash c).block_queue ≡ c.block_queue
  unfolding verify_hash new_fetcher
  verify_hash-block_queue verified hash c = ground arith

  last_of :
      (chain : List Hash) (c : Crawler d)
      → Follows d start chain c
      → d.back c.block_queue ≡ last? chain
  last_of chain c x =
      d.back_lem c.block_queue
      ∙ ap last? x.queued
      ∙ sym (last?-append_cons x.older x.first x.rest)
      ∙ ap last? (sym x.whole)

  -- `processBlock` takes a block that was fetched by the hash in its header and not by the hash
  -- that it was asked for: if it continues the chain it joins it, and each subscriber is sent the
  -- block and its height; if not, the last hash of the chain is dropped, the fetcher starts again
  -- at the height of that hash, and each subscriber is sent the hash. It panics just where a hash
  -- is to be dropped and the queue has no other.
  pub process_block-Follows :
      (w : Wire) (block : WireBlock) (hash last : Hash) (chain : List Hash) (c : Crawler d)
      → Follows d start chain c
      → last? chain ≡ some last
      → Followed block (w.block_hash block) last chain c (process_block d w block hash c)
  unfolding process_block
  process_block-Follows w block hash last chain c x ends =
      let verified = w.block_hash block in
      let c' = verify_hash d verified hash c in
      let (y, same) = verify_hash-Follows verified hash chain c x in
      rw (last_of chain c' y ∙ ends) (
        Followed-same block verified last chain c c' (follow d block verified last c') same
          (verify_hash-block_queue verified hash c)
          (follow-Follows block verified last chain c' y ends))
