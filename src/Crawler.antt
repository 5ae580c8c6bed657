-- ===== src/Crawler.antt =====
-- crawler/crawler.go: the crawler follows the chain of blocks, keeps the hashes of the last ones,
-- and tells its subscribers of new and dropped blocks. `none` is a panic. Channels are numbers.
pub mod Chain
pub mod Updates
pub mod Fetcher
pub mod Fetched
use gobalance.Common.{
  ltb, eqb, if◌then◌else◌, ◌>>=◌, Map, is_some, delete, insert, add64, sub64, string_key, nat_key,
  ℕ, Bool, true, Option, none, some, List, [], ◌∷◌, map,
}
use gobalance.Wire.{WireBlock, Wire}
use gobalance.Deque.{Deque}
use gobalance.Primitives.{Hash}

abbrev pub block_queue_size : ℕ
block_queue_size = 500

pub data UpdateClass : Type 0 where
  op_newblock op_backtrack : UpdateClass

pub record BlockUpdate : Type 0 where
  pub class : UpdateClass
  pub block : Option WireBlock
  pub hash : Hash
  pub height : ℕ

unfoldable pub new_block_update : UpdateClass → Option WireBlock → Hash → ℕ → BlockUpdate
new_block_update class block hash height = record {
  class = class;
  block = block;
  hash = hash;
  height = height;
}

-- `fetcher` is the height that the running fetcher was started at, if there is one.
pub record Crawler (d : Deque) : Type 0 where
  pub fetcher : Option ℕ
  pub subscribers : Map ℕ Bool
  pub height : ℕ
  pub block_queue : d.Queue Hash

-- what is sent to a channel
pub data Sent : Type 0 where
  update_to : ℕ → BlockUpdate → Sent
  done_to : ℕ → Sent

module _ (d : Deque) where
  unfoldable pub new_crawler : ℕ → Hash → Crawler d
  new_crawler start_height prev_block_hash = record {
    fetcher = none;
    subscribers = [];
    height = start_height;
    block_queue = d.push_back prev_block_hash d.new;
  }

  -- The fetcher that ran before is stopped.
  unfoldable pub new_fetcher : ℕ → Crawler d → Crawler d
  new_fetcher height c = record c { fetcher = some height }

  -- the hash that `PopBack` returns; nil is no hash, and panics
  unfoldable pub crawler_backtrack : Crawler d → Option (Hash × Crawler d)
  unfolding new_fetcher
  crawler_backtrack c =
      if eqb (d.len c.block_queue) 1
      then none
      else (let c' = new_fetcher (sub64 c.height 1) (record c { height = sub64 c.height 1 }) in
          (d.pop_back c'.block_queue).0 >>= λ hash.
          some (hash, record c' { block_queue = (d.pop_back c'.block_queue).1 }))

  unfoldable pub crawler_new_block : Hash → Crawler d → Crawler d
  crawler_new_block hash c =
      let q = d.push_back hash c.block_queue in
      record c {
        height = add64 c.height 1;
        block_queue = if ltb block_queue_size (d.len q) then (d.pop_front q).1 else q;
      }

  unfoldable pub notify_subscribers : BlockUpdate → Crawler d → List Sent
  notify_subscribers update c = map (λ (p : ℕ × Bool). update_to p.0 update) c.subscribers

  -- A wrong hash restarts the fetcher, and the block is processed all the same.
  unfoldable pub verify_hash : Hash → Hash → Crawler d → Crawler d
  unfolding new_fetcher
  verify_hash verified block_hash c =
      if eqb verified block_hash then c else new_fetcher (add64 c.height 1) c

  -- the test of `processBlock` on the last hash of the queue, and its two branches
  unfoldable pub follow : WireBlock → Hash → Hash → Crawler d → Option (Crawler d × List Sent)
  unfolding crawler_backtrack crawler_new_block notify_subscribers new_block_update
  follow block verified last c =
      if eqb block.prev_block last
      then some (
        crawler_new_block verified c,
        notify_subscribers
            (new_block_update op_newblock (some block) verified
              (sub64 (crawler_new_block verified c).height 1))
            (crawler_new_block verified c),
      )
      else (crawler_backtrack c >>= λ p.
          some (p.1, notify_subscribers (new_block_update op_backtrack none p.0 p.1.height) p.1))

  unfoldable pub process_block :
      Wire → WireBlock → Hash → Crawler d → Option (Crawler d × List Sent)
  unfolding verify_hash follow
  process_block w block block_hash c =
      let c' = verify_hash (w.block_hash block) block_hash c in
      d.back c'.block_queue >>= λ last. follow block (w.block_hash block) last c'

  unfoldable pub add_subscriber : ℕ → Crawler d → Crawler d
  add_subscriber ch c = record c { subscribers = insert ch true c.subscribers }

  unfoldable pub del_subscriber : ℕ → Crawler d → Crawler d
  del_subscriber ch c = record c { subscribers = delete ch c.subscribers }

-- what the loop of `crawlerRoutine` receives
pub data Event : Type 0 where
  subscribe unsubscribe start stop : ℕ → Event
  fetched : WireBlock → Hash → Event

-- One turn of the loop. The `break` of a stop leaves the `select` and not the loop.
unfoldable pub crawler_step :
    (d : Deque) → Wire → Event → Crawler d → Option (Crawler d × List Sent)
unfolding add_subscriber del_subscriber new_fetcher process_block
crawler_step d w (subscribe ch) c = some (add_subscriber d ch c, [])
crawler_step d w (unsubscribe ch) c = some (del_subscriber d ch c, [])
crawler_step d w (start ch) c =
    some (if is_some c.fetcher then c else new_fetcher d c.height c, done_to ch ∷ [])
crawler_step d w (stop ch) c = some (c, done_to ch ∷ [])
crawler_step d w (fetched block hash) c = process_block d w block hash c
