-- ===== src/Crawler/Fetcher.antt =====
-- crawler/fetcher.go: the main loop of the fetcher, one turn for each set of answers of the node.
-- Its sleeps and the connection are not modelled.
use gobalance.Common.{
  ltb, leb, if◌then◌else◌, add64, ℕ, ◌+◌, Bool, true, false, not, Option, none, some, List, [], ◌∷◌,
  ◌++◌,
}
use gobalance.Primitives.{Hash}
use gobalance.Wire.{WireBlock}

-- what the node answers in a turn, `none` for an error, and whether the stop signal comes before
-- there is room in the buffer
pub record NodeAnswers : Type 0 where
  pub block_count : Option ℕ
  pub block_hash : ℕ → Option Hash
  pub block : Hash → Option WireBlock
  pub stop_signal : Bool

pub record BlockRecord : Type 0 where
  pub block_hash : Hash
  pub block : WireBlock
  pub height : ℕ

pub record FetcherState : Type 0 where
  pub height : ℕ
  pub top_height : ℕ
  pub retries : ℕ
  pub running : Bool

unfoldable pub fetcher_start : ℕ → FetcherState
fetcher_start height = record { height = height; top_height = 0; retries = 0; running = true }

unfoldable pub retry : FetcherState → FetcherState × List BlockRecord
retry s = (record s { retries = s.retries + 1 }, [])

-- the `select` at the end of a turn
unfoldable pub buffer_block :
    Bool → Hash → WireBlock → FetcherState → FetcherState × List BlockRecord
buffer_block stop_signal hash block s =
    if stop_signal then (record s { running = false }, []) else (
      record s { retries = 0; height = add64 s.height 1 },
      record { block_hash = hash; block = block; height = s.height } ∷ [],
    )

-- a turn from `GetBlockHash` on
unfoldable pub read_block : NodeAnswers → FetcherState → FetcherState × List BlockRecord
unfolding retry buffer_block
read_block node s = elim (node.block_hash s.height) [
  | none ↦ retry s
  | some hash ↦ elim (node.block hash) [
    | none ↦ retry s
    | some block ↦ buffer_block node.stop_signal hash block s
  ]
]

unfoldable pub fetcher_step : NodeAnswers → FetcherState → FetcherState × List BlockRecord
unfolding retry read_block
fetcher_step node s =
    if not s.running
    then (s, [])
    else if ltb s.top_height s.height
    then elim node.block_count [
      | none ↦ retry s
      | some count ↦
          if leb count s.top_height
          then retry s
          else read_block node (record s { top_height = count; retries = 0 })
    ]
    else read_block node s

unfoldable pub fetcher_run : List NodeAnswers → FetcherState → FetcherState × List BlockRecord
unfolding fetcher_step
fetcher_run [] s = (s, [])
fetcher_run (node ∷ nodes) s =
    let rest = fetcher_run nodes (fetcher_step node s).0 in
    (rest.0, (fetcher_step node s).1 ++ rest.1)
