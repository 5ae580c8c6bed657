-- ===== src/Examples/Crawler.antt =====
-- A crawler at the first block of a chain.
use gobalance.Common.{All, length, ◌≡◌, refl, false, none, some, List, [], ◌∷◌}
use gobalance.Deque.{list_deque}
use gobalance.Crawler.{new_crawler, process_block, Crawler}
use gobalance.Crawler.Updates.{process_block-Follows, Followed}
use gobalance.Wire.{Wire, WireBlock}
use gobalance.Crawler.Chain.{new_crawler-Follows, Follows}
use gobalance.Crawler.Fetched.{FetchedIn, after, fetcher_run-Consecutive, Consecutive}
use gobalance.Crawler.Fetcher.{
  retry, buffer_block, read_block, fetcher_step, fetcher_run, fetcher_start, NodeAnswers,
}

-- the hash of a block is its number of transactions
abbrev counted : Wire
counted = record {
  tx_hash = λ t. 0;
  block_hash = λ b. length b.transactions;
  extract_pk_script_addrs = λ s. none;
}

abbrev next_block : WireBlock
next_block = record { prev_block = 5; transactions = record { tx_in = []; tx_out = [] } ∷ [] }

abbrev at_five : Crawler list_deque
at_five = new_crawler list_deque 1 5

five-Follows : Follows list_deque 1 (5 ∷ []) at_five
five-Follows = new_crawler-Follows list_deque 1 5

process_block-Follows_example :
    Followed list_deque 1 next_block 1 5
      (5 ∷ [])
      at_five
      (process_block list_deque counted next_block 1 at_five)
process_block-Follows_example =
    process_block-Follows list_deque 1 counted next_block 1 5 (5 ∷ []) at_five five-Follows refl

-- a node that answers, then one that fails, and then one that answers again
abbrev node_answers : NodeAnswers
node_answers = record {
  block_count = some 9;
  block_hash = λ h. some h;
  block = λ h. some next_block;
  stop_signal = false;
}

abbrev answers : List NodeAnswers
answers = node_answers ∷ record node_answers { block_hash = λ h. none } ∷ node_answers ∷ []

fetcher_run-Consecutive_example :
    Consecutive 4 (fetcher_run answers (fetcher_start 4)).1
    × All (FetchedIn answers) (fetcher_run answers (fetcher_start 4)).1
    × ((fetcher_run answers (fetcher_start 4)).0.height
        ≡ after 4 (fetcher_run answers (fetcher_start 4)).1)
fetcher_run-Consecutive_example = fetcher_run-Consecutive answers 4

-- two blocks, one for each answer that is no error
two_fetched : after 4 (fetcher_run answers (fetcher_start 4)).1 ≡ 6
unfolding fetcher_run fetcher_step fetcher_start read_block retry buffer_block
two_fetched = refl
