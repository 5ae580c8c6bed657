-- ===== src/Examples/BlockManager.antt =====
-- A block manager before and after a block.
use gobalance.Common.{
  of-some, ◌>>=◌, All, head?, lookup, delete, insert, add64, neg64, string_key, nat_key, ℕ, ◌≡◌,
  refl, subst, ◌⊎◌, true, false, some, List, [], ◌∷◌, arith,
}
use gobalance.BlockManager.Chain.Undone.{backtrack_block-Tracks, manager_commit-Tracks}
use gobalance.BlockManager.Routine.{
  Event, subscribe, manager_step, height_answer, routine_start, height_request, timer_expired,
  manager_run, on_timer,
}
use gobalance.Storage.{Error, balance_in, tx_out_id_key, err, ok}
use gobalance.Primitives.{is_coin_base, new_block, is_coin_base_in, new_tx, new_tx_out, Block}
use gobalance.BlockManager.Chain.{ledger, manager_balance-Tracks, Tracks}
use gobalance.Examples.Data.{listed, block_one, listed_ranges, block_two}
use gobalance.Storage.Cache.{missing_ids, cached_outs, bulk_get_tx_out, commit}
use gobalance.BlockManager.{
  start, manager_balance, backtrack_block, manager_add_block, fill_tx, returned, manager_commit,
  failed, queued_tx, fill_txs, get_block_inputs, block_tx_idx, BlockManager, backtrack_limit,
  commit_required, missing_of_txs,
}
use gobalance.Build.{build_outs, build_block, pk_script_to_addr, first_address, build_ins, build_tx}
use gobalance.Examples.Memory.{cold-Holds, fresh_memory, one_is_valid, memory, cold}
use gobalance.BlockManager.Silence.{is_update, manager_run-silent}
use gobalance.BlockManager.Ledger.{FitsTxs}
use gobalance.Storage.Cache.Ledger.{with_txs, ValidTxs}
use gobalance.Deque.{list_deque}
use gobalance.BlockManager.Inputs.{asked_for, get_block_inputs-resolve, resolve_txs, stored_out}
use gobalance.BlockManager.Chain.Received.{manager_add_block-Tracks}
use gobalance.BlockQueue.Views.{net, block_txs}
use gobalance.Wire.{WireBlock, Wire, pub_key_hash}
use gobalance.BlockQueue.{BlockQueue, new_block_queue, push_back}
use gobalance.BlockQueue.Refinement.{Indexes, new_block_queue-Indexes, push_back-Indexes}
use gobalance.BlockManager.Chain.Added.{still_pending, now_confirmed}

abbrev pub manager : BlockManager list_deque memory
manager = record {
  sync = false;
  commit_size = 1;
  commit_min_blocks = 1;
  confirmations = 1;
  height = 0;
  last_time = 0;
  storage_cache = cold;
  pending_blocks = new_block_queue list_deque;
  commit_timer_started_flag = false;
  subscribers = [];
}

-- every script pays to "alice"
abbrev pub wire : Wire
wire = record {
  tx_hash = λ t. 11;
  block_hash = λ b. 1;
  extract_pk_script_addrs = λ s. some (pub_key_hash, "alice" ∷ []);
}

abbrev wire_block : WireBlock
wire_block = record {
  prev_block = 0;
  transactions =
      record {
        tx_in = record { hash = 0; index = 4294967295 } ∷ [];
        tx_out = record { value = 50; pk_script = [] } ∷ [];
      }
      ∷ [];
}

manager-Tracks : Tracks list_deque memory manager [] []
manager-Tracks = record {
  indexes = new_block_queue-Indexes list_deque;
  holds = cold-Holds;
  fits = tt;
  bounded = omega arith;
  height = refl;
  numbered = tt;
}

pub one_fits : FitsTxs block_one.transactions []
unfolding lookup insert delete
one_fits = ((λ _. refl, tt), (refl, tt), tt)

confirms :
    (first : Block) → head? (block_one ∷ []) ≡ some first → ValidTxs memory first.transactions cold
confirms first h =
    subst (λ (f : Block). ValidTxs memory f.transactions cold) (of-some h) one_is_valid

abbrev pub pushed :
    (b : BlockQueue list_deque) × (push_back list_deque listed block_one
        (new_block_queue list_deque)
      ≡ some b)
    × Indexes list_deque b (block_one ∷ [])
pushed =
    push_back-Indexes list_deque listed listed_ranges (new_block_queue list_deque) []
      (new_block_queue-Indexes list_deque) block_one

-- with the block pending
abbrev pub waiting_manager : BlockManager list_deque memory
waiting_manager = record manager { pending_blocks = pushed.0; height = 1 }

pub waiting-Tracks : Tracks list_deque memory waiting_manager (block_one ∷ []) []
waiting-Tracks = record {
  indexes = pushed.2;
  holds = cold-Holds;
  fits = one_fits;
  bounded = omega arith;
  height = refl;
  numbered = (refl, tt);
}

get_block_inputs-resolve_example :
    (get_block_inputs list_deque memory block_two waiting_manager ≡ (
      resolve_txs
        (queued_tx list_deque memory waiting_manager)
        (λ h. block_tx_idx h block_two.transactions)
        (stored_out list_deque memory waiting_manager)
        block_two.transactions
      >>= λ ts. some (ok (record block_two { transactions = ts }))))
    ⊎ ((e : Error) × (memory.bulk_get
            (asked_for list_deque memory block_two waiting_manager)
            fresh_memory
          ≡ err e)
        × (get_block_inputs list_deque memory block_two waiting_manager ≡ some (err e)))
get_block_inputs-resolve_example =
    get_block_inputs-resolve list_deque memory block_two waiting_manager

manager_balance-Tracks_example :
    (manager_balance list_deque memory "alice" waiting_manager
      ≡ ok (balance_in "alice" (ledger (block_one ∷ []) [])))
    ⊎ ((e : Error) × (memory.get_balance "alice" fresh_memory ≡ err e)
        × (manager_balance list_deque memory "alice" waiting_manager
            ≡ ok (add64 (net "alice" (block_txs (block_one ∷ []))) (neg64 1))))
manager_balance-Tracks_example =
    manager_balance-Tracks list_deque memory "alice" waiting_manager (block_one ∷ []) []
      waiting-Tracks

resolved :
    get_block_inputs list_deque memory (build_block wire 1 wire_block (add64 0 1)) manager
    ≡ some (ok block_one)
unfolding get_block_inputs build_block build_tx build_ins build_outs new_block new_tx new_tx_out
    pk_script_to_addr first_address missing_of_txs fill_txs fill_tx is_coin_base is_coin_base_in
    bulk_get_tx_out cached_outs missing_ids
resolved = refl

manager_add_block-Tracks_example :
    (b : BlockManager list_deque memory) × (manager_add_block list_deque memory wire listed listed 5
        wire_block 1 manager
      ≡ some (returned block_one, b))
    × Tracks list_deque memory b
        (still_pending manager.confirmations (block_one ∷ []))
        (now_confirmed manager.confirmations (block_one ∷ []) [])
    × (ledger
          (still_pending manager.confirmations (block_one ∷ []))
          (now_confirmed manager.confirmations (block_one ∷ []) [])
        ≡ with_txs block_one.transactions [])
    × (b.height ≡ 1)
manager_add_block-Tracks_example =
    manager_add_block-Tracks list_deque memory wire listed listed listed_ranges listed_ranges 5
      wire_block 1 manager [] [] block_one manager-Tracks refl resolved one_fits confirms

backtrack_block-Tracks_example :
    ((block_one ∷ [] ≡ [])
      × (backtrack_block list_deque memory listed waiting_manager
          ≡ some (failed backtrack_limit, waiting_manager)))
    ⊎ ((b : BlockManager list_deque memory) × (backtrack_block list_deque memory listed
            waiting_manager
          ≡ some (returned (some block_one), b))
        × Tracks list_deque memory b [] []
        × (b.height ≡ 0))
backtrack_block-Tracks_example =
    backtrack_block-Tracks list_deque memory listed listed_ranges waiting_manager (block_one ∷ [])
      [] waiting-Tracks

manager_commit-Tracks_example :
    Tracks list_deque memory
      (manager_commit list_deque memory 9 waiting_manager).1
      (block_one ∷ [])
      []
    × ((manager_commit list_deque memory 9 waiting_manager).0 ≡ (commit memory cold).0)
manager_commit-Tracks_example =
    manager_commit-Tracks list_deque memory 9 waiting_manager (block_one ∷ []) [] waiting-Tracks

-- one subscription, and then its answer to a request of the height
abbrev run : List (ℕ × Event)
run = (1, subscribe 7) ∷ (2, timer_expired) ∷ (3, height_request 8) ∷ []

manager_run-silent_example :
    All (λ m. is_update list_deque memory m ≡ false) (height_answer 8 0 ∷ [])
unfolding manager_run manager_step on_timer commit_required routine_start start insert delete
manager_run-silent_example =
    manager_run-silent list_deque memory wire listed listed run cold manager
      (record {
        local_subscribers = (7, true) ∷ [];
        manager = start list_deque memory cold manager;
      })
      (height_answer 8 0 ∷ []) refl
