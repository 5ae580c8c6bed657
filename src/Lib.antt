-- ===== src/Lib.antt =====
-- gobalance follows the Bitcoin block chain through a bitcoind node and answers requests for the
-- balance and the recent transactions of an address. This library models its core in Go and
-- proves properties of it.
--
-- Parts, from the node to the client:
--   crawler fetches blocks and tells its subscribers of new and dropped ones; the block manager
--     fills in what the inputs of a block spend, keeps the blocks without enough confirmations
--     in a block queue, and moves the others to the storage cache, which is committed to the
--     storage; the caches of balances, recent transactions and the height subscribe to the block
--     manager; a peer manager names the peer that a request is handed on to during a commit.
--
-- Files:
--   Common: shared names, and Common/Tests (Boolean tests), Equality (keys), Lists, Maps (Go's
--     maps as association lists without duplicate keys), Words (int64 as its pattern below
--     2^64), Entries (a range over a map, in any order).
--   Deque: the queue of primitives/queue, a copy of phf/go-queue, as an interface; Lru:
--     github.com/secnot/simplelru; OrderedMap: github.com/secnot/orderedmap; Wire: what is used
--     of btcd. These are parameters, each with an instance that meets what is assumed, and no
--     map entry.
--   Primitives: primitives/primitives.go. TxOut, Tx, Block, is_coin_base, for_each_address
--     (ForEachAddress). Deltas: the balance changes of a transaction. Visits: a callback over
--     the transactions of a block. Values: BitcoinValueToString; Printed: what it writes.
--   BlockQueue: primitives/block_queue.go. push_back, push_front, pop_back, pop_front, front,
--     back, get_balance, get_tx, tx, len, tx_count by the names of the methods. Views, Turns,
--     Blocks, Operations and Index lead up to Refinement (the balance index), Transactions
--     (GetTx) and TxIndex (Tx); Runs compares sequences of calls with a list of blocks, and
--     Runs/Window those that come in at one end and go out at the other.
--   Storage: block_manager/storage/storage.go, the data and the interface. Storage/Cache:
--     block_manager/storage/cache.go, with get_tx_out, bulk_get_tx_out, add_block, cache_balance
--     (GetBalance) and commit. Views, Balances, Ledger and Commits compare it with a plain set
--     of unspent outputs; Bulk is BulkGetTxOut.
--   Sql: the tables, triggers and statements in block_manager/storage/sqlite.go, over an engine
--     that may fail at any statement; Sql/Batch: Transact and the loops in it; Effects and
--     Tables: what they do to the tables. Sqlite: the methods of SQLiteStorage, under their
--     names (delete_utxo is Delete). Atomic: the bulk updates. Answers: the reads, and the table
--     kept well formed. Interface: an instance of the interface Storage. Refusals: errors. Runs:
--     any sequence of calls. Success: a database that does not fail. Restart: the cache on a
--     storage opened again.
--   Build: buildTx and buildBlock of block_manager/block_manager.go, with PkScriptToAddr.
--     BlockManager: block_manager/block_manager.go and manager.go. get_block_inputs,
--     manager_add_block (addBlock), backtrack_block, commit_required, manager_commit,
--     manager_balance (getBalance). Inputs: getBlockInputs. Ledger and Chain: the pending blocks
--     and the cache as one chain, with Chain/Added, Chain/Received and Chain/Undone. Routine:
--     the loop of managerRoutine, one step for each event. Silence: what its subscribers
--     receive.
--   Crawler: crawler/crawler.go. process_block, crawler_step. Chain: the hashes that it follows.
--     Updates: what it sends. Fetcher: crawler/fetcher.go, a turn of its loop on the answers of
--     the node; Fetched: what it buffers.
--   Balance: balance/cache.go and balance.go. RecentTx: recent_tx/recent_tx.go. Height:
--     height/height.go. Peers: peers/manager.go; Peers/Routine: its start and its loop. Config:
--     config/validators.go; Accepted: what they accept. Config/Options: config/options.go and
--     config.go, with viper as an interface; Shadowed: the names of the options; Outcomes and
--     Read: what reading a file returns. Api: the handlers of api, with the request to a peer in
--     balance/balance.go; Replies: what they reply. Protocol: peers/handlers.go; Announced: a
--     peer that announces itself. Startup: main.go, what it takes from the configuration;
--     Startup/Validated and Typed: its type assertions; Startup/Launch: what it starts first;
--     Launch/Resumed: a start after a commit. Utils: utils/shuffle.go; Shuffled: its elements.
--   Net: what is used of Go's net, strconv and fmt, as an interface. Hosts: utils/net.go. Peer:
--     peers/peers.go and models.go. Discovery: peers/discovery.go, the operations on the peers
--     (find_peer is getPeer, handler_add_peer addPeer, handler_mark_unreachable
--     markPeerUnreachable); Discovery/Steps: the selectors and peerDiscoveryRoutine, with
--     peers/routines.go; Known, Kept and Events: its peers and their keys; Reached: a status;
--     Failures: a peer that fails; Polling and Rounds: whose turn it is. Resolve:
--     peers/resolve.go; Tries and Drained: how long a hostname waits.
--   Examples: concrete inputs, tests on them, and the theorems at them.
--
-- Conventions: a method takes the state that it changes last and returns the new one; an Option
-- is a panic where it is none; a Go error is an err of Result or a failed of Outcome. The order
-- of a range over a map is an argument, of which only is assumed that it meets every entry once.
-- Times are arguments, in milliseconds (in Startup, nanoseconds); channels are numbers, and what
-- is sent is a list. The goroutine of a component is its step function, so the requests of
-- different routines are the sequence of events that it meets.
--
-- Bounds and fuel: int64 and uint64 wrap at 2^64, and the output number of a transaction at
-- 2^32. The loop of addUnreachableMark runs on as many turns as there are marks, each of which
-- takes one off. A number has at most 20 digits, enough below 10^20 and so for every int64. The
-- other loops are recursion on the list that they range over.
--
-- Not modelled: the HTTP requests of the discovery, the servers and their routes, and the logs,
-- which talk to the outside.
pub mod Common
pub mod Deque
pub mod Primitives
pub mod BlockQueue
pub mod Sql
pub mod Sqlite
pub mod Storage
pub mod Wire
pub mod Build
pub mod BlockManager
pub mod Crawler
pub mod Lru
pub mod Balance
pub mod RecentTx
pub mod Height
pub mod OrderedMap
pub mod Peers
pub mod Config
pub mod Utils
pub mod Startup
pub mod Api
pub mod Protocol
pub mod Net
pub mod Hosts
pub mod Peer
pub mod Discovery
pub mod Resolve
pub mod Examples
