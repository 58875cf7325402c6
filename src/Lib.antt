-- ===== src/Lib.antt =====
-- A model of the PoAI node (poai/, in Go): a proof-of-work chain whose work is inference on generated
-- quizzes, with accounts in a key-value database.
--
-- The parts, and the files that model them (source paths from the repository's root):
--   Prelude      shared names: tests on numbers, byte strings (lists of numbers), signed integers
--                (Prelude/Int), association lists for Go maps (Prelude/Assoc)
--   Encoding     the encodings of the Go standard library that the node stores and hashes
--   Result       Go's error results, and `Action`, a state-passing call with an error result
--   Badger       BadgerDB, as one key-value store with atomic updates (a parameter)
--   Crypto       Keccak-256, SHA3-256 and secp256k1 signatures (a parameter)
--   Tx           poai/core/tx.go
--   State        poai/core/state.go: balances, nonces, `ExecuteTransaction`, `ValidateTransaction`
--   Header       poai/core/header/header.go
--   Block        poai/core/block.go
--   Difficulty   poai/core/difficulty.go, with the constants of poai/core/config/config.go
--   Store        poai/core/badgerstore.go
--   Mempool      poai/core/mempool.go
--   Chain        poai/core/chain.go: the state and its queries; Chain/Load brings a chain up,
--                Chain/Import is `ImportBlock` with the orphans, Chain/Reorg the side branches,
--                Chain/Preseed `PreseedHeaders`, Chain/Scan `ScanOrphanPool`; Chain/Locks is the lock
--                of the chain, Chain/Reach the changes of all goroutines in any order
--   Net          poai/net/p2p.go, poai/net/topics.go: the handlers of the messages
--   Quiz         poai/dataset/generator.go
--   Inference    poai/inference/llm.go; Inference/Llama poai/inference/llm_cli.go
--   Mining       poai/miner/workloop.go: the parts of a round; Mining/Loop is the loop itself
--   Validator    poai/validator/verify.go
--   Broadcast    poai/core/broadcast.go: blocks as files
--   Cli          poai/cmd/poaid/cli.go: the subcommands
--   Daemon       poai/cmd/poaid/main.go: the start of the node, the announcements
--   KeySchedule  poai/core/keyschedule/key.go
--   Examples     concrete data, and the properties at concrete inputs
-- The other files under a part's name are its lemmas and properties. State/Ledger is what the account
-- state promises, without keys and bytes: a balance and a nonce for each account.
--
-- How the parts interact. A block that arrives from a peer (Net) or from a file goes to `ImportBlock`
-- (Chain/Import): it is refused, queued as an orphan, put in a side branch, or its transactions are
-- executed on the accounts (State), it becomes the head and is written to the store (Store), and old
-- blocks are pruned. Accounts and blocks share one database. The miner (Mining) takes the parent and the
-- target from the chain and the transactions from the pool (Mempool); its block becomes a file
-- (Broadcast), from which the node imports it.
--
-- How the code is read. A function that changes state takes the state and returns it next to its
-- result. Go names are spelled in snake case (`ExecuteTransaction` is `execute_transaction`). An error is
-- a value of `Result.Error`, and a run-time panic is the error `panicked`. Unsigned 64-bit arithmetic
-- wraps by `% 2 ^ 64`; `*big.Int` is an integer, and may be nil where the code can see nil. A Go map is
-- an association list in the order in which `range` visits it. A byte slice is not nil, and neither are
-- `Amount` and `GasPrice` of a transaction: JSON from a peer can leave such fields out, and then
-- `json.Marshal` writes `null` for a slice and reading an amount panics, which is not modelled. A block
-- that two maps share is in each of them: what `HeaderByHeight` writes through the pointer is seen in
-- `c.blocks` only.
--
-- Locks. A call of `ImportBlock` or `ScanOrphanPool` gives up its locks on the way. As a function,
-- `import_block` is the call where others act at most around the retarget (the argument `gap`), and
-- nobody between the import and `tryImportOrphans`; the scan has the argument `gap` between the groups
-- of orphans, and `waits` for the writers that wait when it looks up a parent. Chain/Reach has the
-- single changes that these and the other calls make, and a run of the node is a sequence of changes of
-- any goroutines; both functions are shown to be such sequences. `ReindexFromDB` is called only by
-- `main`, before the goroutines start. Chain/Locks has the operations on `c.mu` alone: there a goroutine
-- is the list of those that it still has to do, and any that need not wait may go on. The scan of the
-- orphan pool, which imports while it holds that lock, gets no further there; Chain/Scan says so by its
-- result.
--
-- The work loop is a state machine with a phase, and a step of it is what happens between two looks at
-- the chain. Log lines are left out, unless they can panic.
--
-- Bounds and fuel. The loop that serves a block request counts on 64 bits and may not end: it is on
-- fuel, with the theorem that 514 rounds are enough and the theorem that on one kind of request none
-- are. The miner's search over nonces is unbounded: `search` bounds it by a number of nonces, and the
-- steps of Mining/Loop are without a bound. The loop that loads the stored blocks
-- counts on 64 bits too: `load_loop` is on fuel, with the theorem that tip + 2 rounds are enough where
-- the tip is below 2 ^ 64 - 1, and `load_below` is its result there; at that tip it does not end
-- (`load_loop_forever`), and the start of the node is not modelled. `has_hash_below` is the loop of
-- `RequestBlockByHash` up to a head below 2 ^ 64 - 1. Every other loop is structural recursion. The
-- decimal and big-endian encodings recurse on a fuel above the number that they write, which their
-- round trips in Encoding/RoundTrip show to be enough.
--
-- Parameters. BadgerDB with the law that a committed update has its writes; the cryptography with, where
-- it is used, the law that signing can be undone; the JSON codec of blocks with its round trip;
-- `math/rand`; the model's `Infer`, or the program `llama-cli`; the clock; the encoding of keys
-- (`Cli.Keys`, with `IsKey` for what is documented of a key); which calls on files succeed
-- (`Broadcast.Disk`). `Badger.Reliable` says that no update fails.
--
-- Not modelled: the flags, the connection to a peer and the signals of poai/cmd/poaid/main.go, the
-- libp2p host and its timers, AES and mmap helpers, diagnostics and watchdogs: they are I/O, calls of
-- libraries, or used by no other code. Texts are read as ASCII.
pub mod Prelude
pub mod Encoding
pub mod Result
pub mod Badger
pub mod Crypto
pub mod Tx
pub mod Header
pub mod Block
pub mod Difficulty
pub mod State
pub mod Store
pub mod Mempool
pub mod Chain
pub mod Net
pub mod Quiz
pub mod Inference
pub mod Mining
pub mod Validator
pub mod Broadcast
pub mod Cli
pub mod Daemon
pub mod KeySchedule
pub mod Examples
