-- ===== src/Lib.antt =====
-- Pranklin: the engine of a perpetual-futures exchange, in crates/ of the repository.
--
-- The executor verifies the signer and the nonce of each transaction and calls a service for its
-- payload. The services check the request, write the state, match orders in the book and emit events.
-- The state manager keeps every kind of value in a versioned store: writes are pending until the
-- block is committed, and a read looks at the pending values first.
--
-- Where the parts are:
--   Base         helpers: native numbers and machine words (a cast and a wrap-around are a remainder),
--                results, methods on a state that may fail, maps
--   Types        crates/types/src/state.rs, engine.rs, tx.rs, the payloads of crates/tx/src/lib.rs and the
--                accesses that they declare (Access, with crates/state/src/access.rs), signatures
--   Signing      crates/tx/src/lib.rs: signing hashes, encoding and decoding (Defs); what a hash is a hash
--                of (Bytes, Payloads, Values, Binding); what is read back (Roundtrip)
--   Storage      crates/state/src/rocksdb_storage.rs: set, get, delete, commit, prune_before_version (Defs,
--                Reads), commits with their snapshots (Snapshots), the index of latest versions (Latest),
--                a restart (Restart), a restore (Restore) and a commit that prunes (Pruning)
--   State        crates/state/src/lib.rs: StateManager, one store for each kind of key (Laws); the
--                index managers of crates/state/src/index_manager.rs (Indexes, Recovery)
--   Position     crates/engine/src/position.rs: update_position (Defs), its effect on the signed size
--                (Exposure), calculate_pnl (Pnl), margins and entry prices (Margin)
--   Orderbook    crates/engine/src/orderbook.rs: levels (Book), resting orders (Manager, Resting,
--                RoundTrip), match_order (Matching, Loops, Fills, Conservation, PostOnly,
--                Priority), the orders that stand in the levels (Standing, Removal)
--   Risk         crates/engine/src/risk.rs: check_order_allowed, check_liquidation and the others
--   Services     crates/engine/src/services: accounts (Account, Balances), orders, positions and agents
--                (Orders, Laws, Fills)
--   Funding      crates/engine/src/funding.rs
--   Liquidation  crates/engine/src/liquidation.rs: sizes, fees and the fund (Defs, Sizes), the operations
--                on the state (Engine), the insurance fund through a liquidation (Fund) and a batch
--                (Batch), positions at risk (RiskIndex, AtRisk), auto-deleveraging (Deleveraging,
--                Candidates, Collected)
--   Mempool      crates/mempool/src: admission (Defs, Laws), queries (Queries), the index by nonce
--                (Consistency, Pruning)
--   Exec         crates/exec/src/tx_executor.rs, with the agents of crates/auth/src/agent.rs (Defs), what
--                its payloads keep (Trading, Keeps), nonces (Replay, Batches), declared accesses (Declared);
--                crates/exec/src/readonly_executor.rs (ReadOnly, Sync); crates/exec/src/server.rs (Server),
--                what it offers for a block (Blocks)
--   Events       crates/types/src/engine.rs (Classes), crates/engine/src/event_store.rs: the store in
--                memory (Defs) and its queries (Positions, Queries); the store in RocksDB with
--                crates/engine/src/event_store_key.rs (Rocks.Defs), what it takes of the database
--                (Rocks.Order, Laws), what a scan reads (Rocks.Scans, Reads), what a flush writes
--                (Rocks.Puts, Flush), what is counted (Rocks.Counts) and a flush with a query
--                (Rocks.Durability)
--   Engine       crates/engine/src/lib.rs: the methods (Defs), the book after a restart (Rebuild,
--                Restored), the events of a transaction (Recording)
--   Rpc          crates/rpc/src/middleware.rs: the circuit breaker (Circuit, Recovery);
--                crates/rpc/src/handlers.rs, types.rs and error.rs (Types, Handlers), what a submission and
--                a request of an agent do (Submission)
--   Auth         crates/types/src/common.rs (Permissions), crates/auth/src (Agents), what
--                nominations allow (Nominations)
--   Tests        concrete runs, and the theorems applied to them
--
-- How the code is represented. A method that takes `&mut self` is a function from the state to a result
-- and the new state; what was written before an error stays written, as the code rolls nothing back.
-- u32, u64 and u128 are natural numbers: checked operations are `checked_add` and the like of
-- Base.Words, casts and the unchecked operations of a release build take the remainder. i64 and i128 are
-- integers with their wrap-around. Addresses, hashes and signatures are numbers, as they are only
-- compared. A HashMap is a function, or a list of entries where its size is read; a BTreeMap is a list
-- in the order of its keys; a set of addresses is a list. Loops run over lists or count down a
-- version, but for the one of the follower in Exec.ReadOnly, which takes fuel: as much as the height of
-- the leader is enough if the batch size is not 0, and no fuel is enough if it is 0.
--
-- Parameters: the recovery of the signer of a transaction and of a nomination, as it stands for
-- cryptography; the answers of the leader of a follower; the decoding of hexadecimal digits; the
-- root of the Merkle tree; the order in which a `BinaryHeap` or a `HashMap` of the standard library
-- is visited. Three libraries are interfaces with laws that state their documented behaviour: hash
-- functions, borsh and the bytes of addresses and words in Signing, RocksDB and borsh in
-- Events.Rocks. Where hashes are only compared, a hash is a number and the function that gives it is
-- a parameter; in Signing it is a list of bytes, and the laws say of the hash function only how long
-- its output is; that it separates the inputs which a theorem compares is a hypothesis there.
--
-- Not modelled: errors of the database when it is read, the Merkle tree, the export of snapshots and
-- backups, which are calls of libraries; the byte encoding of the keys of the state; statistics of
-- the mempool and of the executor in floating point; routes and the WebSocket server, the transport
-- to the sequencer, configuration and the load generator, which are input and output.
pub mod Base
pub mod Types
pub mod Storage
pub mod State
pub mod Position
pub mod Orderbook
pub mod Risk
pub mod Services
pub mod Signing
pub mod Funding
pub mod Liquidation
pub mod Mempool
pub mod Exec
pub mod Events
pub mod Engine
pub mod Rpc
pub mod Auth
pub mod Tests
