-- ===== src/Tests.antt =====
-- Concrete runs of the code, and the theorems applied to them.
mod Samples
mod Positions
mod Books
mod Accounts
mod Requests
mod Engines
mod Indexes
mod Nodes
mod Signatures
mod Submissions
mod SortedEntries
mod RocksStore
mod Restarts
mod Liquidations
mod Logs
mod Circuits
mod Sweeps
mod Syncs
