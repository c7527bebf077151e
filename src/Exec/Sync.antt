-- ===== src/Exec/Sync.antt =====
-- Whether catching up with the leader ends, and with what: crates/exec/src/readonly_executor.rs.
use pranklin.Base.{ℕ, zero, suc, ◌+◌, ◌-◌, ◌≤◌, ◌<◌, ◌≡◌, ◌⊎◌, Option, none, some, List, [], arith}
use pranklin.Base.Words.{add_u64, u64_mod}
use pranklin.Types.Transaction.{Transaction}
use pranklin.Engine.Defs.{Engine}
use pranklin.Exec.ReadOnly.{
  ReadOnlyError, SyncEnd, synced, stopped, batch_end, blocks_of, replay, sync_batch, sync_blocks,
}

module _ (hash : Transaction → ℕ) (fetch : ℕ → ℕ → Option (List (ℕ × Transaction))) where
  -- The last block of a batch that is not empty.
  batch_bounds :
      (batch leader current : ℕ)
      → 0 < batch
      → leader + batch < u64_mod
      → current ≤ leader
      → (current ≤ batch_end batch leader current) × (batch_end batch leader current ≤ leader)
  batch_bounds batch leader current pos word le = ground arith

  -- Ends: with an error, or with all the blocks.
  abbrev pub Ends : ℕ → Option (SyncEnd × Engine) → Type 0
  Ends all r =
      (e : Engine) × ((r ≡ some (synced all, e))
        ⊎ ((why : ReadOnlyError) × (r ≡ some (stopped why, e))))

  next_block :
      (batch leader current n : ℕ)
      → 0 < batch
      → leader + batch < u64_mod
      → n + leader + 1 < u64_mod + current
      → current ≤ leader
      → let end = batch_end batch leader current in
        (add_u64 end 1 ≡ end + 1)
        × (add_u64 n (blocks_of current end) + (leader + 1 - (end + 1))
            ≡ n + (leader + 1 - current))
  next_block batch leader current n pos word few le =
      ground (arith, batch_bounds batch leader current pos word le)

-- A batch size of 0 never ends: no fuel is enough to catch up with a leader that is ahead and whose
-- answers hold no transactions.
pub sync_blocks-zero_batch :
    (hash : Transaction → ℕ) (fuel leader current n : ℕ) (e : Engine)
    → 0 < current
    → current ≤ leader
    → leader < u64_mod
    → sync_blocks hash (λ from to. some []) fuel 0 leader current n e ≡ none
unfolding sync_blocks sync_batch replay
sync_blocks-zero_batch hash zero leader current n e pos behind word = ground arith
sync_blocks-zero_batch hash (suc fuel) leader current n e pos behind word =
    let rest =
      sync_blocks-zero_batch hash fuel leader current
        (add_u64 n (blocks_of current (batch_end 0 leader current))) e pos behind word in
    let same : add_u64 (batch_end 0 leader current) 1 ≡ current = ground arith in
    ground (arith, rest, same)
