-- ===== src/Storage/Pruning.antt =====
-- What a commit that prunes keeps: `commit` and `prune_before_version` of
-- crates/state/src/rocksdb_storage.rs.
use pranklin.Base.{
  ℕ, ◌+◌, ◌-◌, ◌%◌, ◌≡◌, ◌≢◌, ◌≤◌, ◌<◌, ap, true, none, some, arith, ltb, Bool-cases, inl, inr,
}
use pranklin.Storage.Defs.{Store, get, get_value_option, commit, prune_before_version}
use pranklin.Storage.Latest.{IsUpTo}
use pranklin.Storage.Snapshots.{RocksDbStorage, commit_version, maintain, create_snapshot}

-- A last write is not above the versions that are stored.
last-le :
    {K V : Type 0} (top last : ℕ) (k : K) (s : Store K V)
    → IsUpTo top s
    → s.latest k ≡ some last
    → last ≤ top
last-le top last k s is indexed = elim (Bool-cases (ltb top last)) [
  | inr within ↦ ground (arith, within)
  | inl beyond ↦
      let ((x, there), _) = is.is_latest k last indexed in
      let empty = is.empty_above k last (ground (arith, beyond)) in ground (arith, there, empty)
]

module _ {K V : Type 0} (calculate_state_root : ℕ → Store K V → ℕ) where
  -- What a commit that prunes stores.
  commit_version-store :
      (version : ℕ) (s : RocksDbStorage K V)
      → s.pruning_config.enabled ≡ true
      → s.pruning_config.prune_before < version
      → (commit_version calculate_state_root version s).store
        ≡ prune_before_version s.pruning_config.snapshot_interval
            (version - s.pruning_config.prune_before)
            (commit version s.store)
  unfolding commit_version maintain create_snapshot
  commit_version-store version s on late = ground (arith, on, late)

  -- A commit that prunes, at a version above all that are stored, loses each key with nothing pending
  -- whose last write is older than the blocks that are kept and is no snapshot: before the commit the
  -- key reads as this write, and afterwards as none. A key whose last write is recent, or a snapshot,
  -- reads as before (the index of latest versions tells the last writes).
  pub commit_version-prunes :
      (version top last : ℕ) (k : K) (s : RocksDbStorage K V)
      → s.pruning_config.enabled ≡ true
      → s.pruning_config.prune_before < version
      → IsUpTo top s.store
      → top < version
      → s.store.pending k ≡ none
      → s.store.latest k ≡ some last
      → let after = commit_version calculate_state_root version s in
        (x : V) × (get s.store k version ≡ some x)
        × (last + s.pruning_config.prune_before < version
            → last % s.pruning_config.snapshot_interval ≢ 0
            → get after.store k version ≡ none)
        × (version ≤ last + s.pruning_config.prune_before → get after.store k version ≡ some x)
        × (last % s.pruning_config.snapshot_interval ≡ 0 → get after.store k version ≡ some x)
  unfolding get get_value_option commit prune_before_version
  commit_version-prunes version top last k s on late is above clean indexed =
      let ((x, there), higher) = is.is_latest k last indexed in
      let low : last ≤ version = omega (arith, above, last-le top last k s.store is indexed) in
      let reads = ap (λ st. get st k version) (commit_version-store version s on late) in
      (
        x,
        ground (arith, clean, indexed, there, low),
        λ old no_snapshot. ground (arith, reads, clean, indexed, low, old, no_snapshot),
        λ recent. ground (arith, reads, clean, indexed, there, low, recent),
        λ snapshot. ground (arith, reads, clean, indexed, there, low, snapshot),
      )
