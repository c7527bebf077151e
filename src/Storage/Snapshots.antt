-- ===== src/Storage/Snapshots.antt =====
-- Blocks, snapshots and restarts: `new`, `commit`, `create_snapshot`, `list_snapshots` and
-- `restore_from_snapshot` of crates/state/src/rocksdb_storage.rs, for the keys of one kind. The root of
-- the Merkle tree is a parameter; a failure of the database is not modelled.
use pranklin.Base.{
  ℕ, ◌-◌, ◌%◌, ◌==◌, Bool, Option, none, some, List, [], ◌∷◌, map, true, ltb, if◌then◌else◌, Key,
  update, number_key,
}
use pranklin.Base.Maps.{Map, lookup, insert}
use pranklin.Storage.Defs.{Store, commit, prune_before_version, set, delete}

pub record PruningConfig : Type 0 where
  pub snapshot_interval : ℕ
  pub prune_before : ℕ
  pub enabled : Bool

-- `PruningConfig::default`
abbrev pub default_pruning : PruningConfig
default_pruning = record { snapshot_interval = 1000; prune_before = 100000; enabled = true }

-- What is pending and what the database holds (`store`), with the entries `CurrentVersion` and
-- `Snapshot`; the version and the cache of roots are in memory.
pub record RocksDbStorage (K V : Type 0) : Type 0 where
  pub store : Store K V
  pub current_version : ℕ
  pub saved_version : Option ℕ
  pub snapshots : Map ℕ
  pub root_cache : ℕ → Option ℕ
  pub pruning_config : PruningConfig

pub data RestoreResult : Type 0 where
  restored snapshot_not_found : RestoreResult

module _ {K V : Type 0} where
  -- `new`, on the database of a storage: what was only in memory is gone.
  unfoldable pub reopen : PruningConfig → RocksDbStorage K V → RocksDbStorage K V
  reopen config s = record {
    store = record s.store { pending = λ _. none };
    current_version = elim s.saved_version [ none ↦ 0 | some v ↦ v ];
    saved_version = s.saved_version;
    snapshots = s.snapshots;
    root_cache = λ _. none;
    pruning_config = config;
  }

  unfoldable pub get_root : ℕ → RocksDbStorage K V → ℕ
  get_root version s = elim (s.root_cache version) [ none ↦ 0 | some root ↦ root ]

  unfoldable pub create_snapshot : ℕ → RocksDbStorage K V → RocksDbStorage K V
  unfolding get_root
  create_snapshot version s = record s {
    snapshots = insert version (get_root version s) s.snapshots;
  }

  -- In the order of the versions, in which the map is.
  unfoldable pub list_snapshots : RocksDbStorage K V → List ℕ
  list_snapshots s = map (λ e. e.0) s.snapshots

  unfoldable pub restore_from_snapshot : ℕ → RocksDbStorage K V → RestoreResult × RocksDbStorage K V
  restore_from_snapshot snapshot_version s = elim (lookup snapshot_version s.snapshots) [
    | none ↦ (snapshot_not_found, s)
    | some root ↦ (
      restored,
      record s { current_version = snapshot_version; saved_version = some snapshot_version },
    )
  ]

  -- What follows the commit of a version: a snapshot and pruning. Of an interval of 0 only 0 is a
  -- multiple, in `is_multiple_of` as with the remainder here.
  unfoldable pub maintain : ℕ → RocksDbStorage K V → RocksDbStorage K V
  unfolding create_snapshot
  maintain version s =
      let config = s.pruning_config in
      let kept = if version % config.snapshot_interval == 0 then create_snapshot version s else s in
      if config.enabled
      then (if ltb config.prune_before version
          then record kept {
            store =
                prune_before_version config.snapshot_interval (version - config.prune_before)
                  kept.store;
          }
          else kept)
      else s

  module _ (calculate_state_root : ℕ → Store K V → ℕ) where
    -- `commit`, which clears the pending values and writes them.
    unfoldable pub commit_version : ℕ → RocksDbStorage K V → RocksDbStorage K V
    unfolding maintain
    commit_version version s =
        let written = commit version s.store in
        maintain version (record s {
          store = written;
          root_cache = update s.root_cache version (some (calculate_state_root version written));
          current_version = version;
          saved_version = some version;
        })

-- A write of a block.
pub data Write (K V : Type 0) : Type 0 where
  written : K → V → Write K V
  deleted : K → Write K V

-- A block of a version.
pub record Block (K V : Type 0) : Type 0 where
  pub version : ℕ
  pub writes : List (Write K V)

module _ {K V : Type 0} ⦃key : Key K⦄ where
  unfoldable pub write_all : List (Write K V) → RocksDbStorage K V → RocksDbStorage K V
  write_all [] s = s
  write_all (written k v ∷ writes) s = write_all writes (record s { store = set k v s.store })
  write_all (deleted k ∷ writes) s = write_all writes (record s { store = delete k s.store })

  unfoldable pub run_blocks :
      (ℕ → Store K V → ℕ) → List (Block K V) → RocksDbStorage K V → RocksDbStorage K V
  unfolding write_all commit_version
  run_blocks root [] s = s
  run_blocks root (b ∷ bs) s =
      run_blocks root bs (commit_version root b.version (write_all b.writes s))
