-- ===== src/Storage/Restart.antt =====
-- What is read after a restart: `commit` and `new` of crates/state/src/rocksdb_storage.rs.
use pranklin.Base.{
  ℕ, ◌≡◌, ◌⊎◌, ◌∙◌, ◌≤◌, ◌<◌, refl, sym, ap, inl, inr, false, none, some, List, [], ◌∷◌, arith, Key,
}
use pranklin.Base.Maps.{lookup, lookup-insert}
use pranklin.Storage.Reads.{get-commit}
use pranklin.Storage.Defs.{Store, get, commit, set, delete}
use pranklin.Storage.Snapshots.{
  RocksDbStorage, Write, written, deleted, write_all, commit_version, maintain, create_snapshot,
  get_root, PruningConfig, reopen,
}

-- The version is not beyond the first one that prunes.
abbrev pub IsUnpruned : PruningConfig → ℕ → Type 0
IsUnpruned config version = (config.enabled ≡ false) ⊎ (version ≤ config.prune_before)

module _ {K V : Type 0} (calculate_state_root : ℕ → Store K V → ℕ) where
  -- What is stored by a commit that does not prune, beside the values.
  pub commit_version-unpruned :
      (version w : ℕ) (s : RocksDbStorage K V)
      → IsUnpruned s.pruning_config version
      → let after = commit_version calculate_state_root version s in
        (after.store ≡ commit version s.store)
        × (after.pruning_config ≡ s.pruning_config)
        × (after.current_version ≡ version)
        × (after.saved_version ≡ some version)
        × (w < version → lookup w after.snapshots ≡ lookup w s.snapshots)
  unfolding commit_version maintain create_snapshot get_root
  commit_version-unpruned version w s unpruned =
      let root = calculate_state_root version (commit version s.store) in
      let put = λ (below : w < version). lookup-insert version w root s.snapshots in
      elim unpruned [
        | inl off ↦ (
          ground (arith, off),
          ground (arith, off),
          ground (arith, off),
          ground (arith, off),
          λ below. ground (arith, off),
        )
        | inr early ↦ (
          ground (arith, early),
          ground (arith, early),
          ground (arith, early),
          ground (arith, early),
          λ below. let other = put below in ground (arith, early, below, other),
        )
      ]

module _ {K V : Type 0} ⦃key : Key K⦄ where
  -- Writes stay in memory.
  pub write_all-pending :
      (writes : List (Write K V)) (s : RocksDbStorage K V)
      → write_all writes s
        ≡ record s { store = record s.store { pending = (write_all writes s).store.pending } }
  unfolding write_all set delete
  write_all-pending [] s = refl
  write_all-pending (written k v ∷ writes) s =
      write_all-pending writes (record s { store = set k v s.store })
  write_all-pending (deleted k ∷ writes) s =
      write_all-pending writes (record s { store = delete k s.store })

  cleared : Store K V → Store K V
  cleared st = record st { pending = λ _. none }

  -- What is stored survives a restart, as a commit leaves nothing pending.
  reopen-store :
      (calculate_state_root : ℕ → Store K V → ℕ) (version : ℕ) (s : RocksDbStorage K V)
      (writes : List (Write K V)) (config : PruningConfig)
      → IsUnpruned s.pruning_config version
      → let committed = commit_version calculate_state_root version s in
        (reopen config (write_all writes committed)).store ≡ committed.store
  unfolding reopen cleared commit
  reopen-store root version s writes config unpruned =
      let committed = commit_version root version s in
      let stored = (commit_version-unpruned root version 0 s unpruned).0 in
      ap (λ c. cleared c.store) (write_all-pending writes committed)
      ∙ ap cleared stored
      ∙ sym stored

  -- After a restart the storage is at the version of the last commit and reads what was committed,
  -- whatever was written since (without pruning in that commit).
  pub reopen-get :
      (calculate_state_root : ℕ → Store K V → ℕ) (version : ℕ) (s : RocksDbStorage K V)
      (writes : List (Write K V)) (config : PruningConfig) (k : K) (at : ℕ)
      → IsUnpruned s.pruning_config version
      → let committed = commit_version calculate_state_root version s in
        let opened = reopen config (write_all writes committed) in
        (opened.current_version ≡ version)
        × (get opened.store k at ≡ get committed.store k at)
        × (get opened.store k version ≡ get s.store k version)
  unfolding reopen
  reopen-get root version s writes config k at unpruned =
      let committed = commit_version root version s in
      let opened = reopen config (write_all writes committed) in
      let (stored, _, _, saved, _) = commit_version-unpruned root version 0 s unpruned in
      let same : opened.store ≡ committed.store =
        reopen-store root version s writes config unpruned in
      let version_kept : (write_all writes committed).saved_version ≡ some version =
        ap (λ c. c.saved_version) (write_all-pending writes committed) ∙ saved in
      (
        ground (arith, version_kept),
        ap (λ st. get st k at) same,
        ap (λ st. get st k version) (same ∙ stored) ∙ get-commit k version s.store,
      )
