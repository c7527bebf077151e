-- ===== src/Storage/Restore.antt =====
-- What is read after a restore: `restore_from_snapshot` of crates/state/src/rocksdb_storage.rs.
use mathlib.Core.Path.{subst}
use pranklin.Base.{
  ℕ, ◌≡◌, ◌∙◌, ◌≤◌, ◌<◌, refl, sym, ap, inl, inr, true, Option-cases, Bool-cases, none, some, List,
  [], ◌∷◌, All, arith, Key,
}
use pranklin.Base.Maps.{lookup}
use pranklin.Storage.Defs.{Store, get_value_option, get, commit, set, delete}
use pranklin.Storage.Snapshots.{
  RocksDbStorage, Write, written, deleted, write_all, commit_version, restore_from_snapshot,
  restored, PruningConfig, Block, run_blocks,
}
use pranklin.Storage.Latest.{
  IsUpTo, scan_back-agree, get_value_option-scan_back, commit-values, commit-IsUpTo,
}
use pranklin.Storage.Restart.{IsUnpruned, commit_version-unpruned, write_all-pending}

-- Blocks of rising versions above one, none of which prunes.
abbrev pub Rises : {K V : Type 0} → PruningConfig → ℕ → List (Block K V) → Type 0
Rises config top [] = Unit
Rises config top (b ∷ bs) =
    (top < b.version) × IsUnpruned config b.version × Rises config b.version bs

module _ {K V : Type 0} ⦃key : Key K⦄ where
  -- What one block leaves.
  record Continues (b : Block K V) (w : ℕ) (s next : RocksDbStorage K V) : Type 0 where
    up_to : IsUpTo b.version next.store
    config : next.pruning_config ≡ s.pruning_config
    reads : (k : K) → get_value_option next.store w k ≡ get_value_option s.store w k
    snaps : lookup w next.snapshots ≡ lookup w s.snapshots

  block-Continues :
      (calculate_state_root : ℕ → Store K V → ℕ) (b : Block K V) (s : RocksDbStorage K V)
      (top w : ℕ)
      → w ≤ top
      → IsUpTo top s.store
      → top < b.version
      → IsUnpruned s.pruning_config b.version
      → Continues b w s (commit_version calculate_state_root b.version (write_all b.writes s))
  block-Continues root b s top w low is above unpruned =
      let dirty = write_all b.writes s in
      let same = write_all-pending b.writes s in
      let next = commit_version root b.version dirty in
      let configs : dirty.pruning_config ≡ s.pruning_config = ap (λ x. x.pruning_config) same in
      let here = subst (λ c. IsUnpruned c b.version) (sym configs) unpruned in
      let (stored, config, _, _, snaps) = commit_version-unpruned root b.version w dirty here in
      let kept : IsUpTo top (record s.store { pending = dirty.store.pending }) = record {
        empty_above = is.empty_above;
        is_latest = is.is_latest;
      } in
      let dirty_up_to = subst (λ x. IsUpTo top x.store) (sym same) kept in
      let committed = commit-IsUpTo top b.version dirty.store above dirty_up_to in
      let next_up_to = subst (IsUpTo b.version) (sym stored) committed in
      let values = λ (k : K) (v : ℕ) (below : v ≤ w).
        ap (λ st. st.values k v) stored
        ∙ commit-values k b.version v dirty.store (omega (arith, below, low, above))
        ∙ ap (λ x. x.store.values k v) same in
      record {
        up_to = next_up_to;
        config = config ∙ configs;
        reads = λ k.
            get_value_option-scan_back next.store b.version w k next_up_to
            ∙ scan_back-agree (next.store.values k) (s.store.values k) w (values k)
            ∙ sym (get_value_option-scan_back s.store top w k is);
        snaps = snaps (omega (arith, low, above)) ∙ ap (λ x. lookup w x.snapshots) same;
      }

  -- Blocks above a version change nothing that is read at it.
  run_blocks-get_value_option :
      (calculate_state_root : ℕ → Store K V → ℕ) (bs : List (Block K V)) (s : RocksDbStorage K V)
      (top w : ℕ)
      → w ≤ top
      → IsUpTo top s.store
      → Rises s.pruning_config top bs
      → let after = run_blocks calculate_state_root bs s in
        ((k : K) → get_value_option after.store w k ≡ get_value_option s.store w k)
        × (lookup w after.snapshots ≡ lookup w s.snapshots)
  unfolding run_blocks
  run_blocks-get_value_option root [] s top w low is rises = (λ k. refl, refl)
  run_blocks-get_value_option root (b ∷ bs) s top w low is (above, unpruned, later) =
      let step = block-Continues root b s top w low is above unpruned in
      let next = commit_version root b.version (write_all b.writes s) in
      let rises = subst (λ c. Rises c b.version bs) (sym step.config) later in
      let (reads, snaps) =
        run_blocks-get_value_option root bs next b.version w (omega (arith, low, above)) step.up_to
          rises in
      (λ k. reads k ∙ step.reads k, snaps ∙ step.snaps)

  -- The index of latest versions tells the last writes after any blocks of rising versions on a
  -- storage where it does.
  pub run_blocks-IsUpTo :
      (calculate_state_root : ℕ → Store K V → ℕ) (bs : List (Block K V)) (s : RocksDbStorage K V)
      (top : ℕ)
      → IsUpTo top s.store
      → Rises s.pruning_config top bs
      → (last : ℕ) × (top ≤ last) × IsUpTo last (run_blocks calculate_state_root bs s).store
  unfolding run_blocks
  run_blocks-IsUpTo root [] s top is rises = (top, omega arith, is)
  run_blocks-IsUpTo root (b ∷ bs) s top is (above, unpruned, later) =
      let step = block-Continues root b s top top (omega arith) is above unpruned in
      let next = commit_version root b.version (write_all b.writes s) in
      let rises = subst (λ c. Rises c b.version bs) (sym step.config) later in
      let (last, higher, up_to) = run_blocks-IsUpTo root bs next b.version step.up_to rises in
      (last, omega (arith, above, higher), up_to)

  -- After any blocks of rising versions, none of which prunes, a snapshot from before them is
  -- restored, and every key that is not pending reads at its version as it did before them (the index
  -- of latest versions tells the last writes, and none is above the version before the blocks).
  pub restore_from_snapshot-get :
      (calculate_state_root : ℕ → Store K V → ℕ) (bs : List (Block K V)) (s : RocksDbStorage K V)
      (top w state_root : ℕ)
      → w ≤ top
      → IsUpTo top s.store
      → Rises s.pruning_config top bs
      → lookup w s.snapshots ≡ some state_root
      → let (r, after) = restore_from_snapshot w (run_blocks calculate_state_root bs s) in
        (r ≡ restored)
        × (after.current_version ≡ w)
        × ((k : K)
            → after.store.pending k ≡ none
            → get after.store k w ≡ get_value_option s.store w k)
  unfolding restore_from_snapshot get
  restore_from_snapshot-get root bs s top w state_root low is rises taken =
      let (reads, snaps) = run_blocks-get_value_option root bs s top w low is rises in
      let there = snaps ∙ taken in
      (
        ground (arith, there),
        ground (arith, there),
        λ k clean. let same = reads k in ground (arith, there, clean, same),
      )

  abbrev pub Writes : K → Write K V → Type 0
  Writes k (written j v) = key.beq j k ≡ true
  Writes k (deleted j) = key.beq j k ≡ true

  -- No block writes a key, and none prunes.
  abbrev pub LeaveAlone : PruningConfig → K → List (Block K V) → Type 0
  LeaveAlone config k [] = Unit
  LeaveAlone config k (b ∷ bs) =
      All (λ x. ¬ (Writes k x)) b.writes × IsUnpruned config b.version × LeaveAlone config k bs

  write_all-untouched :
      (k : K) (writes : List (Write K V)) (s : RocksDbStorage K V)
      → All (λ x. ¬ (Writes k x)) writes
      → (write_all writes s).store.pending k ≡ s.store.pending k
  unfolding write_all set delete
  write_all-untouched k [] s others = refl
  write_all-untouched k (written j v ∷ writes) s others =
      let rest = write_all-untouched k writes (record s { store = set j v s.store }) others.1 in
      elim (Bool-cases (key.beq j k)) [
        | inl same ↦ elim (others.0 same) [ ]
        | inr other ↦ ground (arith, rest, other)
      ]
  write_all-untouched k (deleted j ∷ writes) s others =
      let rest = write_all-untouched k writes (record s { store = delete j s.store }) others.1 in
      elim (Bool-cases (key.beq j k)) [
        | inl same ↦ elim (others.0 same) [ ]
        | inr other ↦ ground (arith, rest, other)
      ]

  -- A key with a last write, and nothing pending.
  abbrev pub IsLastWrite : K → ℕ → V → Store K V → Type 0
  IsLastWrite k l x st = (st.pending k ≡ none) × (st.latest k ≡ some l) × (st.values k l ≡ some x)

  run_blocks-IsLastWrite :
      (calculate_state_root : ℕ → Store K V → ℕ) (bs : List (Block K V)) (s : RocksDbStorage K V)
      (k : K) (l : ℕ) (x : V)
      → IsLastWrite k l x s.store
      → LeaveAlone s.pruning_config k bs
      → IsLastWrite k l x (run_blocks calculate_state_root bs s).store
  unfolding run_blocks commit
  run_blocks-IsLastWrite root [] s k l x last alone = last
  run_blocks-IsLastWrite root (b ∷ bs) s k l x last (others, unpruned, later) =
      let dirty = write_all b.writes s in
      let same = write_all-pending b.writes s in
      let clean = write_all-untouched k b.writes s others ∙ last.0 in
      let configs : dirty.pruning_config ≡ s.pruning_config = ap (λ c. c.pruning_config) same in
      let here = subst (λ c. IsUnpruned c b.version) (sym configs) unpruned in
      let (stored, config, _, _, _) = commit_version-unpruned root b.version 0 dirty here in
      let latest : dirty.store.latest k ≡ some l = ap (λ c. c.store.latest k) same ∙ last.1 in
      let value : dirty.store.values k l ≡ some x = ap (λ c. c.store.values k l) same ∙ last.2 in
      let now : IsLastWrite k l x (commit b.version dirty.store) =
        (refl, ground (arith, clean, latest), ground (arith, clean, value)) in
      run_blocks-IsLastWrite root bs (commit_version root b.version dirty) k l x
        (subst (IsLastWrite k l x) (sym stored) now)
        (subst (λ c. LeaveAlone c k bs) (sym (config ∙ configs)) later)

  -- A restore abandons no value: a key that was last written after the snapshot reads as it was
  -- written there as soon as a version is read that is not before this write, whatever blocks follow
  -- the restore, if none of them writes the key (and none prunes).
  pub restore_from_snapshot-abandoned :
      (calculate_state_root : ℕ → Store K V → ℕ) (bs : List (Block K V)) (s : RocksDbStorage K V)
      (w at l : ℕ) (k : K) (x : V)
      → IsLastWrite k l x s.store
      → w < l
      → l ≤ at
      → LeaveAlone s.pruning_config k bs
      → let back = (restore_from_snapshot w s).1 in
        get (run_blocks calculate_state_root bs back).store k at ≡ some x
  unfolding restore_from_snapshot get get_value_option
  restore_from_snapshot-abandoned root bs s w at l k x last after reached alone =
      let back = (restore_from_snapshot w s).1 in
      let (config, store) : (back.pruning_config ≡ s.pruning_config) × (back.store ≡ s.store) =
        elim (Option-cases (lookup w s.snapshots)) [
          | inl missing ↦ (ground (arith, missing), ground (arith, missing))
          | inr (root, there) ↦ (ground (arith, there), ground (arith, there))
        ] in
      let end =
        run_blocks-IsLastWrite root bs back k l x (subst (IsLastWrite k l x) (sym store) last)
          (subst (λ c. LeaveAlone c k bs) (sym config) alone) in
      ground (arith, end, reached)
