-- ===== src/Tests/Restarts.antt =====
-- Two blocks after a snapshot, a restore and a restart.
use pranklin.Base.{
  ℕ, ◌%◌, ◌<◌, ◌≤◌, ◌≢◌, ◌+◌, ◌≡◌, refl, true, none, some, List, [], ◌∷◌, inr, arith, number_key,
}
use pranklin.Base.Maps.{lookup, insert}
use pranklin.Storage.{Store, fresh, get, set, delete, commit, get_value_option, scan_back}
use pranklin.Storage.Snapshots.{
  PruningConfig, RocksDbStorage, written, deleted, write_all, commit_version, maintain,
  create_snapshot, get_root, restore_from_snapshot, restored, reopen, Block, run_blocks,
}
use pranklin.Storage.Latest.{IsUpTo, commit-IsUpTo}
use pranklin.Storage.Pruning.{commit_version-prunes}
use pranklin.Storage.Restart.{reopen-get, IsUnpruned}
use pranklin.Storage.Restore.{
  Rises, LeaveAlone, IsLastWrite, restore_from_snapshot-get, restore_from_snapshot-abandoned,
}

abbrev every_tenth : PruningConfig
every_tenth = record { snapshot_interval = 10; prune_before = 100; enabled = true }

-- A root that is told by its version.
abbrev root : ℕ → Store ℕ ℕ → ℕ
root version store = version + 1

abbrev start : RocksDbStorage ℕ ℕ
start = record {
  store = fresh;
  current_version = 0;
  saved_version = none;
  snapshots = [];
  root_cache = λ _. none;
  pruning_config = every_tenth;
}

abbrev at_ten : RocksDbStorage ℕ ℕ
at_ten = commit_version root 10 (write_all (written 1 8 ∷ []) start)

abbrev later : List (Block ℕ ℕ)
later =
    record { version = 11; writes = written 1 9 ∷ written 2 5 ∷ [] }
    ∷ record { version = 12; writes = deleted 1 ∷ [] }
    ∷ []

abbrev ahead : RocksDbStorage ℕ ℕ
ahead = run_blocks root later at_ten

start-IsUpTo : IsUpTo 0 (write_all (written 1 8 ∷ []) start).store
unfolding write_all set fresh
start-IsUpTo = record { empty_above = λ k v above. refl; is_latest = λ k l e. cc }

at_ten-IsUpTo : IsUpTo 10 at_ten.store
unfolding commit_version maintain create_snapshot write_all commit
at_ten-IsUpTo =
    commit-IsUpTo 0 10 (write_all (written 1 8 ∷ []) start).store (omega arith) start-IsUpTo

taken : lookup 10 at_ten.snapshots ≡ some 11
unfolding commit_version maintain create_snapshot get_root insert lookup write_all
taken = refl

config_kept : at_ten.pruning_config ≡ every_tenth
unfolding commit_version maintain create_snapshot write_all
config_kept = refl

rises : Rises at_ten.pruning_config 10 later
unfolding commit_version maintain create_snapshot write_all
rises = (omega arith, inr (omega arith), (omega arith, inr (omega arith), tt))

early : IsUnpruned (write_all (written 1 8 ∷ []) start).pruning_config 10
unfolding write_all
early = inr (omega arith)

-- The restored chain writes other keys.
abbrev other : List (Block ℕ ℕ)
other = record { version = 11; writes = written 3 7 ∷ [] } ∷ []

abandoned : IsLastWrite 2 11 5 ahead.store
unfolding run_blocks commit_version maintain create_snapshot get_root write_all commit set delete
    fresh
abandoned = (refl, refl, refl)

alone : LeaveAlone ahead.pruning_config 2 other
unfolding run_blocks commit_version maintain create_snapshot get_root write_all
alone = ((λ same. ground (arith, same), tt), inr (omega arith), tt)

reads_back : get (restore_from_snapshot 10 ahead).1.store 1 10 ≡ some 8
unfolding restore_from_snapshot run_blocks commit_version maintain create_snapshot get_root
    write_all commit get get_value_option scan_back set delete fresh lookup insert
reads_back = refl

restore_from_snapshot-get_example :
    let (r, after) = restore_from_snapshot 10 (run_blocks root later at_ten) in
    (r ≡ restored)
    × (after.current_version ≡ 10)
    × ((k : ℕ)
        → after.store.pending k ≡ none
        → get after.store k 10 ≡ get_value_option at_ten.store 10 k)
restore_from_snapshot-get_example =
    restore_from_snapshot-get root later at_ten 10 10 11 (omega arith) at_ten-IsUpTo rises taken

reopen-get_example :
    let committed = commit_version root 10 (write_all (written 1 8 ∷ []) start) in
    let opened = reopen every_tenth (write_all (written 1 9 ∷ deleted 1 ∷ []) committed) in
    (opened.current_version ≡ 10)
    × (get opened.store 1 4 ≡ get committed.store 1 4)
    × (get opened.store 1 10 ≡ get (write_all (written 1 8 ∷ []) start).store 1 10)
reopen-get_example =
    reopen-get root 10 (write_all (written 1 8 ∷ []) start) (written 1 9 ∷ deleted 1 ∷ [])
      every_tenth 1 4 early

restore_from_snapshot-abandoned_example :
    let back = (restore_from_snapshot 10 ahead).1 in
    get (run_blocks root other back).store 2 11 ≡ some 5
restore_from_snapshot-abandoned_example =
    restore_from_snapshot-abandoned root other ahead 10 11 11 2 5 abandoned (omega arith)
      (omega arith) alone

set-IsUpTo : IsUpTo 0 (set 1 8 (fresh {K = ℕ} {V = ℕ}))
unfolding set fresh
set-IsUpTo = record { empty_above = λ k v above. refl; is_latest = λ k l e. cc }

-- Only three blocks are kept.
abbrev short : RocksDbStorage ℕ ℕ
short = record start {
  store = commit 11 (set 1 8 fresh);
  pruning_config = record { snapshot_interval = 10; prune_before = 3; enabled = true };
}

last_at_11 : (short.store.pending 1 ≡ none) × (short.store.latest 1 ≡ some 11)
unfolding commit set fresh
last_at_11 = (refl, refl)

short-IsUpTo : IsUpTo 11 short.store
short-IsUpTo = commit-IsUpTo 0 11 (set 1 8 fresh) (omega arith) set-IsUpTo

commit_version-prunes_example :
    let after = commit_version root 20 short in
    (x : ℕ) × (get short.store 1 20 ≡ some x)
    × (11 + 3 < 20 → 11 % 10 ≢ 0 → get after.store 1 20 ≡ none)
    × (20 ≤ 11 + 3 → get after.store 1 20 ≡ some x)
    × (11 % 10 ≡ 0 → get after.store 1 20 ≡ some x)
commit_version-prunes_example =
    commit_version-prunes root 20 11 11 1 short refl (omega arith) short-IsUpTo (omega arith)
      last_at_11.0 last_at_11.1
