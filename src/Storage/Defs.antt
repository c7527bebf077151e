-- ===== src/Storage/Defs.antt =====
-- The two layers: `pending_updates` in memory, and the `JmtValue` and `LatestVersion` entries of
-- RocksDB.
use pranklin.Base.{
  ℕ, zero, suc, Option, none, some, leb, ltb, not, ◌&&◌, ◌%◌, ◌==◌, if◌then◌else◌, Key, update,
}

pub record Store (K V : Type 0) : Type 0 where
  pub pending : K → Option V
  pub values : K → ℕ → Option V
  pub latest : K → Option ℕ

-- `for v in (0..=max_version).rev()`
unfoldable pub scan_back : {V : Type 0} → (ℕ → Option V) → ℕ → Option V
scan_back f zero = f zero
scan_back f (suc v) =
    let older = scan_back f v in elim (f (suc v)) [ some x ↦ some x | none ↦ older ]

module _ {K V : Type 0} where
  -- A fresh database.
  unfoldable pub fresh : Store K V
  fresh = record { pending = λ _. none; values = λ _ _. none; latest = λ _. none }

  unfoldable pub get_value_option : Store K V → ℕ → K → Option V
  get_value_option s max_version k = elim (s.latest k) [
    | none ↦ scan_back (s.values k) max_version
    | some latest ↦
        if leb latest max_version then s.values k latest else scan_back (s.values k) max_version
  ]

  unfoldable pub get : Store K V → K → ℕ → Option V
  get s k version = elim (s.pending k) [ some v ↦ some v | none ↦ get_value_option s version k ]

  -- The values written by `commit`: an entry for each pending key at the version, and its
  -- `LatestVersion`. Nothing is written for a key that has no pending value.
  unfoldable pub commit : ℕ → Store K V → Store K V
  commit version s = record {
    pending = λ _. none;
    values = λ k v. elim (s.pending k) [
      | none ↦ s.values k v
      | some x ↦ if v == version then some x else s.values k v
    ];
    latest = λ k. elim (s.pending k) [ none ↦ s.latest k | some x ↦ some version ];
  }

  -- The multiples of the interval, that is the snapshots, are kept.
  unfoldable pub prune_before_version : ℕ → ℕ → Store K V → Store K V
  prune_before_version interval bound s = record s {
    values = λ k v. if ltb v bound && not (v % interval == 0) then none else s.values k v;
  }

module _ {K V : Type 0} ⦃key : Key K⦄ where
  unfoldable pub set : K → V → Store K V → Store K V
  set k v s = record s { pending = update s.pending k (some v) }

  -- Only the pending value goes.
  unfoldable pub delete : K → Store K V → Store K V
  delete k s = record s { pending = update s.pending k none }
