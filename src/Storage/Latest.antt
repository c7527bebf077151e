-- ===== src/Storage/Latest.antt =====
-- The index of latest versions, beside the versions themselves: `get_value_option` and `commit` of
-- crates/state/src/rocksdb_storage.rs.
use pranklin.Base.{
  ℕ, zero, suc, ◌==◌, ◌≡◌, ◌∙◌, ◌≤◌, ◌<◌, refl, sym, ap, inl, inr, Option, none, some, arith, leb,
  Option-cases, Bool-cases,
}
use pranklin.Storage.Defs.{Store, fresh, scan_back, get_value_option, commit}

-- The index of latest versions tells the last write of each key, and none is above a version.
pub record IsUpTo {K V : Type 0} (top : ℕ) (s : Store K V) : Type 0 where
  pub empty_above : (k : K) (v : ℕ) → top < v → s.values k v ≡ none
  pub is_latest :
      (k : K) (l : ℕ)
      → s.latest k ≡ some l
      → ((x : V) × (s.values k l ≡ some x)) × ((v : ℕ) → l < v → s.values k v ≡ none)

module _ {V : Type 0} where
  -- What is empty above a version is read at that version.
  scan_back-last :
      (f : ℕ → Option V) (last n : ℕ) {x : V}
      → last ≤ n
      → f last ≡ some x
      → ((v : ℕ) → last < v → f v ≡ none)
      → scan_back f n ≡ some x
  unfolding scan_back
  scan_back-last f last zero below there above = ground (arith, below, there)
  scan_back-last f last (suc n) below there above = elim (Bool-cases (last == suc n)) [
    | inl same ↦
        let its : last ≡ suc n = ground (arith, same) in
        let found = ap f (sym its) ∙ there in ground (arith, found)
    | inr other ↦
        let empty = above (suc n) (ground (arith, other, below)) in
        let rest = scan_back-last f last n (ground (arith, other, below)) there above in
        ground (arith, empty, rest)
  ]

  pub scan_back-agree :
      (f g : ℕ → Option V) (n : ℕ) → ((v : ℕ) → v ≤ n → f v ≡ g v) → scan_back f n ≡ scan_back g n
  unfolding scan_back
  scan_back-agree f g zero agree = agree 0 (omega arith)
  scan_back-agree f g (suc n) agree =
      let now = agree (suc n) (omega arith) in
      let rest = scan_back-agree f g n (λ v below. agree v (omega (arith, below))) in
      elim (Option-cases (g (suc n))) [
        | inl empty ↦ ground (arith, now, rest, empty)
        | inr (x, there) ↦ ground (arith, now, there)
      ]

module _ {K V : Type 0} where
  -- A read of what is stored, by the index of latest versions, finds the last write at or before the
  -- version that is read.
  pub get_value_option-scan_back :
      (s : Store K V) (top version : ℕ) (k : K)
      → IsUpTo top s
      → get_value_option s version k ≡ scan_back (s.values k) version
  unfolding get_value_option
  get_value_option-scan_back s top version k is = elim (Option-cases (s.latest k)) [
    | inl never ↦ ground (arith, never)
    | inr (l, indexed) ↦
        let ((x, there), above) = is.is_latest k l indexed in
        elim (Bool-cases (leb l version)) [
          | inl low ↦
              let found = scan_back-last (s.values k) l version (ground (arith, low)) there above in
              ground (arith, indexed, low, there, found)
          | inr high ↦ ground (arith, indexed, high)
        ]
  ]

  pub commit-values :
      (k : K) (version v : ℕ) (s : Store K V)
      → v < version
      → (commit version s).values k v ≡ s.values k v
  unfolding commit
  commit-values k version v s below = ground (arith, below)

  pub commit-IsUpTo :
      (top version : ℕ) (s : Store K V)
      → top < version
      → IsUpTo top s
      → IsUpTo version (commit version s)
  unfolding commit
  commit-IsUpTo top version s above is = record {
    empty_above = λ k v high.
        let below = is.empty_above k v (omega (arith, above, high)) in ground (arith, high, below);
    is_latest = λ k l e. elim (Option-cases (s.pending k)) [
      | inl kept ↦
          let ((x, there), higher) = is.is_latest k l (ground (arith, kept, e)) in
          (
            (x, ground (arith, kept, there)),
            λ v high. let it = higher v high in ground (arith, kept, it),
          )
      | inr (x, new) ↦
          let own : version ≡ l = ground (arith, new, e) in
          (
            (x, ground (arith, new, own)),
            λ v high.
                let it = is.empty_above k v (omega (arith, own, above, high)) in
                ground (arith, new, own, high, it),
          )
    ];
  }

  -- A fresh database.
  pub fresh-IsUpTo : IsUpTo 0 (fresh {K = K} {V = V})
  unfolding fresh
  fresh-IsUpTo = record { empty_above = λ k v above. refl; is_latest = λ k l e. cc }
