-- ===== src/Storage/Reads.antt =====
-- What a read returns after each write.
use pranklin.Base.{
  ℕ, ◌≤◌, ◌%◌, ltb, not, ◌&&◌, ◌==◌, ◌≡◌, refl, none, some, inl, inr, arith, if◌then◌else◌, zero,
  suc, Key, Option-cases,
}
use mathlib.Core.Path.{fun_ext}
use pranklin.Storage.Defs.{
  Store, fresh, get_value_option, get, commit, prune_before_version, set, delete, scan_back,
}

scan_back-none : (V : Type 0) (n : ℕ) → scan_back {V = V} (λ v. none) n ≡ none
unfolding scan_back
scan_back-none V zero = refl
scan_back-none V (suc n) = scan_back-none V n

module _ {K V : Type 0} ⦃key : Key K⦄ where
  -- A read sees the last write to its key, and no other write.
  pub get-set :
      (k j : K) (x : V) (version : ℕ) (s : Store K V)
      → get (set k x s) j version ≡ (if key.beq k j then some x else get s j version)
  unfolding get set get_value_option
  get-set k j x version s = ground arith

  -- A delete uncovers what is stored below, and touches no other key.
  pub get-delete :
      (k j : K) (version : ℕ) (s : Store K V)
      → get (delete k s) j version
        ≡ (if key.beq k j then get_value_option s version j else get s j version)
  unfolding get delete get_value_option
  get-delete k j version s = ground arith

module _ {K V : Type 0} where
  -- What `commit` stores under a key that has no pending value is what was stored.
  commit_values :
      (k : K) (version : ℕ) (s : Store K V)
      → s.pending k ≡ none
      → (commit version s).values k ≡ s.values k
  unfolding commit
  commit_values k version s e = fun_ext λ v. ground arith

  -- A commit at a version changes no read at that version.
  pub get-commit :
      (k : K) (version : ℕ) (s : Store K V) → get (commit version s) k version ≡ get s k version
  unfolding get commit get_value_option
  get-commit k version s = elim (Option-cases (s.pending k)) [
    | inl e ↦ ground (arith, commit_values k version s e)
    | inr (x, e) ↦ ground arith
  ]

  pub get-fresh : (k : K) (version : ℕ) → get (fresh {V = V}) k version ≡ none
  unfolding get fresh get_value_option
  get-fresh k version = scan_back-none V version

  -- Pruning changes the read of a key with no pending value, last written at or before the version
  -- read, exactly when that write is older than the bound and is no snapshot; the key then reads as
  -- if it had never been written.
  pub get-prune_before_version :
      (k : K) (interval bound version : ℕ) {last : ℕ} (s : Store K V)
      → s.pending k ≡ none
      → s.latest k ≡ some last
      → last ≤ version
      → get (prune_before_version interval bound s) k version
        ≡ (if ltb last bound && not (last % interval == 0) then none else get s k version)
  unfolding get get_value_option prune_before_version
  get-prune_before_version k interval bound version s e l h = ground arith
