-- ===== src/Base/Maps.antt =====
-- Maps with numbers as keys, in the order of the keys: `BTreeMap`, and a `HashMap` where only its
-- reads and its size are used.
use mathlib.Core.Path.{◌≡◌, refl}
use mathlib.Core.Bool.{Bool}
use mathlib.Core.Option.{Option, none, some}
use mathlib.Core.List.{List, [], ◌∷◌}
use Prim.Native.Nat.{ℕ}
use native.Mathlib.Omega.{arith}
use pranklin.Base.Tests.{ltb, ◌==◌, if◌then◌else◌}

abbrev pub Map : Type 0 → Type 0
Map V = List (ℕ × V)

module _ {V : Type 0} where
  unfoldable pub lookup : ℕ → Map V → Option V
  lookup k [] = none
  lookup k ((j, v) ∷ m) = if k == j then some v else lookup k m

  unfoldable pub insert : ℕ → V → Map V → Map V
  insert k v [] = (k, v) ∷ []
  insert k v ((j, w) ∷ m) =
      if ltb k j then (k, v) ∷ (j, w) ∷ m else if k == j then (k, v) ∷ m else (j, w) ∷ insert k v m

  unfoldable pub erase : ℕ → Map V → Map V
  erase k [] = []
  erase k ((j, w) ∷ m) = if k == j then m else (j, w) ∷ erase k m

  pub lookup-insert :
      (k j : ℕ) (v : V) (m : Map V)
      → lookup j (insert k v m) ≡ (if j == k then some v else lookup j m)
  unfolding lookup insert
  lookup-insert key other new [] = ground arith
  lookup-insert key other new (e ∷ rest) = ground (arith, lookup-insert key other new rest)

  pub lookup-erase :
      (k j : ℕ) (m : Map V) → (j == k) ≡ Bool.false → lookup j (erase k m) ≡ lookup j m
  unfolding lookup erase
  lookup-erase k j [] h = refl
  lookup-erase k j ((i, w) ∷ m) h = ground (arith, lookup-erase k j m h)
