-- ===== src/Base/Ordered.antt =====
-- Maps whose keys are in order, as a `BTreeMap` has them.
use pranklin.Base.{ℕ, ◌<◌, ◌≡◌, none, [], ◌∷◌, arith, refl, number_key}
use pranklin.Base.Maps.{Map, lookup, insert, erase}

module _ {V : Type 0} where
  abbrev pub AllAbove : ℕ → Map V → Type 0
  AllAbove k [] = Unit
  AllAbove k ((j, v) ∷ m) = (k < j) × AllAbove k m

  abbrev pub IsOrdered : Map V → Type 0
  IsOrdered [] = Unit
  IsOrdered ((j, v) ∷ m) = AllAbove j m × IsOrdered m

  pub insert-AllAbove :
      (k j : ℕ) (v : V) (m : Map V) → k < j → AllAbove k m → AllAbove k (insert j v m)
  unfolding insert
  insert-AllAbove k j v [] less all = (less, tt)
  insert-AllAbove k j v ((i, w) ∷ m) less all = ground (arith, insert-AllAbove k j v m less all.1)

  above_trans : (k j : ℕ) (m : Map V) → k < j → AllAbove j m → AllAbove k m
  above_trans k j [] less all = tt
  above_trans k j ((i, w) ∷ m) less all = (omega (arith, less, all.0), above_trans k j m less all.1)

  pub insert-IsOrdered : (k : ℕ) (v : V) (m : Map V) → IsOrdered m → IsOrdered (insert k v m)
  unfolding insert
  insert-IsOrdered k v [] h = (tt, tt)
  insert-IsOrdered k v ((j, w) ∷ m) h =
      ground
        (arith, insert-IsOrdered k v m h.1, insert-AllAbove j k v m, above_trans k j m, h.0, h.1)

  pub erase-AllAbove : (k j : ℕ) (m : Map V) → AllAbove k m → AllAbove k (erase j m)
  unfolding erase
  erase-AllAbove k j [] all = tt
  erase-AllAbove k j ((i, w) ∷ m) all = ground (arith, erase-AllAbove k j m all.1)

  pub erase-IsOrdered : (k : ℕ) (m : Map V) → IsOrdered m → IsOrdered (erase k m)
  unfolding erase
  erase-IsOrdered k [] h = tt
  erase-IsOrdered k ((j, w) ∷ m) h =
      ground (arith, erase-IsOrdered k m h.1, erase-AllAbove j k m h.0)

  pub lookup-above : (k : ℕ) (m : Map V) → AllAbove k m → lookup k m ≡ none
  unfolding lookup
  lookup-above k [] all = refl
  lookup-above k ((j, w) ∷ m) all = ground (arith, lookup-above k m all.1)

  pub lookup-erase_same : (k : ℕ) (m : Map V) → IsOrdered m → lookup k (erase k m) ≡ none
  unfolding lookup erase
  lookup-erase_same k [] h = refl
  lookup-erase_same k ((j, w) ∷ m) h =
      ground (arith, lookup-erase_same k m h.1, lookup-above j m h.0)
