-- ===== src/Events/Rocks/Order.antt =====
-- The order of keys in the database, and the keys that start with a prefix.
use pranklin.Base.{
  ℕ, ◌≡◌, refl, Bool, true, false, Option, none, some, List, [], ◌∷◌, ◌++◌, length, arith, ltb,
  ◌==◌, if◌then◌else◌, Bool-cases, inl, inr,
}
use pranklin.Events.Rocks.Defs.{Entry}

-- The lexicographic order of byte strings.
unfoldable pub leq : List ℕ → List ℕ → Bool
leq [] ys = true
leq (x ∷ xs) [] = false
leq (x ∷ xs) (y ∷ ys) = let rest = leq xs ys in if x == y then rest else ltb x y

unfoldable pub has_prefix : List ℕ → List ℕ → Bool
has_prefix [] ys = true
has_prefix (x ∷ xs) [] = false
has_prefix (x ∷ xs) (y ∷ ys) = let rest = has_prefix xs ys in if x == y then rest else false

-- Keys between a prefix and one that starts with it start with it.
pub has_prefix-between :
    (p y z : List ℕ)
    → leq p y ≡ true
    → leq y z ≡ true
    → has_prefix p z ≡ true
    → has_prefix p y ≡ true
unfolding leq has_prefix
has_prefix-between [] y z low high starts = refl
has_prefix-between (a ∷ p) [] z low high starts = cc
has_prefix-between (a ∷ p) (b ∷ y) [] low high starts = cc
has_prefix-between (a ∷ p) (b ∷ y) (c ∷ z) low high starts =
    let rest = has_prefix-between p y z in ground (arith, rest)

pub leq_refl : (x : List ℕ) → leq x x ≡ true
unfolding leq
leq_refl [] = refl
leq_refl (a ∷ x) = ground (arith, leq_refl x)

pub leq_trans : (x y z : List ℕ) → leq x y ≡ true → leq y z ≡ true → leq x z ≡ true
unfolding leq
leq_trans [] y z low high = refl
leq_trans (a ∷ x) [] z low high = cc
leq_trans (a ∷ x) (b ∷ y) [] low high = cc
leq_trans (a ∷ x) (b ∷ y) (c ∷ z) low high = let rest = leq_trans x y z in ground (arith, rest)

pub has_prefix-leq : (p z : List ℕ) → has_prefix p z ≡ true → leq p z ≡ true
unfolding leq has_prefix
has_prefix-leq [] z starts = refl
has_prefix-leq (a ∷ p) [] starts = cc
has_prefix-leq (a ∷ p) (c ∷ z) starts = let rest = has_prefix-leq p z in ground (arith, rest)

pub has_prefix-append : (p rest : List ℕ) → has_prefix p (p ++ rest) ≡ true
unfolding has_prefix
has_prefix-append [] rest = refl
has_prefix-append (a ∷ p) rest = ground (arith, has_prefix-append p rest)

-- A prefix of the same size is the start.
pub has_prefix-start :
    (p q rest : List ℕ) → length p ≡ length q → has_prefix p (q ++ rest) ≡ true → p ≡ q
unfolding has_prefix
has_prefix-start [] [] rest size starts = refl
has_prefix-start [] (b ∷ q) rest size starts = ground (arith, size)
has_prefix-start (a ∷ p) [] rest size starts = ground (arith, size)
has_prefix-start (a ∷ p) (b ∷ q) rest size starts =
    let others = has_prefix-start p q rest (omega (arith, size)) in
    elim (Bool-cases (a == b)) [
      | inl same ↦
          let heads : a ≡ b = ground (arith, same) in
          let tails = others (ground (arith, same, starts)) in cc
      | inr differ ↦ ground (arith, differ, starts)
    ]

-- Entries in the order of their keys, from a key on.
abbrev pub AscendingFrom : List ℕ → List Entry → Type 0
AscendingFrom low [] = Unit
AscendingFrom low ((key, value) ∷ entries) = (leq low key ≡ true) × AscendingFrom key entries

unfoldable pub same_bytes : List ℕ → List ℕ → Bool
same_bytes [] [] = true
same_bytes [] (y ∷ ys) = false
same_bytes (x ∷ xs) [] = false
same_bytes (x ∷ xs) (y ∷ ys) = let rest = same_bytes xs ys in if x == y then rest else false

pub same_bytes_refl : (xs : List ℕ) → same_bytes xs xs ≡ true
unfolding same_bytes
same_bytes_refl [] = refl
same_bytes_refl (x ∷ xs) = ground (arith, same_bytes_refl xs)

pub same_bytes→≡ : (xs ys : List ℕ) → same_bytes xs ys ≡ true → xs ≡ ys
unfolding same_bytes
same_bytes→≡ [] [] e = refl
same_bytes→≡ [] (y ∷ ys) e = cc
same_bytes→≡ (x ∷ xs) [] e = cc
same_bytes→≡ (x ∷ xs) (y ∷ ys) e = elim (Bool-cases (x == y)) [
  | inl same ↦
      let heads : x ≡ y = ground (arith, same) in
      let tails = same_bytes→≡ xs ys (ground (arith, same, e)) in cc
  | inr differ ↦ ground (arith, differ, e)
]

-- The value of a key among entries.
unfoldable pub find_key : List ℕ → List Entry → Option (List ℕ)
find_key k [] = none
find_key k ((key, value) ∷ entries) =
    let rest = find_key k entries in if same_bytes k key then some value else rest
