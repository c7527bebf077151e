-- ===== src/Signing/Bytes.antt =====
-- Byte strings that are put together, and hashes of them.
use pranklin.Base.{ℕ, zero, suc, ◌%◌, ◌/◌, ◌^◌, ◌<◌, ◌≡◌, refl, List, [], ◌∷◌, ◌++◌, length, arith}
use pranklin.Signing.Defs.{le_bytes}

-- Two inputs that a hash function does not confuse.
abbrev pub Separates : (List ℕ → List ℕ) → List ℕ → List ℕ → Type 0
Separates hash xs ys = hash xs ≡ hash ys → xs ≡ ys

-- What is put together from parts of the same size comes apart in the same parts.
pub append_inj :
    {A : Type 0} (xs ys us vs : List A)
    → length xs ≡ length us
    → xs ++ ys ≡ us ++ vs
    → (xs ≡ us) × (ys ≡ vs)
append_inj [] ys [] vs size e = (refl, e)
append_inj [] ys (u ∷ us) vs size e = ground (arith, size)
append_inj (x ∷ xs) ys [] vs size e = ground (arith, size)
append_inj (x ∷ xs) ys (u ∷ us) vs size e =
    let heads : x ≡ u = cc in
    let tails : xs ++ ys ≡ us ++ vs = cc in
    let (front, back) = append_inj xs ys us vs (omega (arith, size)) tails in (cc, back)

pub length-le_bytes : (count n : ℕ) → length (le_bytes count n) ≡ count
unfolding le_bytes
length-le_bytes zero n = refl
length-le_bytes (suc count) n = omega (arith, length-le_bytes count (n / 256))

-- A number below a power of 256 is told by its bytes.
pub le_bytes_inj :
    (count m n : ℕ)
    → m < 256 ^ count
    → n < 256 ^ count
    → le_bytes count m ≡ le_bytes count n
    → m ≡ n
unfolding le_bytes
le_bytes_inj zero m n below_m below_n e = omega (arith, below_m, below_n)
le_bytes_inj (suc count) m n below_m below_n e =
    let low : m % 256 ≡ n % 256 = cc in
    let high : le_bytes count (m / 256) ≡ le_bytes count (n / 256) = cc in
    let rest =
      le_bytes_inj count (m / 256) (n / 256) (omega (arith, below_m)) (omega (arith, below_n))
        high in
    omega (arith, low, rest)
