-- ===== src/Base/Words.antt =====
-- Machine words: the bounds of u32, u64 and u128, wrapping and checked arithmetic.
use pranklin.Base.{
  ℕ, ◌+◌, ◌-◌, ◌*◌, ◌%◌, ◌/◌, ◌^◌, ◌<◌, ◌≡◌, arith, ltb, leb, if◌then◌else◌, Result, ok, err,
  overflow, ◌≤◌,
}
use native.Mathlib.Nat.{le-div_iff_mul-le, div-le_of_le-mul}

abbrev pub u32_mod : ℕ
u32_mod = 2 ^ 32

abbrev pub u64_mod : ℕ
u64_mod = 2 ^ 64

abbrev pub u128_mod : ℕ
u128_mod = 2 ^ 128

abbrev pub u32_max : ℕ
u32_max = 0xffff_ffff

abbrev pub u128_max : ℕ
u128_max = 0xffff_ffff_ffff_ffff_ffff_ffff_ffff_ffff

-- `x as u64`, for a wider x.
abbrev pub as_u64 : ℕ → ℕ
as_u64 n = n % u64_mod

-- `a + b` and `a - b` on u64 in a release build.
abbrev pub add_u64 : ℕ → ℕ → ℕ
add_u64 a b = (a + b) % u64_mod

abbrev pub sub_u64 : ℕ → ℕ → ℕ
sub_u64 a b = (a + u64_mod - b) % u64_mod

abbrev pub add_u128 : ℕ → ℕ → ℕ
add_u128 a b = (a + b) % u128_mod

-- What the checked operations of u128 do with the exact result.
unfoldable pub fit : ℕ → Result ℕ
fit n = if ltb n u128_mod then ok n else err overflow

abbrev pub checked_add : ℕ → ℕ → Result ℕ
checked_add a b = fit (a + b)

abbrev pub checked_mul : ℕ → ℕ → Result ℕ
checked_mul a b = fit (a * b)

abbrev pub checked_sub : ℕ → ℕ → Result ℕ
checked_sub a b = if leb b a then ok (a - b) else err overflow

pub fit-ok : (n : ℕ) → n < u128_mod → fit n ≡ ok n
unfolding fit
fit-ok n h = ground arith

pub fit_inv : (n : ℕ) {m : ℕ} → fit n ≡ ok m → (m ≡ n) × (n < u128_mod)
unfolding fit
fit_inv n h = ground arith

-- A product of two u64 fits u128.
pub mul-lt_u128 : (a b : ℕ) → a < u64_mod → b < u64_mod → a * b < u128_mod
mul-lt_u128 a b ha hb = grind arith

-- Products are monotone; `omega` multiplies out what it is given.
pub mul_mono : (a b c : ℕ) → a ≤ b → a * c ≤ b * c
mul_mono a b c h = grind arith

-- The quotient of a bounded number lies within the bounds.
pub div_bounds : (v t lo hi : ℕ) → 0 < t → lo * t ≤ v → v ≤ hi * t → (lo ≤ v / t) × (v / t ≤ hi)
div_bounds v t lo hi pos low high =
    ((le-div_iff_mul-le pos).1 low, div-le_of_le-mul t (omega arith))
