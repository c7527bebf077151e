-- ===== src/Types/Prices.antt =====
-- Prices on the tick grid: `normalize_price` and `validate_price` of crates/types/src/state.rs.
use pranklin.Base.{ℕ, ◌+◌, ◌/◌, ◌<◌, ◌≤◌, ◌≡◌, true, arith, ◌==◌, inl, inr, Bool-cases}
use pranklin.Base.Words.{u64_mod}
use native.Mathlib.Nat.{mul-mod_left, div-mul-le_self, lt-mul-div-succ}
use pranklin.Types.Market.{Market, normalize_price, validate_price}

-- A normalized price is valid, and at most half a tick away from the price, if the sum of the price
-- and half a tick does not wrap.
pub normalize_price-nearest :
    (m : Market) (price : ℕ)
    → price + m.tick_size / 2 < u64_mod
    → let q = normalize_price m price in
      (validate_price m q ≡ true) × (price ≤ q + m.tick_size / 2) × (q ≤ price + m.tick_size / 2)
unfolding normalize_price validate_price
normalize_price-nearest m price fits = elim (Bool-cases (m.tick_size == 0)) [
  | inl unset ↦ ground arith
  | inr tick ↦
      let v = price + m.tick_size / 2 in
      let low = div-mul-le_self v m.tick_size in
      let high = lt-mul-div-succ v {b = m.tick_size} (ground arith) in
      let whole = mul-mod_left (v / m.tick_size) m.tick_size in
      (ground (arith, whole), ground (arith, high, low), ground (arith, low))
]
