-- ===== src/Funding/Defs.antt =====
-- The funding rate, its update, and the payment for a position. `as i64` keeps the low 64 bits and
-- reads them as signed.
use pranklin.Base.{
  ℕ, ◌+◌, ◌-◌, ◌*◌, ◌/◌, ◌%◌, ◌^◌, Bool, true, not, ltb, leb, ◌==◌, if◌then◌else◌, min, Result, ok,
  err, ok_or, overflow, market_not_found, Method, ◌>>=◌, lift, gets, modify,
}
use pranklin.Base.Int.{ℤ, pos, negsuc, pos_part, neg_part, sub_ℕ, ◌+ℤ◌, ◌-ℤ◌}
use pranklin.Base.Words.{as_u64, u64_mod, u128_mod}
use pranklin.State.{State, get_market, get_funding_rate, set_funding_rate}
use pranklin.Position.{basis_points}

abbrev pub i64_sign : ℕ
i64_sign = 2 ^ 63

abbrev pub i128_sign : ℕ
i128_sign = 2 ^ 127

-- `n as i64` for a u64.
abbrev pub as_i64 : ℕ → ℤ
as_i64 n = if ltb n i64_sign then pos n else negsuc (u64_mod - n - 1)

-- `-x` for an i64, which wraps at the least value.
abbrev pub neg_i64 : ℤ → ℤ
neg_i64 z = if neg_part z == i64_sign then z else sub_ℕ (neg_part z) (pos_part z)

-- What the checked operations of i128 do with the exact result.
unfoldable pub fit_i128 : ℤ → Result ℤ
fit_i128 (pos n) = if ltb n i128_sign then ok (pos n) else err overflow
fit_i128 (negsuc n) = if ltb n i128_sign then ok (negsuc n) else err overflow

-- The premium in basis points, before it is clamped.
unfoldable pub premium_bps : ℕ → ℕ → ℕ
premium_bps mark_price oracle_price =
    if leb oracle_price mark_price
    then as_u64 ((mark_price - oracle_price) * basis_points / oracle_price)
    else as_u64 ((oracle_price - mark_price) * basis_points / oracle_price)

-- `checked_mul` on u64; the division is by an interval that is not 0.
unfoldable pub scaled_rate : ℕ → ℕ → ℕ → Result ℕ
scaled_rate clamped_premium time_elapsed funding_interval =
    if ltb 0 funding_interval
    then if ltb (clamped_premium * time_elapsed) u64_mod
      then ok (clamped_premium * time_elapsed / funding_interval)
      else err overflow
    else ok clamped_premium

-- The first argument is `max_funding_rate_bps` of the calculator.
unfoldable pub calculate_funding_rate : ℕ → ℕ → ℕ → ℕ → ℕ → Result ℤ
unfolding scaled_rate premium_bps
calculate_funding_rate max_funding_rate_bps mark_price oracle_price time_elapsed funding_interval =
    if oracle_price == 0
    then ok (pos 0)
    else elim (scaled_rate (min (premium_bps mark_price oracle_price) max_funding_rate_bps)
        time_elapsed funding_interval) [
          | err e ↦ err e
          | ok rate ↦
              ok (if leb oracle_price mark_price then as_i64 rate else neg_i64 (as_i64 rate))
        ]

unfoldable pub update_funding_rate : ℕ → ℕ → ℕ → ℕ → ℕ → Method State (Unit {0})
update_funding_rate max_funding_rate_bps market_id mark_price oracle_price timestamp = do
  current ← gets (λ s. get_funding_rate s market_id)
  let time_elapsed = if ltb 0 current.last_update then timestamp - current.last_update else 0
  found ← gets (λ s. get_market s market_id)
  market ← lift (ok_or found market_not_found)
  rate ← lift (
      calculate_funding_rate max_funding_rate_bps mark_price oracle_price time_elapsed
        market.funding_interval)
  new_index ← lift (fit_i128 (current.index +ℤ rate))
  modify (
      set_funding_rate market_id (record {
        rate = rate;
        last_update = timestamp;
        index = new_index;
        mark_price = mark_price;
        oracle_price = oracle_price;
      }))

-- i128 division rounds towards 0.
abbrev pub div_ℤ : ℤ → ℕ → ℤ
div_ℤ z d = sub_ℕ (pos_part z / d) (neg_part z / d)

abbrev pub scale_ℤ : ℕ → ℤ → ℤ
scale_ℤ n z = sub_ℕ (n * pos_part z) (n * neg_part z)

-- A difference of two i128 in a release build, which wraps.
unfoldable pub wrap_i128 : ℤ → ℤ
wrap_i128 z =
    let w = (pos_part z + (u128_mod - neg_part z % u128_mod)) % u128_mod in
    if ltb w i128_sign then pos w else negsuc (u128_mod - w - 1)

-- The amount, and whether the trader pays it.
unfoldable pub calculate_funding_payment : ℕ → Bool → ℤ → ℤ → Result (ℕ × Bool)
unfolding wrap_i128
calculate_funding_payment position_size is_long entry_funding_index current_funding_index =
    let funding_diff = wrap_i128 (current_funding_index -ℤ entry_funding_index) in
    if pos_part funding_diff + neg_part funding_diff == 0
    then ok (0, true)
    else elim (fit_i128 (scale_ℤ position_size funding_diff)) [
      | err e ↦ err e
      | ok scaled ↦
          let payment = div_ℤ scaled basis_points in
          if ltb 0 (pos_part payment)
          then ok (pos_part payment, is_long)
          else ok (neg_part payment, not is_long)
    ]
