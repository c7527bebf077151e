-- ===== src/Funding/Rates.antt =====
-- What the funding calculator of crates/engine/src/funding.rs guarantees.
use pranklin.Base.{
  ℕ, ◌+◌, ◌*◌, ◌<◌, ◌≤◌, ◌≡◌, inl, inr, Bool, true, false, not, arith, min, ok, Result-cases,
}
use pranklin.Base.Int.{ℤ, pos_part, neg_part}
use pranklin.Base.Words.{u32_mod, mul_mono, div_bounds}
use pranklin.Funding.Defs.{
  premium_bps, scaled_rate, calculate_funding_rate, calculate_funding_payment,
}

-- An elapsed share of an interval takes at most that share of the premium.
scaled_rate-bound :
    (premium elapsed interval rate limit : ℕ)
    → 0 < interval
    → elapsed ≤ interval
    → premium ≤ limit
    → scaled_rate premium elapsed interval ≡ ok rate
    → rate ≤ limit
unfolding scaled_rate
scaled_rate-bound premium elapsed interval rate limit h le small e =
    let share : premium * elapsed ≤ limit * interval =
      omega (arith, mul_mono premium limit elapsed small, mul_mono elapsed interval limit le) in
    ground (arith, div_bounds (premium * elapsed) interval 0 limit h (omega arith) share)

-- A rate over at most one funding interval, which is not 0, is within the calculator's limit, a
-- u32, on either side, and is not negative when the mark price is at least the oracle price, nor
-- positive when it is below.
pub calculate_funding_rate-bound :
    (limit mark oracle elapsed interval : ℕ) {rate : ℤ}
    → limit < u32_mod
    → 0 < interval
    → elapsed ≤ interval
    → calculate_funding_rate limit mark oracle elapsed interval ≡ ok rate
    → (pos_part rate + neg_part rate ≤ limit)
      × (oracle ≤ mark → neg_part rate ≡ 0)
      × (mark < oracle → pos_part rate ≡ 0)
unfolding calculate_funding_rate
calculate_funding_rate-bound limit mark oracle elapsed interval {rate} small h le e =
    let premium = min (premium_bps mark oracle) limit in
    elim (Result-cases (scaled_rate premium elapsed interval)) [
      | inl (x, failed) ↦ ground arith
      | inr (r, scaled) ↦
          let bound =
            scaled_rate-bound premium elapsed interval r limit h le (omega arith) scaled in
          (ground (arith, bound), λ above. ground (arith, bound), λ below. ground (arith, bound))
    ]

-- Funding is exchanged between the sides: on the same size and indices a long and a short have
-- the same amount, and when it is not 0 the one pays what the other receives.
pub funding_payment-opposite :
    (size : ℕ) (entry current : ℤ) {amount : ℕ} {pays : Bool}
    → calculate_funding_payment size true entry current ≡ ok (amount, pays)
    → 0 < amount
    → calculate_funding_payment size false entry current ≡ ok (amount, not pays)
unfolding calculate_funding_payment
funding_payment-opposite size entry current {amount} {pays} e some_due = ground arith
