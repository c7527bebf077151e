-- ===== src/Liquidation/Sizes.antt =====
-- Bounds on what a liquidation takes.
use pranklin.Base.{
  ℕ, ◌+◌, ◌-◌, ◌*◌, ◌/◌, ◌<◌, ◌≤◌, ◌≡◌, ◌⊎◌, inl, inr, true, some, arith, ok, sym, ap, ◌∙◌, ◌%◌,
  Result-cases,
}
use pranklin.Base.Words.{fit, u32_mod, u128_mod, div_bounds, as_u64, mul_mono}
use native.Mathlib.Nat.{div-mul-le_self, lt-mul-div-succ, div-lt_iff_lt-mul, mul-add}
use pranklin.Types.Position.{Position}
use pranklin.Types.Market.{Market}
use pranklin.State.{State, get_position, get_market}
use pranklin.Position.{basis_points}
use pranklin.Risk.{is_under_margin, check_liquidation, equity_of}
use pranklin.Liquidation.Defs.{
  bounded_size, size_for_equity, calculate_partial_liquidation_size, LiquidationEngine, Fees,
  fees_for, reduced_position, should_liquidate, position_margin_ratio,
}

-- The bounded size is at most the position, at least a tenth of it, and leaves nothing or at least
-- the least order size.
bounded_size-bounds :
    (p : Position) (market : Market) (raw : ℕ)
    → let size = bounded_size p market raw in
      (size ≤ p.size)
      × (p.size / 10 ≤ size)
      × ((size ≡ p.size) ⊎ (market.min_order_size ≤ p.size - size))
unfolding bounded_size
bounded_size-bounds p market raw = (ground arith, ground arith, ground arith)

size_for_equity-bounds :
    (p : Position) (mark_price size value equity : ℕ) (market : Market)
    → size_for_equity p mark_price market value equity ≡ ok size
    → (size ≡ 0)
      ⊎ ((size ≤ p.size)
          × (p.size / 10 ≤ size)
          × ((size ≡ p.size) ⊎ (market.min_order_size ≤ p.size - size)))
unfolding size_for_equity fit
size_for_equity-bounds p mark_price size value equity market e =
    let required = value * ((market.maintenance_margin_bps + 200) % u32_mod) / basis_points in
    ground (
      arith,
      bounded_size-bounds p market (
          as_u64 (
            (required - equity)
            * basis_points
            / (mark_price * (basis_points + market.liquidation_fee_bps)))),
    )

-- The size of a partial liquidation is 0 or within bounds: at most the position, at least a tenth of
-- it, and what it leaves is nothing or at least the least order size.
pub partial_liquidation-bounds :
    (p : Position) (mark_price size : ℕ) (market : Market)
    → calculate_partial_liquidation_size p mark_price market ≡ ok size
    → (size ≡ 0)
      ⊎ ((size ≤ p.size)
          × (p.size / 10 ≤ size)
          × ((size ≡ p.size) ⊎ (market.min_order_size ≤ p.size - size)))
unfolding calculate_partial_liquidation_size fit
partial_liquidation-bounds p mark_price size market e =
    elim (Result-cases (equity_of p mark_price)) [
      | inl (x, failed) ↦ ground arith
      | inr (equity, worth) ↦
          ground
            (arith, size_for_equity-bounds p mark_price size (p.size * mark_price) equity market)
    ]

-- A ratio below the maintenance margin, from the test with the margin on the value.
ratio_below :
    (equity value bps : ℕ) → 0 < value → equity < value * bps / 10000 → equity * 10000 / value < bps
ratio_below equity value bps pos h = (div-lt_iff_lt-mul pos).1 (omega arith)

-- A position that the risk engine's test reports is one that the liquidation engine's test reports,
-- when the maintenance margin is a u32 and the equity in basis points fits u128.
pub check_liquidation-should_liquidate :
    (s : State) (trader market_id mark_price : ℕ) (p : Position) (market : Market) {equity : ℕ}
    → get_market s market_id ≡ some market
    → get_position s trader market_id ≡ some p
    → equity_of p mark_price ≡ ok equity
    → equity * basis_points < u128_mod
    → market.maintenance_margin_bps < u32_mod
    → check_liquidation s trader market_id mark_price ≡ ok true
    → should_liquidate s trader market_id mark_price market ≡ ok true
unfolding check_liquidation should_liquidate fit is_under_margin position_margin_ratio
check_liquidation-should_liquidate s trader market_id mark_price p market {equity} known held worth
      fits small e =
    ground (arith, ratio_below equity (p.size * mark_price) market.maintenance_margin_bps)

-- Two parts of an amount, each rounded down, make up the amount but for one unit.
split_parts :
    (fee l i : ℕ)
    → l + i ≡ 10000
    → (fee * l / 10000 + fee * i / 10000 ≤ fee) × (fee ≤ fee * l / 10000 + fee * i / 10000 + 1)
split_parts fee l i h =
    let whole : fee * l + fee * i ≡ fee * 10000 = sym (mul-add fee l i) ∙ ap (λ x. fee * x) h in
    (omega (arith, whole), omega (arith, whole))

-- With a split of 10000 basis points in all, the reward and the contribution are together at most
-- the fee, and at most one unit below it.
pub fees_for-split :
    (e : LiquidationEngine) (market : Market) (size price : ℕ) {f : Fees}
    → e.liquidator_bps + e.insurance_bps ≡ basis_points
    → fees_for e market size price ≡ ok f
    → (f.reward + f.contribution ≤ f.fee) × (f.fee ≤ f.reward + f.contribution + 1)
unfolding fees_for fit
fees_for-split e market size price {f} split h = ground (
  arith,
  split_parts (size * price * market.liquidation_fee_bps / basis_points) e.liquidator_bps
      e.insurance_bps split,
)

-- The quotient is the released margin.
released_share :
    (m s p : ℕ)
    → 0 < p
    → s < p
    → let r = m * s / p in (r ≤ m) × (r * p ≤ m * s) × (m * s < (r + 1) * p)
released_share m s p pos less = (
  (div_bounds (m * s) p 0 m pos (omega arith) (omega (arith, mul_mono s p m (omega arith)))).1,
  div-mul-le_self (m * s) p,
  omega (arith, lt-mul-div-succ (m * s) {b = p} pos),
)

-- A reduction by less than the size of a position takes that size, and the part of the margin in
-- proportion to it, rounded down.
pub reduced_position-share :
    (p q : Position) (size : ℕ)
    → 0 < p.size
    → size < p.size
    → reduced_position p size ≡ ok q
    → (q.size + size ≡ p.size)
      × (q.margin ≤ p.margin)
      × ((p.margin - q.margin) * p.size ≤ p.margin * size)
      × (p.margin * size < (p.margin - q.margin + 1) * p.size)
unfolding reduced_position fit
reduced_position-share p q size pos less e =
    let share = released_share p.margin size p.size pos less in
    (ground (arith, share), ground (arith, share), ground (arith, share), ground (arith, share))
