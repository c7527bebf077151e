-- ===== src/Liquidation/Defs.antt =====
-- The calculations of `LiquidationEngine` in crates/engine/src/liquidation.rs.
use pranklin.Base.{
  Method, ℕ, ◌+◌, ◌-◌, ◌*◌, ◌/◌, ◌%◌, Bool, true, false, ◌&&◌, Option, none, some, ltb, leb, ◌==◌,
  if◌then◌else◌, min, max, Result, ok, err, number_key,
}
use pranklin.Base.Try.{◌>>=◌}
use pranklin.Base.Words.{as_u64, checked_add, checked_mul, add_u128, u32_mod, u32_max}
use pranklin.Types.Position.{Position}
use pranklin.Types.Market.{Market}
use pranklin.State.{State, get_position}
use pranklin.Position.{basis_points}
use pranklin.Risk.{equity_of, clamp_u32}

pub record InsuranceFund : Type 0 where
  pub balance : ℕ
  pub total_contributions : ℕ
  pub total_payouts : ℕ

abbrev pub empty_fund : InsuranceFund
empty_fund = record { balance = 0; total_contributions = 0; total_payouts = 0 }

abbrev pub or_empty_fund : Option InsuranceFund → InsuranceFund
or_empty_fund none = empty_fund
or_empty_fund (some f) = f

-- The engine without its index of positions at risk.
pub record LiquidationEngine : Type 0 where
  pub insurance_funds : ℕ → Option InsuranceFund
  pub liquidator_bps : ℕ
  pub insurance_bps : ℕ
  pub min_insurance_ratio : ℕ
  pub enable_partial_liquidations : Bool
  pub adl_enabled : Bool

-- `LiquidationEngine::default`, with the constants of crates/engine/src/constants.rs.
abbrev pub default_engine : LiquidationEngine
default_engine = record {
  insurance_funds = λ _. none;
  liquidator_bps = 5000;
  insurance_bps = 5000;
  min_insurance_ratio = 100;
  enable_partial_liquidations = true;
  adl_enabled = true;
}

-- `set_fee_split`; `none` is the panic of its assertion. The sum is one of u32.
unfoldable pub set_fee_split : ℕ → ℕ → LiquidationEngine → Option LiquidationEngine
set_fee_split liquidator_bps insurance_bps e =
    if (liquidator_bps + insurance_bps) % u32_mod == basis_points
    then some (record e { liquidator_bps = liquidator_bps; insurance_bps = insurance_bps })
    else none

unfoldable pub get_insurance_fund : LiquidationEngine → ℕ → InsuranceFund
get_insurance_fund e market_id = or_empty_fund (e.insurance_funds market_id)

-- `unwrap_or(0)` on an overflow of the product.
unfoldable pub is_insurance_fund_healthy : LiquidationEngine → ℕ → ℕ → Bool
is_insurance_fund_healthy e market_id total_positions_value =
    let required : ℕ = elim (checked_mul total_positions_value e.min_insurance_ratio) [
      | ok n ↦ n
      | err x ↦ 0
    ] in
    leb (required / basis_points) (get_insurance_fund e market_id).balance

abbrev pub margin_buffer_bps : ℕ
margin_buffer_bps = 200

-- The size that is liquidated, given the deficit: at least a tenth of the position and the least
-- order size, at most the position, and no rest below the least order size.
unfoldable pub bounded_size : Position → Market → ℕ → ℕ
bounded_size p market raw =
    let size = min (max raw (max (p.size / 10) market.min_order_size)) p.size in
    if ltb size market.min_order_size && ltb market.min_order_size p.size
    then min market.min_order_size p.size
    else if ltb 0 (p.size - size) && ltb (p.size - size) market.min_order_size
    then p.size
    else size

-- The size that brings the equity back to the maintenance margin and the buffer.
unfoldable pub size_for_equity : Position → ℕ → Market → ℕ → ℕ → Result ℕ
size_for_equity p mark_price market position_value equity = do
  scaled ←
      checked_mul position_value ((market.maintenance_margin_bps + margin_buffer_bps) % u32_mod)
  let required_equity = scaled / basis_points
  if leb required_equity equity then ok 0 else (do
    deficit ← checked_mul (required_equity - equity) basis_points
    ok (
        bounded_size p market
          (as_u64 (deficit / (mark_price * (basis_points + market.liquidation_fee_bps))))))

unfoldable pub calculate_partial_liquidation_size : Position → ℕ → Market → Result ℕ
calculate_partial_liquidation_size p mark_price market =
    if mark_price == 0 then ok p.size else if p.size == 0 then ok 0 else (do
      position_value ← checked_mul p.size mark_price
      if position_value == 0 then ok 0 else (do
        equity ← equity_of p mark_price
        size_for_equity p mark_price market position_value equity))

-- `LiquidationEngine::calculate_margin_ratio`
unfoldable pub position_margin_ratio : Position → ℕ → Result ℕ
position_margin_ratio p mark_price = if p.size == 0 then ok u32_max else (do
  equity ← equity_of p mark_price
  position_value ← checked_mul p.size mark_price
  if position_value == 0
      then ok u32_max
      else (do scaled ← checked_mul equity basis_points; ok (clamp_u32 (scaled / position_value))))

unfoldable pub should_liquidate : State → ℕ → ℕ → ℕ → Market → Result Bool
should_liquidate s trader market_id mark_price market = elim (get_position s trader market_id) [
  | none ↦ ok false
  | some p ↦ if p.size == 0 then ok false else (do
    ratio ← position_margin_ratio p mark_price
    ok (ltb ratio market.maintenance_margin_bps))
]

-- The fee on the liquidated value, and the parts of the liquidator and the fund.
pub record Fees : Type 0 where
  pub fee : ℕ
  pub reward : ℕ
  pub contribution : ℕ

unfoldable pub fees_for : LiquidationEngine → Market → ℕ → ℕ → Result Fees
fees_for e market size price = do
  value ← checked_mul size price
  scaled ← checked_mul value market.liquidation_fee_bps
  let fee = scaled / basis_points
  reward ← checked_mul fee e.liquidator_bps
  contribution ← checked_mul fee e.insurance_bps
  ok (record {
    fee = fee;
    reward = reward / basis_points;
    contribution = contribution / basis_points;
  })

-- What the fund pays of a shortfall: all of it, or all that there is.
unfoldable pub draw_fund : ℕ → InsuranceFund → ℕ × InsuranceFund
draw_fund shortfall f =
    let covered = if leb shortfall f.balance then shortfall else f.balance in
    (
      covered,
      record f { balance = f.balance - covered; total_payouts = add_u128 f.total_payouts covered },
    )

-- The balance is written before the sum of the contributions is checked.
unfoldable pub contribute_fund : ℕ → Method InsuranceFund (Unit {0})
contribute_fund contribution f = elim (checked_add f.balance contribution) [
  | err e ↦ (err e, f)
  | ok balance ↦
      let raised = record f { balance = balance } in
      elim (checked_add f.total_contributions contribution) [
        | err e ↦ (err e, raised)
        | ok total ↦ (ok tt, record raised { total_contributions = total })
      ]
]

-- The position that a partial liquidation or deleveraging leaves.
unfoldable pub reduced_position : Position → ℕ → Result Position
reduced_position p size = do
  scaled ← checked_mul p.margin size
  ok (record p { size = p.size - size; margin = p.margin - scaled / p.size })
