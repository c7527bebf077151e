-- ===== src/Risk/Defs.antt =====
-- `RiskEngine` of crates/engine/src/risk.rs. The locked margin is 0 in the code as well.
use pranklin.Base.{
  ℕ, ◌-◌, ◌/◌, Bool, false, not, ◌&&◌, Option, none, some, ltb, leb, ◌==◌, if◌then◌else◌, min,
  Result, ok, err, ok_or, ensure, market_not_found, insufficient_balance, insufficient_margin,
  leverage_too_high, reduce_only_would_increase,
}
use pranklin.Base.Try.{◌>>=◌, ◌>>◌}
use pranklin.Base.Words.{checked_add, checked_mul, u32_max, u32_mod, u128_max}
use pranklin.Types.Position.{Position}
use pranklin.Types.Market.{Market}
use pranklin.Types.Tx.{PlaceOrderTx}
use pranklin.State.{State, get_balance, get_position, get_market}
use pranklin.Position.{basis_points, same_side, calculate_pnl}

pub data MarginMode : Type 0 where
  isolated cross : MarginMode

unfoldable pub calculate_total_locked_margin : State → ℕ → ℕ → ℕ
calculate_total_locked_margin s trader asset_id = 0

unfoldable pub check_withdraw_allowed : State → ℕ → ℕ → ℕ → Result (Unit {0})
unfolding calculate_total_locked_margin
check_withdraw_allowed s trader asset_id amount =
    let balance = get_balance s trader asset_id in
    let available = balance - calculate_total_locked_margin s trader asset_id in
    ensure (not (ltb balance amount)) insufficient_balance
    >> ensure (not (ltb available amount)) insufficient_margin

-- The margin that the position in the market keeps locked beside the order.
unfoldable pub existing_margin : Option Position → Bool → ℕ → Result ℕ
existing_margin none is_buy size = ok 0
existing_margin (some p) is_buy size =
    if same_side is_buy p.is_long then ok p.margin else if p.size == 0 then ok 0 else (do
      scaled ← checked_mul (min size p.size) basis_points
      freed ← checked_mul p.margin (scaled / p.size)
      ok (p.margin - freed / basis_points))

unfoldable pub check_leverage : ℕ → ℕ → Market → PlaceOrderTx → Result (Unit {0})
check_leverage order_value required_margin market order =
    if not order.reduce_only && ltb 0 order.price
    then ensure
        (leb (if ltb 0 required_margin then order_value / required_margin else u128_max)
          market.max_leverage)
        leverage_too_high
    else ok tt

unfoldable pub check_reduce_only : Option Position → PlaceOrderTx → Result (Unit {0})
check_reduce_only held order =
    if order.reduce_only
    then elim held [
      | none ↦ err reduce_only_would_increase
      | some p ↦
          ensure (not (same_side order.is_buy p.is_long)) reduce_only_would_increase
          >> ensure (leb order.size p.size) reduce_only_would_increase
    ]
    else ok tt

unfoldable pub check_order_allowed : State → ℕ → PlaceOrderTx → Result (Unit {0})
unfolding existing_margin check_leverage check_reduce_only
check_order_allowed s trader order = do
  market ← ok_or (get_market s order.market_id) market_not_found
  order_value ← checked_mul order.size order.price
  scaled ← checked_mul order_value market.initial_margin_bps
  let required_margin = scaled / basis_points
  let held = get_position s trader order.market_id
  locked ← existing_margin held order.is_buy order.size
  let available_margin = get_balance s trader market.quote_asset_id - locked
  ensure (leb required_margin available_margin) insufficient_margin
  check_leverage order_value required_margin market order
  check_reduce_only held order

-- Margin with the profit, or less the loss but not below 0.
unfoldable pub equity_of : Position → ℕ → Result ℕ
equity_of p mark_price = do
  pnl ← calculate_pnl p mark_price
  (if pnl.1 then checked_add p.margin pnl.0 else ok (p.margin - pnl.0))

-- The test of `check_liquidation` on a position that is not empty.
unfoldable pub is_under_margin : Position → Market → ℕ → Result Bool
unfolding equity_of
is_under_margin p market mark_price = do
  position_value ← checked_mul p.size mark_price
  scaled ← checked_mul position_value market.maintenance_margin_bps
  equity ← equity_of p mark_price
  ok (ltb equity (scaled / basis_points))

unfoldable pub check_liquidation : State → ℕ → ℕ → ℕ → Result Bool
unfolding is_under_margin
check_liquidation s trader market_id mark_price = elim (get_position s trader market_id) [
  | none ↦ ok false
  | some p ↦ if p.size == 0 then ok false else (do
    market ← ok_or (get_market s market_id) market_not_found
    is_under_margin p market mark_price)
]

-- `try_into().unwrap_or(u32::MAX)`
abbrev pub clamp_u32 : ℕ → ℕ
clamp_u32 n = if ltb n u32_mod then n else u32_max

unfoldable pub calculate_margin_ratio : ℕ → ℕ → ℕ → Result ℕ
calculate_margin_ratio position_margin position_size mark_price =
    if position_size == 0 then ok 0 else (do
      position_value ← checked_mul position_size mark_price
      if position_value == 0 then ok 0 else (do
        scaled ← checked_mul position_margin basis_points
        ok (clamp_u32 (scaled / position_value))))
