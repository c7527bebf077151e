-- ===== src/Liquidation/Engine.antt =====
-- The operations of `LiquidationEngine` that change the state: crates/engine/src/liquidation.rs.
use pranklin.Base.{
  ℕ, ◌-◌, Bool, true, false, ◌&&◌, Option, none, some, List, [], ◌∷◌, ltb, leb, ◌==◌, if◌then◌else◌,
  update, number_key, Result, ok, err, Method, ◌>>=◌, ◌>>◌, pure, lift, require, ok_or,
  market_not_found, position_not_found, other, not,
}
use pranklin.Base.Words.{checked_add}
use pranklin.Types.Order.{OrderStatus, is_active}
use pranklin.Types.Position.{Position}
use pranklin.Types.Market.{Market, normalize_price}
use pranklin.State.{
  State, get_market, get_order, set_order, get_position, set_position, delete_position, get_balance,
  set_balance, get_active_orders_by_market, remove_active_order,
}
use pranklin.Orderbook.Manager.{OrderbookManager, remove_order}
use pranklin.Risk.{equity_of}
use pranklin.Liquidation.Defs.{
  InsuranceFund, LiquidationEngine, get_insurance_fund, calculate_partial_liquidation_size,
  should_liquidate, fees_for, draw_fund, contribute_fund, reduced_position,
}

-- What a liquidation is handed, and may change.
pub record Venue : Type 0 where
  pub engine : LiquidationEngine
  pub state : State
  pub orderbook : OrderbookManager

pub record LiquidationResult : Type 0 where
  pub trader : ℕ
  pub market_id : ℕ
  pub liquidated_size : ℕ
  pub liquidation_price : ℕ
  pub liquidation_fee : ℕ
  pub remaining_equity : ℕ
  pub liquidator : Option ℕ
  pub liquidator_reward : ℕ
  pub insurance_fund_contribution : ℕ
  pub insurance_fund_usage : ℕ

-- One order of the loop of `cancel_trader_orders`: whether it is cancelled, and the new state.
unfoldable pub cancel_if_own : ℕ → ℕ → ℕ → Venue → Bool × Venue
cancel_if_own trader market_id order_id v = elim (get_order v.state order_id) [
  | none ↦ (false, v)
  | some o ↦
      if o.owner == trader && is_active o.status
      then (
        true,
        record v {
          orderbook = remove_order order_id o v.orderbook;
          state =
              remove_active_order market_id order_id
                (set_order order_id (record o { status = OrderStatus.cancelled }) v.state);
        },
      )
      else (false, v)
]

unfoldable pub cancel_orders : ℕ → ℕ → List ℕ → Venue → List ℕ × Venue
cancel_orders trader market_id [] v = ([], v)
cancel_orders trader market_id (i ∷ ids) v =
    let (done, v') = cancel_if_own trader market_id i v in
    let (cancelled, v'') = cancel_orders trader market_id ids v' in
    (if done then i ∷ cancelled else cancelled, v'')

unfoldable pub cancel_trader_orders : ℕ → ℕ → Venue → List ℕ × Venue
unfolding cancel_orders cancel_if_own
cancel_trader_orders trader market_id v =
    cancel_orders trader market_id (get_active_orders_by_market v.state market_id) v

abbrev pub on_state : (State → State) → Method Venue (Unit {0})
on_state f v = (ok tt, record v { state = f v.state })

abbrev pub set_fund : ℕ → InsuranceFund → Venue → Venue
set_fund market_id f v = record v {
  engine = record v.engine { insurance_funds = update v.engine.insurance_funds market_id (some f) };
}

-- `entry(market_id).or_default()` and the payment, if the equity does not cover the fee.
unfoldable pub use_fund : ℕ → ℕ → ℕ → Method Venue ℕ
use_fund market_id equity fee v =
    if ltb equity fee
    then (let (covered, f) = draw_fund (fee - equity) (get_insurance_fund v.engine market_id) in
        (ok covered, set_fund market_id f v))
    else (ok 0, v)

-- The position is closed, or reduced with its margin in proportion.
unfoldable pub reduce_or_close : ℕ → ℕ → Position → ℕ → Method Venue (Unit {0})
reduce_or_close trader market_id p size v =
    if leb p.size size
    then on_state (delete_position trader market_id) v
    else if p.size == 0
    then (err (other "Cannot partially liquidate zero-sized position"), v)
    else elim (reduced_position p size) [
      | err e ↦ (err e, v)
      | ok q ↦ on_state (set_position trader market_id q) v
    ]

unfoldable pub credit : ℕ → ℕ → ℕ → Method Venue (Unit {0})
credit address asset_id amount v =
    elim (checked_add (get_balance v.state address asset_id) amount) [
      | err e ↦ (err e, v)
      | ok new ↦ on_state (set_balance address asset_id new) v
    ]

unfoldable pub add_to_fund : ℕ → ℕ → Method Venue (Unit {0})
add_to_fund market_id contribution v =
    let (r, f) = contribute_fund contribution (get_insurance_fund v.engine market_id) in
    (r, set_fund market_id f v)

abbrev pub ask : {A : Type 0} → (Venue → Result A) → Method Venue A
ask f v = (f v, v)

abbrev pub size_to_liquidate : ℕ → Market → Position → Venue → Result ℕ
size_to_liquidate price market p v =
    if v.engine.enable_partial_liquidations
    then calculate_partial_liquidation_size p price market
    else ok p.size

abbrev pub credit_rest : ℕ → ℕ → ℕ → Method Venue (Unit {0})
credit_rest trader asset_id amount v =
    if ltb 0 amount then credit trader asset_id amount v else (ok tt, v)

-- The steps after the decision to liquidate a position at the normalized price.
unfoldable pub liquidate_position :
    ℕ → ℕ → ℕ → ℕ → Market → Position → Method Venue (Option LiquidationResult)
unfolding use_fund reduce_or_close credit add_to_fund
liquidate_position trader market_id price liquidator market p = do
  size ← ask (size_to_liquidate price market p)
  fees ← ask (λ v. fees_for v.engine market size price)
  equity ← lift (equity_of p price)
  used ← use_fund market_id equity fees.fee
  reduce_or_close trader market_id p size
  credit liquidator market.quote_asset_id fees.reward
  add_to_fund market_id fees.contribution
  credit_rest trader market.quote_asset_id (equity - fees.fee)
  pure (
      some (record {
        trader = trader;
        market_id = market_id;
        liquidated_size = size;
        liquidation_price = price;
        liquidation_fee = fees.fee;
        remaining_equity = equity - fees.fee;
        liquidator = some liquidator;
        liquidator_reward = fees.reward;
        insurance_fund_contribution = fees.contribution;
        insurance_fund_usage = used;
      }))

-- The orders are cancelled first, then the position is read again.
unfoldable pub liquidate_due : ℕ → ℕ → ℕ → ℕ → Market → Method Venue (Option LiquidationResult)
unfolding liquidate_position
liquidate_due trader market_id price liquidator market v =
    let (ids, v') = cancel_trader_orders trader market_id v in
    (do
      p ← ask (λ v. ok_or (get_position v.state trader market_id) position_not_found)
      liquidate_position trader market_id price liquidator market p)
      v'

unfoldable pub liquidate_with_incentive : ℕ → ℕ → ℕ → ℕ → Method Venue (Option LiquidationResult)
unfolding liquidate_due
liquidate_with_incentive trader market_id mark_price liquidator = do
  require (not (mark_price == 0)) (other "Invalid mark price: cannot be zero")
  market ← ask (λ v. ok_or (get_market v.state market_id) market_not_found)
  let price = normalize_price market mark_price
  due ← ask (λ v. should_liquidate v.state trader market_id price market)
  if due then liquidate_due trader market_id price liquidator market else pure none

-- `execute_adl`
unfoldable pub execute_adl : ℕ → ℕ → ℕ → Method State (Unit {0})
execute_adl trader market_id size s = elim (get_position s trader market_id) [
  | none ↦ (err position_not_found, s)
  | some p ↦
      if leb p.size size
      then (ok tt, delete_position trader market_id s)
      else if p.size == 0
      then (err (other "Cannot partially ADL zero-sized position"), s)
      else elim (reduced_position p size) [
        | err e ↦ (err e, s)
        | ok q ↦ (ok tt, set_position trader market_id q s)
      ]
]
