-- ===== src/Tests/Liquidations.antt =====
-- A liquidation of the long position of the trader 2, by the trader 1.
use pranklin.Base.{◌≡◌, refl, true, some, ok}
use pranklin.Base.Words.{fit}
use pranklin.Storage.{get, set, delete, fresh, scan_back, get_value_option}
use pranklin.Types.Position.{Position}
use pranklin.Types.Market.{normalize_price}
use pranklin.State.{
  init, get_asset, set_asset, get_balance, set_balance, get_position, set_position, delete_position,
  update_position_index, remove_from_position_index, get_market, set_market,
  get_active_orders_by_market,
}
use pranklin.Position.{calculate_pnl}
use pranklin.Risk.{equity_of}
use pranklin.Orderbook.Manager.{new}
use pranklin.Liquidation.Defs.{
  InsuranceFund, default_engine, get_insurance_fund, size_for_equity, bounded_size,
  calculate_partial_liquidation_size, position_margin_ratio, should_liquidate, fees_for, draw_fund,
  contribute_fund, reduced_position,
}
use pranklin.Liquidation.Engine.{
  Venue, LiquidationResult, cancel_orders, cancel_trader_orders, use_fund, reduce_or_close, credit,
  add_to_fund, liquidate_position, liquidate_due, liquidate_with_incentive,
}
use pranklin.Tests.Samples.{open_market}

-- Close to bankruptcy at 910: an equity of 100, and a fund of 500.
abbrev pub large : Position
large = record {
  size = 1000;
  entry_price = 1000;
  is_long = true;
  margin = 90100;
  funding_index = 0;
}

abbrev pub fund : InsuranceFund
fund = record { balance = 500; total_contributions = 500; total_payouts = 0 }

abbrev pub venue : Venue
venue = record {
  engine = record default_engine { insurance_funds = λ m. some fund };
  state = set_position 2 0 large open_market;
  orderbook = new;
}

abbrev after : Venue
after = (liquidate_with_incentive 2 0 910 1 venue).1

abbrev pub report : LiquidationResult
report = record {
  trader = 2;
  market_id = 0;
  liquidated_size = 100;
  liquidation_price = 910;
  liquidation_fee = 910;
  remaining_equity = 0;
  liquidator = some 1;
  liquidator_reward = 455;
  insurance_fund_contribution = 455;
  insurance_fund_usage = 500;
}

liquidates : liquidate_with_incentive 2 0 910 1 venue ≡ (ok (some report), after)
unfolding liquidate_with_incentive liquidate_due liquidate_position cancel_orders
    cancel_trader_orders use_fund reduce_or_close credit add_to_fund size_for_equity bounded_size
    calculate_partial_liquidation_size position_margin_ratio should_liquidate fees_for draw_fund
    contribute_fund reduced_position get_insurance_fund equity_of calculate_pnl fit normalize_price
    new get_active_orders_by_market get set delete fresh scan_back get_value_option init get_asset
    set_asset get_balance set_balance get_position set_position delete_position
    update_position_index remove_from_position_index get_market set_market
liquidates = refl
