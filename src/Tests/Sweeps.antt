-- ===== src/Tests/Sweeps.antt =====
-- The index of risks of the large position, a batch that liquidates it, and a deleveraging.
use pranklin.Base.{
  ℕ, ◌+◌, ◌≤◌, ◌<◌, ◌≡◌, refl, some, none, ok, [], ◌∷◌, List, All, sum_by, how_many, length, arith,
  update, number_key,
}
use pranklin.Base.Words.{fit}
use pranklin.Base.Int.{◌*ℤ◌}
use pranklin.Storage.{get, set, delete, fresh, scan_back, get_value_option}
use pranklin.Types.Market.{normalize_price}
use pranklin.State.{
  get_all_positions_in_market, set_position, get_market, set_market, get_position,
  get_position_addresses, positions_of, set_asset, set_balance, init, update_position_index,
  get_active_orders_by_market, delete_position, remove_from_position_index, get_balance, get_asset,
}
use pranklin.Position.{calculate_pnl}
use pranklin.Risk.{equity_of}
use pranklin.Orderbook.Manager.{new}
use pranklin.Funding.Defs.{fit_i128}
use pranklin.Liquidation.Defs.{
  default_engine, get_insurance_fund, size_for_equity, bounded_size,
  calculate_partial_liquidation_size, position_margin_ratio, should_liquidate, fees_for, draw_fund,
  contribute_fund, reduced_position,
}
use pranklin.Liquidation.Engine.{
  Venue, cancel_orders, cancel_trader_orders, use_fund, reduce_or_close, credit, add_to_fund,
  liquidate_position, liquidate_due, liquidate_with_incentive, execute_adl,
}
use pranklin.Liquidation.Fund.{fund_balance}
use pranklin.Liquidation.RiskIndex.{
  PositionRisk, RiskIndex, create_position_risk, index_position, index_positions,
  rebuild_risk_index, get_at_risk_positions,
}
use pranklin.Liquidation.AtRisk.{is_for, is_due, rebuild-at_risk}
use pranklin.Liquidation.Batch.{
  liquidate_each, process_liquidation_batch, usage, contributed, process_liquidation_batch-fund,
}
use pranklin.Liquidation.Deleveraging.{
  leverage_of, make_candidate, find_candidates, find_adl_candidates, insert_by_score, sort_by_score,
  deleverage_size, size_for, deleverage, auto_deleverage,
}
use pranklin.Liquidation.Candidates.{has_not_lost, PositionFits}
use pranklin.Liquidation.Collected.{value_at, auto_deleverage-collected}
use pranklin.Tests.Liquidations.{venue, report}

-- The heap is visited as it was pushed.
abbrev as_pushed : List PositionRisk → List PositionRisk
as_pushed heap = heap

abbrev no_risks : RiskIndex
no_risks = λ _. none

abbrev index : RiskIndex
index = (rebuild_risk_index venue.state 0 910 no_risks).1

rebuilds : (rebuild_risk_index venue.state 0 910 no_risks).0 ≡ ok tt
unfolding rebuild_risk_index index_positions index_position create_position_risk
    position_margin_ratio equity_of calculate_pnl fit get_all_positions_in_market positions_of
    get_position_addresses get set delete fresh scan_back get_value_option init set_position
    update_position_index get_position set_market set_asset set_balance
rebuilds = refl

rebuild-at_risk_example :
    how_many (is_for 2) (get_at_risk_positions as_pushed index 0 500)
    ≡ how_many (is_due 2 500 910) (get_all_positions_in_market venue.state 0)
rebuild-at_risk_example =
    rebuild-at_risk as_pushed venue.state 0 910 2 500 no_risks (λ q heap. refl) rebuilds

abbrev at_risk : RiskIndex
at_risk = update no_risks 0 (
    some (
      record { trader = 2; market_id = 0; margin_ratio = 1; position_value = 910000; equity = 100 }
      ∷ []))

abbrev swept : Venue
swept = (process_liquidation_batch as_pushed at_risk 0 910 1 5 venue).1

sweeps : process_liquidation_batch as_pushed at_risk 0 910 1 5 venue ≡ (ok (report ∷ []), swept)
unfolding process_liquidation_batch get_at_risk_positions liquidate_each liquidate_with_incentive
    liquidate_due liquidate_position cancel_orders cancel_trader_orders use_fund reduce_or_close
    credit add_to_fund size_for_equity bounded_size calculate_partial_liquidation_size
    position_margin_ratio should_liquidate fees_for draw_fund contribute_fund reduced_position
    get_insurance_fund equity_of calculate_pnl fit normalize_price new get_active_orders_by_market
    get set delete fresh scan_back get_value_option init get_asset set_asset get_balance set_balance
    get_position set_position delete_position update_position_index remove_from_position_index
    get_market set_market
sweeps = refl

process_liquidation_batch-fund_example :
    (fund_balance swept 0 + sum_by usage (report ∷ [])
      ≡ fund_balance venue 0 + sum_by contributed (report ∷ []))
    × (length (report ∷ []) ≤ 5)
process_liquidation_batch-fund_example =
    process_liquidation_batch-fund as_pushed at_risk 0 910 1 5 venue swept (report ∷ [])
      (λ q heap. refl) refl sweeps

-- At 1100 the position has gained 100000, and 220000 are taken from it.
abbrev taken : List (ℕ × ℕ)
taken = (2, 200) ∷ []

fits : All (PositionFits 220000 1100) (get_all_positions_in_market venue.state 0)
unfolding get_all_positions_in_market positions_of get_position_addresses get set delete fresh
    scan_back get_value_option init set_position update_position_index get_position set_market
    set_asset set_balance
fits = (omega arith, tt)

deleverages : (auto_deleverage 0 220000 1100 default_engine venue.state).0 ≡ ok taken
unfolding auto_deleverage find_adl_candidates find_candidates make_candidate leverage_of fit_i128
    insert_by_score sort_by_score deleverage size_for deleverage_size execute_adl reduced_position
    equity_of calculate_pnl fit get_all_positions_in_market positions_of get_position_addresses get
    set delete fresh scan_back get_value_option init set_position update_position_index get_position
    set_market set_asset set_balance ◌*ℤ◌
deleverages = refl

auto_deleverage-collected_example :
    (sum_by (value_at 1100) taken ≤ 220000)
    × All
        (λ done.
          0 < how_many (has_not_lost 1100 done.0) (get_all_positions_in_market venue.state 0))
        taken
auto_deleverage-collected_example =
    auto_deleverage-collected 0 220000 1100 default_engine venue.state taken (omega arith) fits
      deleverages
