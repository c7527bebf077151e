-- ===== src/Tests/Engines.antt =====
-- The storage, prices, funding and liquidations at concrete values.
use pranklin.Base.{ℕ, ◌≡◌, refl, true, none, some, ok, arith, number_key}
use pranklin.Base.Int.{pos, ◌-ℤ◌}
use pranklin.Base.Words.{fit}
use pranklin.Storage.{Store, commit, get, set, delete, fresh, scan_back, get_value_option}
use pranklin.Types.Position.{Position}
use pranklin.Types.Market.{normalize_price}
use pranklin.State.{
  init, get_asset, set_asset, get_balance, set_balance, get_position, set_position, delete_position,
  update_position_index, remove_from_position_index, get_market, set_market,
}
use pranklin.Position.{calculate_pnl}
use pranklin.Risk.{check_liquidation, is_under_margin, equity_of}
use pranklin.Funding.Defs.{
  calculate_funding_rate, calculate_funding_payment, scaled_rate, premium_bps, wrap_i128, fit_i128,
}
use pranklin.Liquidation.Defs.{
  Fees, default_engine, calculate_partial_liquidation_size, size_for_equity, bounded_size,
  should_liquidate, fees_for, reduced_position,
}
use pranklin.Liquidation.Sizes.{check_liquidation-should_liquidate}
use pranklin.Tests.Samples.{sample_market, long_ten, holding}

-- A store where 8 was committed under the key 1 at version 3, and 9 is pending.
abbrev committed : Store ℕ ℕ
committed = commit 3 (set 1 8 fresh)

uncovered : get (delete 1 (set 1 9 committed)) 1 5 ≡ some 8
unfolding get set delete fresh scan_back get_value_option commit
uncovered = refl

nothing_pending : committed.pending 1 ≡ none
unfolding commit
nothing_pending = refl

last_at_3 : committed.latest 1 ≡ some 3
unfolding commit set
last_at_3 = refl

-- A mark price below half a tick is normalized to 0.
rounds_to_zero : normalize_price sample_market 4 ≡ 0
unfolding normalize_price
rounds_to_zero = refl

half_interval : calculate_funding_rate 100 101 100 1800 3600 ≡ ok (pos 50)
unfolding calculate_funding_rate scaled_rate premium_bps
half_interval = refl

long_pays : calculate_funding_payment 1000 true (pos 10) (pos 60) ≡ ok (5, true)
unfolding calculate_funding_payment wrap_i128 fit_i128 ◌-ℤ◌
long_pays = refl

partial_size : calculate_partial_liquidation_size long_ten 93 sample_market ≡ ok 1
unfolding calculate_partial_liquidation_size size_for_equity bounded_size equity_of calculate_pnl
    fit
partial_size = refl

market_known : get_market holding 0 ≡ some sample_market
unfolding get set delete fresh scan_back get_value_option init get_asset set_asset get_balance
    set_balance get_position set_position delete_position update_position_index
    remove_from_position_index get_market set_market
market_known = refl

held : get_position holding 2 0 ≡ some long_ten
unfolding get set delete fresh scan_back get_value_option init get_asset set_asset get_balance
    set_balance get_position set_position delete_position update_position_index
    remove_from_position_index get_market set_market
held = refl

equity_ten : equity_of long_ten 91 ≡ ok 10
unfolding equity_of calculate_pnl fit
equity_ten = refl

reported : check_liquidation holding 2 0 91 ≡ ok true
unfolding check_liquidation is_under_margin equity_of calculate_pnl fit get set delete fresh
    scan_back get_value_option init get_asset set_asset get_balance set_balance get_position
    set_position delete_position update_position_index remove_from_position_index get_market
    set_market
reported = refl

check_liquidation-should_liquidate_example : should_liquidate holding 2 0 91 sample_market ≡ ok true
check_liquidation-should_liquidate_example =
    check_liquidation-should_liquidate holding 2 0 91 long_ten sample_market market_known held
      equity_ten (omega arith) (omega arith) reported

abbrev nine_of_fee : Fees
nine_of_fee = record { fee = 9; reward = 4; contribution = 4 }

splits : fees_for default_engine sample_market 10 91 ≡ ok nine_of_fee
unfolding fees_for fit
splits = refl

abbrev long_six : Position
long_six = record { size = 6; entry_price = 100; is_long = true; margin = 60; funding_index = 0 }

reduces : reduced_position long_ten 4 ≡ ok long_six
unfolding reduced_position fit
reduces = refl
