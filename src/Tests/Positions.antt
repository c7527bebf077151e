-- ===== src/Tests/Positions.antt =====
-- Positions: the theorems at concrete trades.
use pranklin.Base.{◌≡◌, refl, true, false, none, some, ok, arith}
use pranklin.Base.Int.{◌+ℤ◌}
use pranklin.Base.Words.{fit}
use pranklin.Storage.{commit, get, set, delete, fresh, scan_back, get_value_option}
use pranklin.Types.Position.{Position}
use pranklin.State.{
  State, begin_block, commit_all, init, get_asset, set_asset, get_balance, set_balance,
  get_position, set_position, delete_position, update_position_index, remove_from_position_index,
  get_market, set_market,
}
use pranklin.State.Laws.{committed_position, get_position-set_position}
use pranklin.Position.{
  update_position, calculate_pnl, change_position, shrink_position, increase_position,
}
use pranklin.Position.Exposure.{
  exposure, signed_size, update_position-exposure, close_position_committed,
}
use pranklin.Tests.Samples.{long_ten, holding, open_market}

abbrev after_sale : State
after_sale = (update_position 2 0 4 120 false 1000 holding).1

sale_runs : update_position 2 0 4 120 false 1000 holding ≡ (ok tt, after_sale)
unfolding update_position change_position shrink_position fit get set delete fresh scan_back
    get_value_option init get_asset set_asset get_balance set_balance get_position set_position
    delete_position update_position_index remove_from_position_index get_market set_market
sale_runs = refl

holding_new : committed_position holding 2 0 ≡ none
unfolding get set delete fresh scan_back get_value_option init get_asset set_asset get_balance
    set_balance get_position set_position delete_position update_position_index
    remove_from_position_index get_market set_market
holding_new = refl

held_ten : get_position holding 2 0 ≡ some long_ten
held_ten = get_position-set_position 2 0 2 0 long_ten open_market

update_position-exposure_example :
    exposure (get_position after_sale 2 0)
    ≡ exposure (get_position holding 2 0) +ℤ signed_size 4 false
update_position-exposure_example =
    update_position-exposure 2 0 4 120 false 1000 holding (rw held_ten (omega arith)) holding_new
      sale_runs

-- The block with the position is committed, and another one begins.
abbrev next_block : State
unfolding begin_block commit_all
next_block = begin_block 1 (commit_all holding)

committed_ten : committed_position next_block 2 0 ≡ some long_ten
unfolding next_block begin_block commit_all commit get set delete fresh scan_back get_value_option
    init get_asset set_asset get_balance set_balance get_position set_position delete_position
    update_position_index remove_from_position_index get_market set_market
committed_ten = refl

still_ten : get_position next_block 2 0 ≡ some long_ten
unfolding next_block begin_block commit_all commit get set delete fresh scan_back get_value_option
    init get_asset set_asset get_balance set_balance get_position set_position delete_position
    update_position_index remove_from_position_index get_market set_market
still_ten = refl

close_position_committed_example :
    ((update_position 2 0 10 120 false 1000 next_block).0 ≡ ok tt)
    × (get_position (update_position 2 0 10 120 false 1000 next_block).1 2 0 ≡ some long_ten)
close_position_committed_example =
    close_position_committed 2 0 120 false 1000 long_ten long_ten next_block committed_ten still_ten
      refl

-- A loss of 10 for each unit.
pnl_of_long : calculate_pnl long_ten 90 ≡ ok (100, false)
unfolding calculate_pnl fit
pnl_of_long = refl

abbrev long_six : Position
long_six = record { size = 6; entry_price = 100; is_long = true; margin = 60; funding_index = 0 }

shrinks : shrink_position long_ten 4 ≡ ok long_six
unfolding shrink_position fit
shrinks = refl

abbrev long_twenty : Position
long_twenty = record {
  size = 20;
  entry_price = 110;
  is_long = true;
  margin = 220;
  funding_index = 0;
}

increases : increase_position long_ten 10 120 1000 ≡ ok long_twenty
unfolding increase_position fit
increases = refl
