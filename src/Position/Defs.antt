-- ===== src/Position/Defs.antt =====
-- `PositionManager` of crates/engine/src/position.rs. A u128 operation that the code checks goes
-- through `fit`; `as u64` keeps the low 64 bits.
use pranklin.Base.{
  ℕ, ◌-◌, ◌/◌, Bool, true, false, not, Option, none, some, ltb, leb, ◌==◌, if◌then◌else◌, Result,
  ok, err, other, Method,
}
use pranklin.Base.Try.{◌>>=◌}
use pranklin.Base.Words.{as_u64, checked_add, checked_mul, checked_sub}
use pranklin.Types.Position.{Position}
use pranklin.State.{State, get_position, set_position, delete_position}

-- `BASIS_POINTS` of crates/engine/src/constants.rs.
abbrev pub basis_points : ℕ
basis_points = 10000

abbrev pub same_side : Bool → Bool → Bool
same_side true b = b
same_side false b = not b

unfoldable pub increase_position : Position → ℕ → ℕ → ℕ → Result Position
increase_position p size price initial_margin_bps = do
  old_value ← checked_mul p.size p.entry_price
  new_value ← checked_mul size price
  total_value ← checked_add old_value new_value
  total_size ← checked_add p.size size
  if ltb 0 total_size
      then (do
        scaled ← checked_mul new_value initial_margin_bps
        margin ← checked_add p.margin (scaled / basis_points)
        ok (record p {
          entry_price = as_u64 (total_value / total_size);
          size = as_u64 total_size;
          margin = margin;
        }))
      else ok p

unfoldable pub calculate_initial_margin : ℕ → ℕ → ℕ → Result ℕ
calculate_initial_margin size price initial_margin_bps = do
  position_value ← checked_mul size price
  scaled ← checked_mul position_value initial_margin_bps
  ok (scaled / basis_points)

-- The partial reduction of a position.
unfoldable pub shrink_position : Position → ℕ → Result Position
shrink_position p size =
    if p.size == 0 then err (other "Cannot reduce zero-sized position") else (do
      scaled ← checked_mul size 10000
      released ← checked_mul p.margin (scaled / p.size)
      ok (record p { size = p.size - size; margin = p.margin - released / 10000 }))

-- The branches of `update_position` for an existing position; `none` says that it is closed.
unfoldable pub change_position : Position → ℕ → ℕ → Bool → ℕ → Result (Option Position)
change_position p size price is_buy initial_margin_bps =
    if same_side p.is_long is_buy
    then (do q ← increase_position p size price initial_margin_bps; ok (some q))
    else if leb p.size size
    then (let remaining = size - p.size in
        if ltb 0 remaining
        then (do
          new_margin ← calculate_initial_margin remaining price initial_margin_bps
          ok (
              some (record p {
                size = remaining;
                entry_price = price;
                is_long = is_buy;
                margin = new_margin;
              })))
        else ok none)
    else (do q ← shrink_position p size; ok (some q))

unfoldable pub open_position : ℕ → ℕ → Bool → ℕ → Result Position
open_position size price is_buy initial_margin_bps = do
  margin ← calculate_initial_margin size price initial_margin_bps
  ok (record {
    size = size;
    entry_price = price;
    is_long = is_buy;
    margin = margin;
    funding_index = 0;
  })

-- What the trade makes of the position that is there, if one is.
unfoldable pub traded_position : Option Position → ℕ → ℕ → Bool → ℕ → Result (Option Position)
traded_position (some p) size price is_buy initial_margin_bps =
    change_position p size price is_buy initial_margin_bps
traded_position none size price is_buy initial_margin_bps = do
  p ← open_position size price is_buy initial_margin_bps
  ok (some p)

unfoldable pub store_position : ℕ → ℕ → Result (Option Position) → Method State (Unit {0})
store_position trader market_id (err e) s = (err e, s)
store_position trader market_id (ok none) s = (ok tt, delete_position trader market_id s)
store_position trader market_id (ok (some p)) s = (ok tt, set_position trader market_id p s)

unfoldable pub update_position : ℕ → ℕ → ℕ → ℕ → Bool → ℕ → Method State (Unit {0})
unfolding traded_position store_position
update_position trader market_id size price is_buy initial_margin_bps s =
    store_position trader market_id
      (traded_position (get_position s trader market_id) size price is_buy initial_margin_bps) s

-- The amount, and whether it is a profit.
unfoldable pub calculate_pnl : Position → ℕ → Result (ℕ × Bool)
calculate_pnl p mark_price = if p.size == 0 then ok (0, true) else (do
  entry_value ← checked_mul p.size p.entry_price
  mark_value ← checked_mul p.size mark_price
  ok (
      if p.is_long
      then (if leb entry_value mark_value
          then (mark_value - entry_value, true)
          else (entry_value - mark_value, false))
      else if leb mark_value entry_value
      then (entry_value - mark_value, true)
      else (mark_value - entry_value, false)))

unfoldable pub calculate_liquidation_price : Position → ℕ → Result ℕ
calculate_liquidation_price p maintenance_margin_bps = if p.size == 0 then ok 0 else (do
  scaled ← checked_mul p.entry_price maintenance_margin_bps
  let margin_factor = scaled / basis_points
  liq_price ←
      (if p.is_long
        then checked_sub p.entry_price margin_factor
        else checked_add p.entry_price margin_factor)
  ok (as_u64 liq_price))
