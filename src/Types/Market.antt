-- ===== src/Types/Market.antt =====
-- `Market`, `FundingRate` and `Asset` of crates/types/src/state.rs.
use Prim.Native.String.{String}
use pranklin.Base.{ℕ, ◌*◌, ◌/◌, ◌%◌, Bool, true, not, ◌&&◌, ◌==◌, leb, if◌then◌else◌}
use pranklin.Base.Int.{ℤ, pos, ◌-ℤ◌}
use pranklin.Base.Words.{add_u64, u64_mod, u128_mod}

pub record Market : Type 0 where
  pub id : ℕ
  pub symbol : String
  pub base_asset_id : ℕ
  pub quote_asset_id : ℕ
  pub tick_size : ℕ
  pub price_decimals : ℕ
  pub size_decimals : ℕ
  pub min_order_size : ℕ
  pub max_order_size : ℕ
  pub max_leverage : ℕ
  pub maintenance_margin_bps : ℕ
  pub initial_margin_bps : ℕ
  pub liquidation_fee_bps : ℕ
  pub funding_interval : ℕ
  pub max_funding_rate_bps : ℕ

unfoldable pub normalize_price : Market → ℕ → ℕ
normalize_price m price =
    if m.tick_size == 0
    then price
    else (add_u64 price (m.tick_size / 2) / m.tick_size) * m.tick_size

-- `is_multiple_of` by a tick that is not zero.
unfoldable pub validate_price : Market → ℕ → Bool
validate_price m price = if m.tick_size == 0 then true else price % m.tick_size == 0

unfoldable pub price_to_tick : Market → ℕ → ℕ
price_to_tick m price = if m.tick_size == 0 then price else price / m.tick_size

unfoldable pub tick_to_price : Market → ℕ → ℕ
tick_to_price m tick = (tick * m.tick_size) % u64_mod

unfoldable pub validate_size : Market → ℕ → Bool
validate_size m size = leb m.min_order_size size && leb size m.max_order_size

unfoldable pub calculate_margin : Market → ℕ → ℕ → ℕ → ℕ
calculate_margin m size price leverage = if leverage == 0 then 0 else size * price / leverage

pub record FundingRate : Type 0 where
  pub rate : ℤ
  pub last_update : ℕ
  pub index : ℤ
  pub mark_price : ℕ
  pub oracle_price : ℕ

-- `FundingRate::default()`.
abbrev pub no_funding : FundingRate
no_funding = record {
  rate = pos 0;
  last_update = 0;
  index = pos 0;
  mark_price = 0;
  oracle_price = 0;
}

unfoldable pub premium : FundingRate → ℤ
premium f = pos f.mark_price -ℤ pos f.oracle_price

pub record Asset : Type 0 where
  pub id : ℕ
  pub symbol : String
  pub name : String
  pub decimals : ℕ
  pub is_collateral : Bool
  pub collateral_weight_bps : ℕ

unfoldable pub collateral_value : Asset → ℕ → ℕ
collateral_value a amount =
    if not a.is_collateral then 0 else (amount * a.collateral_weight_bps) % u128_mod / 10000
