-- ===== src/Tests/Samples.antt =====
-- A market, and traders with balances, positions and orders in it.
use pranklin.Base.{ℕ, true, false, []}
use pranklin.Types.Order.{Order, OrderStatus}
use pranklin.Types.Position.{Position}
use pranklin.Types.Market.{Market, Asset}
use pranklin.State.{
  State, init, set_balance, set_position, set_market, set_asset, set_order, add_active_order,
}
use pranklin.Orderbook.Manager.{OrderbookManager, new, add_order}
use pranklin.Services.Parts.{Parts}

-- A tick of 10, initial margin 10%, maintenance margin 5%, liquidation fee 1%.
abbrev pub sample_market : Market
sample_market = record {
  id = 0;
  symbol = "BTC-PERP";
  base_asset_id = 1;
  quote_asset_id = 0;
  tick_size = 10;
  price_decimals = 2;
  size_decimals = 2;
  min_order_size = 1;
  max_order_size = 1000;
  max_leverage = 20;
  maintenance_margin_bps = 500;
  initial_margin_bps = 1000;
  liquidation_fee_bps = 100;
  funding_interval = 3600;
  max_funding_rate_bps = 100;
}

abbrev pub dollars : Asset
dollars = record {
  id = 0;
  symbol = "USDC";
  name = "Dollars";
  decimals = 6;
  is_collateral = true;
  collateral_weight_bps = 10000;
}

abbrev pub long_ten : Position
long_ten = record { size = 10; entry_price = 100; is_long = true; margin = 100; funding_index = 0 }

-- An order of the trader 1 or 2 in market 0.
abbrev pub resting : ℕ → ℕ → ℕ → ℕ → Order
resting id owner price size = record {
  id = id;
  market_id = 0;
  owner = owner;
  is_buy = false;
  price = price;
  original_size = size;
  remaining_size = size;
  status = OrderStatus.active;
  created_at = 0;
  reduce_only = false;
  post_only = false;
}

abbrev pub buyer : ℕ → ℕ → Order
buyer price size = record {
  id = 9;
  market_id = 0;
  owner = 2;
  is_buy = true;
  price = price;
  original_size = size;
  remaining_size = size;
  status = OrderStatus.active;
  created_at = 0;
  reduce_only = false;
  post_only = false;
}

-- The market, and a balance of 1000 for the trader 2.
abbrev pub open_market : State
open_market = set_balance 2 0 1000 (set_asset 0 dollars (set_market 0 sample_market init))

-- The trader 2 is long.
abbrev pub holding : State
holding = set_position 2 0 long_ten open_market

-- Two sell orders of the trader 1, of 4 at 100 and of 5 at 110.
abbrev pub with_asks : State
with_asks = add_active_order 0 2 (
    set_order 2 (resting 2 1 110 5)
      (add_active_order 0 1 (set_order 1 (resting 1 1 100 4) open_market)))

abbrev pub ask_book : OrderbookManager
ask_book = add_order 2 (resting 2 1 110 5) (add_order 1 (resting 1 1 100 4) new)

abbrev pub parts_of : State → Parts
parts_of s = record { state = s; orderbook = ask_book; events = [] }
