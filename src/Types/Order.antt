-- ===== src/Types/Order.antt =====
-- Orders and fills: `Order`, `OrderStatus` and `Fill` of crates/types/src/state.rs and engine.rs,
-- `OrderType` and `TimeInForce` of crates/types/src/tx.rs. Addresses are only compared: numbers.
use pranklin.Base.{ℕ, ◌-◌, ◌*◌, ◌/◌, Bool, true, false, not, ◌==◌, if◌then◌else◌}
use pranklin.Base.Words.{as_u64}

pub data OrderStatus : Type 0 where
  active filled cancelled : OrderStatus

unfoldable pub is_active : OrderStatus → Bool
is_active active = true
is_active filled = false
is_active cancelled = false

unfoldable pub is_terminal : OrderStatus → Bool
is_terminal active = false
is_terminal filled = true
is_terminal cancelled = true

pub record Order : Type 0 where
  pub id : ℕ
  pub market_id : ℕ
  pub owner : ℕ
  pub is_buy : Bool
  pub price : ℕ
  pub original_size : ℕ
  pub remaining_size : ℕ
  pub status : OrderStatus
  pub created_at : ℕ
  pub reduce_only : Bool
  pub post_only : Bool

-- `saturating_sub` is the subtraction of ℕ.
unfoldable pub filled_size : Order → ℕ
filled_size o = o.original_size - o.remaining_size

unfoldable pub is_fully_filled : Order → Bool
is_fully_filled o = o.remaining_size == 0

unfoldable pub fill_percentage : Order → ℕ
fill_percentage o =
    if o.original_size == 0 then 0 else as_u64 (filled_size o * 100 / o.original_size)

pub record Fill : Type 0 where
  pub maker : ℕ
  pub taker : ℕ
  pub market_id : ℕ
  pub price : ℕ
  pub size : ℕ
  pub taker_is_buy : Bool
  pub maker_order_id : ℕ
  pub taker_order_id : ℕ

unfoldable pub notional_value : Fill → ℕ
notional_value f = f.price * f.size

unfoldable pub maker_is_buy : Fill → Bool
maker_is_buy f = not f.taker_is_buy

pub data OrderType : Type 0 where
  market limit stop_market stop_limit take_profit_market take_profit_limit : OrderType

pub data TimeInForce : Type 0 where
  gtc ioc fok post_only : TimeInForce
