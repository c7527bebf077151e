-- ===== src/Types/Event.antt =====
-- The events of crates/types/src/engine.rs.
use Prim.Native.String.{String}
use pranklin.Base.{ℕ, Bool, Option}
use pranklin.Base.Int.{ℤ}
use pranklin.Types.Order.{OrderType}

pub data BalanceChangeReason : Type 0 where
  deposit withdraw transfer trade_fee funding_payment funding_receipt : BalanceChangeReason
  liquidation pnl_settlement bridge_deposit bridge_withdraw : BalanceChangeReason

pub data InsuranceFundChangeReason : Type 0 where
  liquidation_fee liquidation_coverage admin_deposit admin_withdraw : InsuranceFundChangeReason

-- The fields stand in the order of the source.
pub data Event : Type 0 where
  balance_changed :
      (address asset_id old_balance new_balance : ℕ) (reason : BalanceChangeReason) → Event
  transferred : (from to asset_id amount : ℕ) → Event
  nonce_updated : (address old_nonce new_nonce : ℕ) → Event
  order_placed :
      (order_id owner market_id : ℕ) (is_buy : Bool) (price size : ℕ) (order_type : OrderType)
      → Event
  order_cancelled : (order_id owner market_id remaining_size : ℕ) → Event
  order_filled :
      (maker_order_id taker_order_id maker taker market_id price size : ℕ) (taker_is_buy : Bool)
      (maker_fee taker_fee : ℕ)
      → Event
  position_opened : (trader market_id : ℕ) (is_long : Bool) (size entry_price margin : ℕ) → Event
  position_closed : (trader market_id size exit_price : ℕ) (pnl : ℤ) (is_profit : Bool) → Event
  position_modified : (trader market_id old_margin new_margin : ℕ) → Event
  position_liquidated :
      (trader market_id : ℕ) (liquidator : Option ℕ)
      (liquidated_size liquidation_price liquidation_fee : ℕ)
      (insurance_fund_contribution insurance_fund_usage : ℕ)
      → Event
  funding_paid :
      (trader market_id : ℕ) (amount : ℤ) (is_payment : Bool) (funding_rate funding_index : ℤ)
      → Event
  funding_rate_updated :
      (market_id : ℕ) (rate : ℤ) (mark_price oracle_price : ℕ) (index : ℤ) → Event
  bridge_deposited : (operator user asset_id amount external_tx_hash : ℕ) → Event
  bridge_withdrawn : (operator user asset_id amount destination external_tx_hash : ℕ) → Event
  agent_set : (account agent permissions : ℕ) → Event
  agent_removed : (account agent : ℕ) → Event
  market_updated : (market_id : ℕ) (symbol : String) → Event
  insurance_fund_updated :
      (market_id old_balance new_balance : ℕ) (reason : InsuranceFundChangeReason) → Event
