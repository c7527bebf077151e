-- ===== src/Types/Tx.antt =====
-- The payloads of crates/tx/src/lib.rs. Hashes are only passed on: numbers.
use pranklin.Base.{ℕ, Bool}
use pranklin.Types.Order.{OrderType, TimeInForce}

pub record DepositTx : Type 0 where
  pub amount : ℕ
  pub asset_id : ℕ

pub record WithdrawTx : Type 0 where
  pub amount : ℕ
  pub asset_id : ℕ
  pub to : ℕ

pub record PlaceOrderTx : Type 0 where
  pub market_id : ℕ
  pub is_buy : Bool
  pub order_type : OrderType
  pub price : ℕ
  pub size : ℕ
  pub time_in_force : TimeInForce
  pub reduce_only : Bool
  pub post_only : Bool

pub record CancelOrderTx : Type 0 where
  pub order_id : ℕ

pub record ModifyOrderTx : Type 0 where
  pub order_id : ℕ
  pub new_price : ℕ
  pub new_size : ℕ

pub record ClosePositionTx : Type 0 where
  pub market_id : ℕ
  pub size : ℕ

pub record SetAgentTx : Type 0 where
  pub agent : ℕ
  pub permissions : ℕ

pub record RemoveAgentTx : Type 0 where
  pub agent : ℕ

pub record TransferTx : Type 0 where
  pub to : ℕ
  pub amount : ℕ
  pub asset_id : ℕ

pub record BridgeDepositTx : Type 0 where
  pub user : ℕ
  pub amount : ℕ
  pub asset_id : ℕ
  pub external_tx_hash : ℕ

pub record BridgeWithdrawTx : Type 0 where
  pub user : ℕ
  pub amount : ℕ
  pub asset_id : ℕ
  pub destination : ℕ
  pub external_tx_hash : ℕ
