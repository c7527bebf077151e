-- ===== src/Types/Transaction.antt =====
-- `Transaction` and `TxPayload` of crates/tx/src/lib.rs.
use pranklin.Base.{ℕ}
use pranklin.Types.Signature.{TxSignature}
use pranklin.Types.Tx.{
  DepositTx, WithdrawTx, PlaceOrderTx, CancelOrderTx, ModifyOrderTx, ClosePositionTx, SetAgentTx,
  RemoveAgentTx, TransferTx, BridgeDepositTx, BridgeWithdrawTx,
}

pub data TxPayload : Type 0 where
  deposit : DepositTx → TxPayload
  withdraw : WithdrawTx → TxPayload
  place_order : PlaceOrderTx → TxPayload
  cancel_order : CancelOrderTx → TxPayload
  modify_order : ModifyOrderTx → TxPayload
  close_position : ClosePositionTx → TxPayload
  set_agent : SetAgentTx → TxPayload
  remove_agent : RemoveAgentTx → TxPayload
  transfer : TransferTx → TxPayload
  bridge_deposit : BridgeDepositTx → TxPayload
  bridge_withdraw : BridgeWithdrawTx → TxPayload

pub record Transaction : Type 0 where
  pub nonce : ℕ
  pub from : ℕ
  pub payload : TxPayload
  pub signature : TxSignature
