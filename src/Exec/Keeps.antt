-- ===== src/Exec/Keeps.antt =====
-- No payload writes a nonce, or the version of the state.
use pranklin.Base.{ℕ, ◌≡◌, arith, Method}
use pranklin.Types.Tx.{
  DepositTx, WithdrawTx, TransferTx, PlaceOrderTx, CancelOrderTx, ClosePositionTx, BridgeDepositTx,
  BridgeWithdrawTx, SetAgentTx, RemoveAgentTx,
}
use pranklin.State.{State, set_balance}
use pranklin.Services.Parts.{Parts}
use pranklin.Services.Account.{
  update_balance, deposit, withdraw, transfer, bridge_deposit, bridge_withdraw,
}
use pranklin.Services.Orders.{place_order, cancel_order, close_position, set_agent, remove_agent}
use pranklin.Exec.Trading.{
  SameAccounts, cancel_order-KeepsAccounts, place_order-KeepsAccounts, close_position-KeepsAccounts,
  set_agent-KeepsAccounts, remove_agent-KeepsAccounts,
}

-- The nonces and the version are the same.
pub record SameNonces (s s' : State) : Type 0 where
  pub nonces : s'.nonces ≡ s.nonces
  pub version : s'.version ≡ s.version

-- A method that keeps them, whether it succeeds or fails.
abbrev pub Keeps : {A : Type 0} → Method Parts A → Type 0
Keeps m = (p : Parts) → SameNonces p.state (m p).1.state

fewer : {s s' : State} → SameAccounts s s' → SameNonces s s'
fewer h = record { nonces = h.nonces; version = h.version }

pub deposit-Keeps : (a : ℕ) (tx : DepositTx) → Keeps (deposit a tx)
unfolding deposit update_balance set_balance
deposit-Keeps a tx p = record { nonces = ground arith; version = ground arith }

pub withdraw-Keeps : (a : ℕ) (tx : WithdrawTx) → Keeps (withdraw a tx)
unfolding withdraw update_balance set_balance
withdraw-Keeps a tx p = record { nonces = ground arith; version = ground arith }

pub transfer-Keeps : (a : ℕ) (tx : TransferTx) → Keeps (transfer a tx)
unfolding transfer set_balance
transfer-Keeps a tx p = record { nonces = ground arith; version = ground arith }

pub bridge_deposit-Keeps : (a : ℕ) (tx : BridgeDepositTx) → Keeps (bridge_deposit a tx)
unfolding bridge_deposit set_balance
bridge_deposit-Keeps a tx p = record { nonces = ground arith; version = ground arith }

pub bridge_withdraw-Keeps : (a : ℕ) (tx : BridgeWithdrawTx) → Keeps (bridge_withdraw a tx)
unfolding bridge_withdraw set_balance
bridge_withdraw-Keeps a tx p = record { nonces = ground arith; version = ground arith }

pub cancel_order-Keeps : (a : ℕ) (tx : CancelOrderTx) → Keeps (cancel_order a tx)
cancel_order-Keeps a tx p = fewer (cancel_order-KeepsAccounts a tx p)

pub place_order-Keeps : (a : ℕ) (tx : PlaceOrderTx) → Keeps (place_order a tx)
place_order-Keeps a tx p = fewer (place_order-KeepsAccounts a tx p)

pub close_position-Keeps : (a : ℕ) (tx : ClosePositionTx) → Keeps (close_position a tx)
close_position-Keeps a tx p = fewer (close_position-KeepsAccounts a tx p)

pub set_agent-Keeps : (a : ℕ) (tx : SetAgentTx) → Keeps (set_agent a tx)
set_agent-Keeps a tx p = fewer (set_agent-KeepsAccounts a tx p)

pub remove_agent-Keeps : (a : ℕ) (tx : RemoveAgentTx) → Keeps (remove_agent a tx)
remove_agent-Keeps a tx p = fewer (remove_agent-KeepsAccounts a tx p)
