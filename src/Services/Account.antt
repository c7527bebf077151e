-- ===== src/Services/Account.antt =====
-- `AccountService` of crates/engine/src/services/account_service.rs.
use pranklin.Base.{
  ℕ, ◌-◌, Bool, true, false, not, ltb, ◌==◌, if◌then◌else◌, Result, ok, err, Method, ◌>>=◌, ◌>>◌,
  lift, require, ok_or, insufficient_balance, unauthorized, other,
}
use pranklin.Base.Words.{checked_add}
use pranklin.Types.Event.{Event, BalanceChangeReason}
use pranklin.Types.Tx.{DepositTx, WithdrawTx, TransferTx, BridgeDepositTx, BridgeWithdrawTx}
use pranklin.State.{get_balance, set_balance, get_asset, is_bridge_operator}
use pranklin.Services.Parts.{Parts, emit, write, reads}

-- The balance after a credit or a debit.
abbrev pub changed_balance : ℕ → ℕ → Bool → Result ℕ
changed_balance old amount is_credit =
    if is_credit
    then checked_add old amount
    else if ltb old amount
    then err insufficient_balance
    else ok (old - amount)

unfoldable pub update_balance : ℕ → ℕ → ℕ → Bool → BalanceChangeReason → Method Parts (Unit {0})
update_balance address asset_id amount is_credit reason = do
  old_balance ← reads (λ s. get_balance s address asset_id)
  new_balance ← lift (changed_balance old_balance amount is_credit)
  write (set_balance address asset_id new_balance)
  emit (Event.balance_changed address asset_id old_balance new_balance reason)

unfoldable pub deposit : ℕ → DepositTx → Method Parts (Unit {0})
unfolding update_balance
deposit from tx = update_balance from tx.asset_id tx.amount true BalanceChangeReason.deposit

unfoldable pub withdraw : ℕ → WithdrawTx → Method Parts (Unit {0})
unfolding update_balance
withdraw from tx = update_balance from tx.asset_id tx.amount false BalanceChangeReason.withdraw

unfoldable pub transfer : ℕ → TransferTx → Method Parts (Unit {0})
transfer from tx = do
  require (not (from == tx.to)) (other "Cannot transfer to self")
  found ← reads (λ s. get_asset s tx.asset_id)
  asset ← lift (ok_or found (other "Asset not found"))
  require asset.is_collateral (other "Asset not transferrable")
  sender_balance ← reads (λ s. get_balance s from tx.asset_id)
  require (not (ltb sender_balance tx.amount)) insufficient_balance
  write (set_balance from tx.asset_id (sender_balance - tx.amount))
  recipient_balance ← reads (λ s. get_balance s tx.to tx.asset_id)
  new_recipient_balance ← lift (checked_add recipient_balance tx.amount)
  write (set_balance tx.to tx.asset_id new_recipient_balance)
  emit (Event.transferred from tx.to tx.asset_id tx.amount)

unfoldable pub bridge_deposit : ℕ → BridgeDepositTx → Method Parts (Unit {0})
bridge_deposit operator tx = do
  authorized ← reads (λ s. is_bridge_operator s operator)
  require authorized unauthorized
  found ← reads (λ s. get_asset s tx.asset_id)
  asset ← lift (ok_or found (other "Asset not found"))
  old_balance ← reads (λ s. get_balance s tx.user tx.asset_id)
  new_balance ← lift (checked_add old_balance tx.amount)
  write (set_balance tx.user tx.asset_id new_balance)
  emit (Event.bridge_deposited operator tx.user tx.asset_id tx.amount tx.external_tx_hash)

unfoldable pub bridge_withdraw : ℕ → BridgeWithdrawTx → Method Parts (Unit {0})
bridge_withdraw operator tx = do
  authorized ← reads (λ s. is_bridge_operator s operator)
  require authorized unauthorized
  found ← reads (λ s. get_asset s tx.asset_id)
  asset ← lift (ok_or found (other "Asset not found"))
  old_balance ← reads (λ s. get_balance s tx.user tx.asset_id)
  require (not (ltb old_balance tx.amount)) insufficient_balance
  write (set_balance tx.user tx.asset_id (old_balance - tx.amount))
  emit (
      Event.bridge_withdrawn operator tx.user tx.asset_id tx.amount tx.destination
        tx.external_tx_hash)
