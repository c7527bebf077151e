-- ===== src/Tests/Accounts.antt =====
-- Balances: transfers, deposits, withdrawals, the bridge.
use pranklin.Base.{ℕ, ◌+◌, ◌≤◌, ◌≡◌, ◌⊎◌, refl, false, ok, err, overflow, ◌==◌, ◌&&◌, ◌||◌}
use pranklin.Base.Words.{fit, u128_mod}
use pranklin.Storage.{get, set, delete, fresh, scan_back, get_value_option}
use pranklin.Types.Tx.{TransferTx, DepositTx, WithdrawTx, BridgeDepositTx, BridgeWithdrawTx}
use pranklin.State.{
  init, get_asset, set_asset, get_balance, set_balance, get_position, set_position, delete_position,
  update_position_index, remove_from_position_index, get_market, set_market, is_bridge_operator,
}
use pranklin.Services.Parts.{Parts}
use pranklin.Services.Account.{transfer}
use pranklin.Services.Balances.{debited, transfer_moves, transfer_fails}
use pranklin.Tests.Samples.{open_market, parts_of}

abbrev start : Parts
start = parts_of open_market

abbrev pay : ℕ → TransferTx
pay amount = record { to = 1; amount = amount; asset_id = 0 }

pays : (transfer 2 (pay 300) start).0 ≡ ok tt
unfolding transfer fit get set delete fresh scan_back get_value_option init get_asset set_asset
    get_balance set_balance get_position set_position delete_position update_position_index
    remove_from_position_index get_market set_market
pays = refl

transfer_moves_example :
    (get_balance (transfer 2 (pay 300) start).1.state 2 0 + 300 ≡ get_balance start.state 2 0)
    × (get_balance (transfer 2 (pay 300) start).1.state 1 0 ≡ get_balance start.state 1 0 + 300)
    × ((b j : ℕ)
        → (j == 0 && (b == 2 || b == 1)) ≡ false
        → get_balance (transfer 2 (pay 300) start).1.state b j ≡ get_balance start.state b j)
transfer_moves_example = transfer_moves 2 (pay 300) start pays

-- The recipient holds all that fits u128.
abbrev full : Parts
full = parts_of (set_balance 1 0 0xffff_ffff_ffff_ffff_ffff_ffff_ffff_ffff open_market)

overflows : (transfer 2 (pay 300) full).0 ≡ err overflow
unfolding transfer fit get set delete fresh scan_back get_value_option init get_asset set_asset
    get_balance set_balance get_position set_position delete_position update_position_index
    remove_from_position_index get_market set_market
overflows = refl

transfer_fails_example :
    ((transfer 2 (pay 300) full).1 ≡ full)
    ⊎ ((overflow ≡ overflow)
        × (u128_mod ≤ get_balance full.state 1 0 + 300)
        × ((transfer 2 (pay 300) full).1 ≡ record full { state = debited 2 (pay 300) full.state }))
transfer_fails_example = transfer_fails 2 (pay 300) full overflows

abbrev fifty : DepositTx
fifty = record { amount = 50; asset_id = 0 }

abbrev take_out : WithdrawTx
take_out = record { amount = 50; asset_id = 0; to = 2 }

abbrev bridge_in : BridgeDepositTx
bridge_in = record { user = 2; amount = 50; asset_id = 0; external_tx_hash = 7 }

abbrev bridge_out : BridgeWithdrawTx
bridge_out = record { user = 2; amount = 50; asset_id = 0; destination = 3; external_tx_hash = 7 }

no_operator : is_bridge_operator start.state 2 ≡ false
unfolding is_bridge_operator get set delete fresh scan_back get_value_option init get_asset
    set_asset get_balance set_balance get_position set_position delete_position
    update_position_index remove_from_position_index get_market set_market
no_operator = refl
