-- ===== src/Types/Access.antt =====
-- The accesses that a transaction declares: crates/state/src/access.rs and crates/tx/src/lib.rs.
use pranklin.Base.{ℕ, Bool, false, ◌&&◌, ◌||◌, ◌==◌, List, [], ◌∷◌}
use pranklin.Types.Transaction.{Transaction, TxPayload}

pub data StateAccess : Type 0 where
  balance : (address asset_id : ℕ) → StateAccess
  nonce_of : (address : ℕ) → StateAccess
  position : (address market_id : ℕ) → StateAccess
  order : (order_id : ℕ) → StateAccess
  order_list : (market_id : ℕ) → StateAccess
  market : (market_id : ℕ) → StateAccess
  funding_rate : (market_id : ℕ) → StateAccess
  asset_info : (asset_id : ℕ) → StateAccess
  bridge_operator : (address : ℕ) → StateAccess

pub data AccessMode : Type 0 where
  read_only write_too : AccessMode

abbrev pub Access : Type 0
Access = StateAccess × AccessMode

abbrev pub balance_access : ℕ → ℕ → AccessMode → Access
balance_access address asset_id mode = (balance address asset_id, mode)

abbrev pub asset_info_access : ℕ → Access
asset_info_access asset_id = (asset_info asset_id, read_only)

abbrev pub balance_with_asset : ℕ → ℕ → List Access
balance_with_asset address asset_id =
    balance_access address asset_id write_too ∷ asset_info_access asset_id ∷ []

-- What a payload of a sender adds to the nonce.
unfoldable pub payload_accesses : ℕ → TxPayload → List Access
payload_accesses from (TxPayload.deposit d) = balance_with_asset from d.asset_id
payload_accesses from (TxPayload.withdraw w) = balance_with_asset from w.asset_id
payload_accesses from (TxPayload.place_order o) =
    balance_access from 0 write_too
    ∷ (position from o.market_id, write_too)
    ∷ (order_list o.market_id, write_too)
    ∷ (market o.market_id, read_only)
    ∷ (funding_rate o.market_id, read_only)
    ∷ []
payload_accesses from (TxPayload.cancel_order c) = (order c.order_id, write_too) ∷ []
payload_accesses from (TxPayload.modify_order m) = (order m.order_id, write_too) ∷ []
payload_accesses from (TxPayload.close_position c) =
    (position from c.market_id, write_too)
    ∷ (order_list c.market_id, write_too)
    ∷ (market c.market_id, read_only)
    ∷ []
payload_accesses from (TxPayload.set_agent a) = []
payload_accesses from (TxPayload.remove_agent a) = []
payload_accesses from (TxPayload.transfer t) =
    balance_access from t.asset_id write_too
    ∷ balance_access t.to t.asset_id write_too
    ∷ asset_info_access t.asset_id
    ∷ []
payload_accesses from (TxPayload.bridge_deposit d) =
    (bridge_operator from, read_only) ∷ balance_with_asset d.user d.asset_id
payload_accesses from (TxPayload.bridge_withdraw w) =
    (bridge_operator from, read_only) ∷ balance_with_asset w.user w.asset_id

unfoldable pub declare_accesses : Transaction → List Access
unfolding payload_accesses
declare_accesses tx = (nonce_of tx.from, write_too) ∷ payload_accesses tx.from tx.payload

-- Whether a list declares to write a balance, or a nonce.
abbrev pub is_balance_write : ℕ → ℕ → Access → Bool
is_balance_write address asset_id (balance a i, write_too) = a == address && i == asset_id
is_balance_write address asset_id _ = false

abbrev pub is_nonce_write : ℕ → Access → Bool
is_nonce_write address (nonce_of a, write_too) = a == address
is_nonce_write address _ = false

abbrev pub writes_balance : List Access → ℕ → ℕ → Bool
writes_balance [] address asset_id = false
writes_balance (x ∷ xs) address asset_id =
    is_balance_write address asset_id x || writes_balance xs address asset_id

abbrev pub writes_nonce : List Access → ℕ → Bool
writes_nonce [] address = false
writes_nonce (x ∷ xs) address = is_nonce_write address x || writes_nonce xs address
