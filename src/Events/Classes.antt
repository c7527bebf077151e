-- ===== src/Events/Classes.antt =====
-- The classes of events and of the reasons of a change: crates/types/src/engine.rs.
use pranklin.Base.{ℕ, ◌+◌, ◌≡◌, Bool, true, false, refl, not}
use pranklin.Types.Event.{
  Event, balance_changed, transferred, nonce_updated, order_placed, order_cancelled, order_filled,
  position_opened, position_closed, position_modified, position_liquidated, funding_paid,
  funding_rate_updated, bridge_deposited, bridge_withdrawn, agent_set, agent_removed,
  BalanceChangeReason, deposit, withdraw, trade_fee, funding_payment, funding_receipt,
  pnl_settlement, bridge_deposit, bridge_withdraw, InsuranceFundChangeReason, liquidation_fee,
  liquidation_coverage, admin_deposit, admin_withdraw, market_updated, insurance_fund_updated,
  transfer, liquidation,
}

unfoldable pub is_account_event : Event → Bool
is_account_event (balance_changed a i old new reason) = true
is_account_event (transferred from to i amount) = true
is_account_event (nonce_updated a old new) = true
is_account_event _ = false

unfoldable pub is_order_event : Event → Bool
is_order_event (order_placed i owner m is_buy price size kind) = true
is_order_event (order_cancelled i owner m size) = true
is_order_event (order_filled i j maker taker m price size is_buy mf tf) = true
is_order_event _ = false

unfoldable pub is_position_event : Event → Bool
is_position_event (position_opened trader m is_long size price margin) = true
is_position_event (position_closed trader m size price pnl is_profit) = true
is_position_event (position_modified trader m old new) = true
is_position_event (position_liquidated trader m liquidator size price fee c u) = true
is_position_event _ = false

unfoldable pub is_funding_event : Event → Bool
is_funding_event (funding_paid trader m amount is_payment rate index) = true
is_funding_event (funding_rate_updated m rate mark oracle index) = true
is_funding_event _ = false

unfoldable pub is_bridge_event : Event → Bool
is_bridge_event (bridge_deposited operator user i amount tx) = true
is_bridge_event (bridge_withdrawn operator user i amount to tx) = true
is_bridge_event _ = false

unfoldable pub is_agent_event : Event → Bool
is_agent_event (agent_set account agent permissions) = true
is_agent_event (agent_removed account agent) = true
is_agent_event _ = false

unfoldable pub is_inflow : BalanceChangeReason → Bool
is_inflow deposit = true
is_inflow funding_receipt = true
is_inflow bridge_deposit = true
is_inflow _ = false

unfoldable pub is_outflow : BalanceChangeReason → Bool
is_outflow withdraw = true
is_outflow trade_fee = true
is_outflow funding_payment = true
is_outflow bridge_withdraw = true
is_outflow _ = false

unfoldable pub is_trade_related : BalanceChangeReason → Bool
is_trade_related trade_fee = true
is_trade_related pnl_settlement = true
is_trade_related _ = false

unfoldable pub is_funding_related : BalanceChangeReason → Bool
is_funding_related funding_payment = true
is_funding_related funding_receipt = true
is_funding_related _ = false

unfoldable pub is_bridge_related : BalanceChangeReason → Bool
is_bridge_related bridge_deposit = true
is_bridge_related bridge_withdraw = true
is_bridge_related _ = false

unfoldable pub is_liquidation_related : InsuranceFundChangeReason → Bool
is_liquidation_related liquidation_fee = true
is_liquidation_related liquidation_coverage = true
is_liquidation_related _ = false

unfoldable pub is_admin_action : InsuranceFundChangeReason → Bool
is_admin_action admin_deposit = true
is_admin_action admin_withdraw = true
is_admin_action _ = false

unfoldable pub is_fund_inflow : InsuranceFundChangeReason → Bool
is_fund_inflow liquidation_fee = true
is_fund_inflow admin_deposit = true
is_fund_inflow _ = false

unfoldable pub is_fund_outflow : InsuranceFundChangeReason → Bool
is_fund_outflow liquidation_coverage = true
is_fund_outflow admin_withdraw = true
is_fund_outflow _ = false

abbrev pub as_number : Bool → ℕ
as_number true = 1
as_number false = 0

-- How many of the classes an event is in.
abbrev pub classes : Event → ℕ
classes e =
    as_number (is_account_event e)
    + as_number (is_order_event e)
    + as_number (is_position_event e)
    + as_number (is_funding_event e)
    + as_number (is_bridge_event e)
    + as_number (is_agent_event e)

abbrev pub is_system_event : Event → Bool
is_system_event (market_updated m symbol) = true
is_system_event (insurance_fund_updated m old new reason) = true
is_system_event _ = false

-- Every event is in exactly one class, but for the two events of the system, which are in none.
pub classes-is_system_event : (e : Event) → classes e ≡ as_number (not (is_system_event e))
unfolding is_account_event is_order_event is_position_event is_funding_event is_bridge_event
    is_agent_event
classes-is_system_event (balance_changed a b c d e) = refl
classes-is_system_event (transferred a b c d) = refl
classes-is_system_event (nonce_updated a b c) = refl
classes-is_system_event (order_placed a b c d e f g) = refl
classes-is_system_event (order_cancelled a b c d) = refl
classes-is_system_event (order_filled a b c d e f g h i j) = refl
classes-is_system_event (position_opened a b c d e f) = refl
classes-is_system_event (position_closed a b c d e f) = refl
classes-is_system_event (position_modified a b c d) = refl
classes-is_system_event (position_liquidated a b c d e f g h) = refl
classes-is_system_event (funding_paid a b c d e f) = refl
classes-is_system_event (funding_rate_updated a b c d e) = refl
classes-is_system_event (bridge_deposited a b c d e) = refl
classes-is_system_event (bridge_withdrawn a b c d e f) = refl
classes-is_system_event (agent_set a b c) = refl
classes-is_system_event (agent_removed a b) = refl
classes-is_system_event (market_updated a b) = refl
classes-is_system_event (insurance_fund_updated a b c d) = refl

abbrev pub is_undirected : BalanceChangeReason → Bool
is_undirected transfer = true
is_undirected liquidation = true
is_undirected pnl_settlement = true
is_undirected _ = false

-- No reason of a change of balance counts both as paid in and as paid out, and the ones that count
-- as neither are transfers, liquidations and settlements, whose direction is not in the reason.
pub flow_of_reason :
    (r : BalanceChangeReason)
    → as_number (is_inflow r) + as_number (is_outflow r) ≡ as_number (not (is_undirected r))
unfolding is_inflow is_outflow
flow_of_reason deposit = refl
flow_of_reason withdraw = refl
flow_of_reason transfer = refl
flow_of_reason trade_fee = refl
flow_of_reason funding_payment = refl
flow_of_reason funding_receipt = refl
flow_of_reason liquidation = refl
flow_of_reason pnl_settlement = refl
flow_of_reason bridge_deposit = refl
flow_of_reason bridge_withdraw = refl
