-- ===== src/Engine/Defs.antt =====
-- `Engine` of crates/engine/src/lib.rs: the parts that the services are handed, the engine for
-- liquidations with its index of risks, and the block that events are stamped with. The services keep
-- no state of their own.
use pranklin.Base.{
  ℕ, suc, ◌%◌, ◌&&◌, ltb, Bool, Option, none, some, List, [], ◌∷◌, Result, Method, ok_or,
  market_not_found, if◌then◌else◌,
}
use pranklin.Base.Try.{◌>>=◌}
use pranklin.Base.Words.{u32_mod}
use pranklin.Types.Event.{Event}
use pranklin.Types.Order.{Order, is_active}
use pranklin.Types.Tx.{
  DepositTx, WithdrawTx, TransferTx, BridgeDepositTx, BridgeWithdrawTx, PlaceOrderTx, CancelOrderTx,
  ClosePositionTx, SetAgentTx, RemoveAgentTx,
}
use pranklin.State.{
  State, get_order, get_market, get_active_orders_by_market, remove_active_order, list_all_markets,
}
use pranklin.Orderbook.Manager.{OrderbookManager, new, add_order, get_depth}
use pranklin.Services.Parts.{Parts}
use pranklin.Services.Account.{deposit, withdraw, transfer, bridge_deposit, bridge_withdraw}
use pranklin.Services.Orders.{place_order, cancel_order, close_position, set_agent, remove_agent}
use pranklin.Funding.Defs.{update_funding_rate}
use pranklin.Liquidation.Defs.{
  LiquidationEngine, InsuranceFund, default_engine, get_insurance_fund, should_liquidate,
}
use pranklin.Liquidation.Engine.{Venue, LiquidationResult, liquidate_with_incentive}
use pranklin.Liquidation.RiskIndex.{
  PositionRisk, RiskIndex, update_risk_index, rebuild_risk_index, get_at_risk_positions,
}
use pranklin.Liquidation.Batch.{process_liquidation_batch}
use pranklin.Liquidation.Deleveraging.{auto_deleverage}
use pranklin.Events.Defs.{DomainEvent}

pub record BlockContext : Type 0 where
  pub height : ℕ
  pub timestamp : ℕ
  pub tx_hash : ℕ

pub record Engine : Type 0 where
  pub parts : Parts
  pub liquidation : LiquidationEngine
  pub at_risk_positions : RiskIndex
  pub max_funding_rate_bps : ℕ
  pub current_block : BlockContext

-- `Engine::new`
unfoldable pub engine_of : State → Engine
engine_of s = record {
  parts = record { state = s; orderbook = new; events = [] };
  liquidation = default_engine;
  at_risk_positions = λ _. none;
  max_funding_rate_bps = 1000;
  current_block = record { height = 0; timestamp = 0; tx_hash = 0 };
}

unfoldable pub begin_tx : ℕ → ℕ → ℕ → Engine → Engine
begin_tx tx_hash block_height timestamp e = record e {
  current_block = record { height = block_height; timestamp = timestamp; tx_hash = tx_hash };
  parts = record e.parts { events = [] };
}

-- The events, numbered from `index` on and stamped with the block.
unfoldable pub stamp : BlockContext → ℕ → List Event → List DomainEvent
stamp block index [] = []
stamp block index (e ∷ es) =
    record {
      block_height = block.height;
      tx_hash = block.tx_hash;
      event_index = index % u32_mod;
      timestamp = block.timestamp;
      event = e;
    }
    ∷ stamp block (suc index) es

unfoldable pub take_domain_events : Engine → List DomainEvent × Engine
take_domain_events e =
    (stamp e.current_block 0 e.parts.events, record e { parts = record e.parts { events = [] } })

-- A service, on the parts.
abbrev pub on_parts : {A : Type 0} → Method Parts A → Method Engine A
on_parts m e = let (r, p) = m e.parts in (r, record e { parts = p })

unfoldable pub process_deposit : ℕ → DepositTx → Method Engine (Unit {0})
process_deposit from tx = on_parts (deposit from tx)

unfoldable pub process_withdraw : ℕ → WithdrawTx → Method Engine (Unit {0})
process_withdraw from tx = on_parts (withdraw from tx)

unfoldable pub process_transfer : ℕ → TransferTx → Method Engine (Unit {0})
process_transfer from tx = on_parts (transfer from tx)

unfoldable pub process_bridge_deposit : ℕ → BridgeDepositTx → Method Engine (Unit {0})
process_bridge_deposit operator tx = on_parts (bridge_deposit operator tx)

unfoldable pub process_bridge_withdraw : ℕ → BridgeWithdrawTx → Method Engine (Unit {0})
process_bridge_withdraw operator tx = on_parts (bridge_withdraw operator tx)

unfoldable pub process_place_order : ℕ → PlaceOrderTx → Method Engine ℕ
process_place_order trader tx = on_parts (place_order trader tx)

unfoldable pub process_cancel_order : ℕ → CancelOrderTx → Method Engine (Unit {0})
process_cancel_order trader tx = on_parts (cancel_order trader tx)

unfoldable pub process_close_position : ℕ → ClosePositionTx → Method Engine (Unit {0})
process_close_position trader tx = on_parts (close_position trader tx)

unfoldable pub process_set_agent : ℕ → SetAgentTx → Method Engine (Unit {0})
process_set_agent account tx = on_parts (set_agent account tx)

unfoldable pub process_remove_agent : ℕ → RemoveAgentTx → Method Engine (Unit {0})
process_remove_agent account tx = on_parts (remove_agent account tx)

-- Whether an order is put back into the book.
abbrev pub is_restorable : Order → Bool
is_restorable o = is_active o.status && ltb 0 o.remaining_size

-- One order of the list of a market: it joins the book, or leaves the list.
unfoldable pub restore_order : ℕ → ℕ → State → OrderbookManager → State × OrderbookManager
restore_order market_id order_id s book = elim (get_order s order_id) [
  | none ↦ (s, book)
  | some o ↦
      if is_restorable o
      then (s, add_order order_id o book)
      else (remove_active_order market_id order_id s, book)
]

unfoldable pub restore_orders : ℕ → List ℕ → State → OrderbookManager → State × OrderbookManager
restore_orders market_id [] s book = (s, book)
restore_orders market_id (i ∷ ids) s book =
    let (s', book') = restore_order market_id i s book in restore_orders market_id ids s' book'

-- The list of a market is read before its loop.
unfoldable pub restore_markets : List ℕ → State → OrderbookManager → State × OrderbookManager
restore_markets [] s book = (s, book)
restore_markets (m ∷ markets) s book =
    let (s', book') = restore_orders m (get_active_orders_by_market s m) s book in
    restore_markets markets s' book'

unfoldable pub rebuild_orderbook_from_state : Engine → Engine
rebuild_orderbook_from_state e =
    let (s, book) = restore_markets (list_all_markets e.parts.state) e.parts.state new in
    record e { parts = record e.parts { state = s; orderbook = book } }

unfoldable pub get_orderbook_depth : Engine → ℕ → ℕ → List (ℕ × ℕ) × List (ℕ × ℕ)
get_orderbook_depth e market_id depth = get_depth e.parts.orderbook market_id depth

-- A method of the state alone.
abbrev pub on_engine_state : {A : Type 0} → Method State A → Method Engine A
on_engine_state m e =
    let (r, s) = m e.parts.state in (r, record e { parts = record e.parts { state = s } })

abbrev pub venue_of : Engine → Venue
venue_of e = record { engine = e.liquidation; state = e.parts.state; orderbook = e.parts.orderbook }

-- A method of the engine for liquidations, which is handed the state and the book.
abbrev pub on_venue : {A : Type 0} → Method Venue A → Method Engine A
on_venue m e =
    let (r, v) = m (venue_of e) in
    (
      r,
      record e {
        liquidation = v.engine;
        parts = record e.parts { state = v.state; orderbook = v.orderbook };
      },
    )

unfoldable pub engine_update_funding_rate : ℕ → ℕ → ℕ → ℕ → Method Engine (Unit {0})
engine_update_funding_rate market_id mark_price oracle_price timestamp e =
    on_engine_state
      (update_funding_rate e.max_funding_rate_bps market_id mark_price oracle_price timestamp) e

unfoldable pub engine_should_liquidate : Engine → ℕ → ℕ → ℕ → Result Bool
engine_should_liquidate e trader market_id mark_price = do
  market ← ok_or (get_market e.parts.state market_id) market_not_found
  should_liquidate e.parts.state trader market_id mark_price market

unfoldable pub engine_liquidate_with_incentive :
    ℕ → ℕ → ℕ → ℕ → Method Engine (Option LiquidationResult)
engine_liquidate_with_incentive trader market_id mark_price liquidator =
    on_venue (liquidate_with_incentive trader market_id mark_price liquidator)

unfoldable pub engine_update_risk_index : ℕ → ℕ → ℕ → Method Engine (Unit {0})
engine_update_risk_index trader market_id mark_price e =
    let (r, index) =
      update_risk_index e.parts.state trader market_id mark_price e.at_risk_positions in
    (r, record e { at_risk_positions = index })

unfoldable pub engine_rebuild_risk_index : ℕ → ℕ → Method Engine (Unit {0})
engine_rebuild_risk_index market_id mark_price e =
    let (r, index) = rebuild_risk_index e.parts.state market_id mark_price e.at_risk_positions in
    (r, record e { at_risk_positions = index })

unfoldable pub engine_get_insurance_fund : Engine → ℕ → InsuranceFund
engine_get_insurance_fund e market_id = get_insurance_fund e.liquidation market_id

unfoldable pub engine_auto_deleverage : ℕ → ℕ → ℕ → Method Engine (List (ℕ × ℕ))
engine_auto_deleverage market_id required_amount mark_price e =
    on_engine_state (auto_deleverage market_id required_amount mark_price e.liquidation) e

module _ (heap_order : List PositionRisk → List PositionRisk) where
  unfoldable pub engine_get_at_risk_positions : Engine → ℕ → ℕ → List (ℕ × ℕ)
  engine_get_at_risk_positions e market_id threshold_bps =
      get_at_risk_positions heap_order e.at_risk_positions market_id threshold_bps

  unfoldable pub engine_process_liquidation_batch :
      ℕ → ℕ → ℕ → ℕ → Method Engine (List LiquidationResult)
  engine_process_liquidation_batch market_id mark_price liquidator max_liquidations e =
      on_venue
        (process_liquidation_batch heap_order e.at_risk_positions market_id mark_price liquidator
          max_liquidations)
        e
