-- ===== src/Tests/Logs.antt =====
-- The events of a transfer in the store, and a rebuilt order book.
use pranklin.Base.{
  false, contains, ◌&&◌, ℕ, arith, ◌≡◌, some, none, [], ◌∷◌, ◌++◌, keep, take, length, map, reverse,
  List, if◌then◌else◌, number_key,
}
use pranklin.Types.Event.{Event}
use pranklin.State.{get_order, list_all_markets}
use pranklin.Events.Defs.{
  DomainEvent, InMemoryEventStore, empty_store, append, append_event, get_by_tx, get_by_block_range,
  get_by_address, count,
}
use pranklin.Events.Queries.{
  IsChronological, IsIndexed, empty_store-IsIndexed, append-IsIndexed, append-queries,
  get_by_block_range-log, of_tx, involves, within,
}
use pranklin.Engine.Defs.{
  Engine, begin_tx, engine_of, take_domain_events, rebuild_orderbook_from_state,
}
use pranklin.Engine.Recording.{event_of, take_domain_events-get_by_tx}
use pranklin.Engine.Rebuild.{is_listed, restorable}
use pranklin.Engine.Restored.{would_rest, rebuild_orderbook_from_state-book}
use pranklin.Orderbook.Standing.{orders_at, side_of}
use pranklin.Tests.Samples.{open_market, with_asks, parts_of}

-- An event of a block and a transaction.
abbrev logged : ℕ → ℕ → ℕ → DomainEvent
logged height tx from = record {
  block_height = height;
  tx_hash = tx;
  event_index = 0;
  timestamp = 5;
  event = Event.transferred from 1 0 300;
}

abbrev events : List DomainEvent
events = logged 1 7 2 ∷ logged 1 8 3 ∷ logged 2 9 2 ∷ []

abbrev store : InMemoryEventStore
store = append events empty_store

store-IsIndexed : IsIndexed store
store-IsIndexed = append-IsIndexed events empty_store empty_store-IsIndexed

append-queries_example :
    (get_by_tx (append events store) 8 ≡ some (keep (of_tx 8) (store.events ++ events)))
    × (get_by_address (append events store) 2 3
        ≡ take 3 (keep (involves 2) (reverse (store.events ++ events))))
    × (count (append events store) ≡ length (store.events ++ events))
append-queries_example = append-queries events store 8 2 3 store-IsIndexed

in_order : IsChronological store.events
unfolding append append_event
in_order = ((omega arith, (omega arith, tt)), ((omega arith, tt), (tt, tt)))

get_by_block_range-log_example :
    get_by_block_range store 1 1 ≡ some (keep (within 1 1) store.events)
get_by_block_range-log_example = get_by_block_range-log store 1 1 store-IsIndexed in_order

abbrev engine : Engine
engine = record (begin_tx 9 3 5 (engine_of open_market)) {
  parts = record (parts_of open_market) { events = Event.transferred 2 1 0 300 ∷ [] };
}

take_domain_events-get_by_tx_example :
    let (events, e') = take_domain_events engine in
    (map event_of events ≡ engine.parts.events)
    × (e'.parts.events ≡ [])
    × (get_by_tx (append events store) engine.current_block.tx_hash
        ≡ some (keep (of_tx engine.current_block.tx_hash) store.events ++ events))
take_domain_events-get_by_tx_example = take_domain_events-get_by_tx engine store store-IsIndexed

rebuild_orderbook_from_state-book_example :
    let e = engine_of with_asks in
    let rebuilt = rebuild_orderbook_from_state e in
    let named = is_listed e.parts.state (list_all_markets e.parts.state) 2 in
    (rebuilt.parts.orderbook.orders 2 ≡ (if named then restorable e.parts.state 2 else none))
    × (contains 2 (orders_at 110 (side_of rebuilt.parts.orderbook 0 false))
        ≡ (named && would_rest 0 false 110 (restorable e.parts.state 2)))
    × (get_order rebuilt.parts.state 2 ≡ get_order e.parts.state 2)
rebuild_orderbook_from_state-book_example =
    rebuild_orderbook_from_state-book 0 false 110 2 (engine_of with_asks)
