-- ===== src/Events/Defs.antt =====
-- `DomainEvent` of crates/types/src/engine.rs, and `InMemoryEventStore` of
-- crates/engine/src/event_store.rs: the log, and the places of the events of each transaction and of
-- each block. Reading an event past the end of the log, the panic of the source, is `none`.
use pranklin.Base.{
  ℕ, zero, suc, ◌-◌, Bool, false, ◌||◌, Option, none, some, List, [], ◌∷◌, ◌++◌, length, reverse,
  leb, ◌==◌, if◌then◌else◌,
}
use pranklin.Base.Maps.{Map, lookup, insert}
use pranklin.Types.Event.{
  Event, balance_changed, transferred, nonce_updated, order_placed, order_cancelled, order_filled,
  position_opened, position_closed, position_modified, position_liquidated, funding_paid,
  funding_rate_updated, bridge_deposited, bridge_withdrawn, agent_set, agent_removed,
  market_updated, insurance_fund_updated,
}

pub record DomainEvent : Type 0 where
  pub block_height : ℕ
  pub tx_hash : ℕ
  pub event_index : ℕ
  pub timestamp : ℕ
  pub event : Event

abbrev pub is_some_of : Option ℕ → ℕ → Bool
is_some_of none address = false
is_some_of (some l) address = l == address

-- The last clause of the source stands for the last four here.
unfoldable pub event_involves_address : Event → ℕ → Bool
event_involves_address (balance_changed addr asset_id old new reason) a = addr == a
event_involves_address (transferred from to asset_id amount) a = from == a || to == a
event_involves_address (order_placed i owner market_id is_buy price size kind) a = owner == a
event_involves_address (order_cancelled i owner market_id size) a = owner == a
event_involves_address (order_filled i j maker taker market_id price size is_buy mf tf) a =
    maker == a || taker == a
event_involves_address (position_opened trader market_id is_long size price margin) a = trader == a
event_involves_address (position_closed trader market_id size price pnl is_profit) a = trader == a
event_involves_address (position_modified trader market_id old new) a = trader == a
event_involves_address (position_liquidated trader market_id liquidator size price fee c u) a =
    trader == a || is_some_of liquidator a
event_involves_address (funding_paid trader market_id amount is_payment rate index) a = trader == a
event_involves_address (bridge_deposited operator user asset_id amount tx) a = user == a
event_involves_address (bridge_withdrawn operator user asset_id amount to tx) a = user == a
event_involves_address (agent_set account agent permissions) a = account == a || agent == a
event_involves_address (agent_removed account agent) a = account == a || agent == a
event_involves_address (nonce_updated addr old new) a = false
event_involves_address (funding_rate_updated market_id rate mark oracle index) a = false
event_involves_address (market_updated market_id symbol) a = false
event_involves_address (insurance_fund_updated market_id old new reason) a = false

pub record InMemoryEventStore : Type 0 where
  pub events : List DomainEvent
  pub by_tx : Map (List ℕ)
  pub by_block : Map (List ℕ)

-- `default`, and what `clear` leaves.
abbrev pub empty_store : InMemoryEventStore
empty_store = record { events = []; by_tx = []; by_block = [] }

unfoldable pub clear : InMemoryEventStore → InMemoryEventStore
clear store = record store { events = []; by_tx = []; by_block = [] }

abbrev pub or_no_indices : Option (List ℕ) → List ℕ
or_no_indices none = []
or_no_indices (some indices) = indices

-- `entry(key).or_default().push(idx)`
unfoldable pub push_index : ℕ → ℕ → Map (List ℕ) → Map (List ℕ)
push_index key index m = insert key (or_no_indices (lookup key m) ++ index ∷ []) m

unfoldable pub append_event : DomainEvent → InMemoryEventStore → InMemoryEventStore
append_event e store =
    let index = length store.events in
    record {
      events = store.events ++ e ∷ [];
      by_tx = push_index e.tx_hash index store.by_tx;
      by_block = push_index e.block_height index store.by_block;
    }

unfoldable pub append : List DomainEvent → InMemoryEventStore → InMemoryEventStore
append [] store = store
append (e ∷ es) store = append es (append_event e store)

unfoldable pub nth {ℓ} : {A : Type ℓ} → ℕ → List A → Option A
nth i [] = none
nth zero (x ∷ xs) = some x
nth (suc i) (x ∷ xs) = nth i xs

abbrev pub push_front : DomainEvent → Option (List DomainEvent) → Option (List DomainEvent)
push_front e none = none
push_front e (some es) = some (e ∷ es)

-- `self.events[idx]` for each of the indices.
unfoldable pub read_all : List DomainEvent → List ℕ → Option (List DomainEvent)
read_all events [] = some []
read_all events (i ∷ indices) =
    let rest = read_all events indices in
    elim (nth i events) [ none ↦ none | some e ↦ push_front e rest ]

unfoldable pub get_by_tx : InMemoryEventStore → ℕ → Option (List DomainEvent)
get_by_tx store tx_hash = elim (lookup tx_hash store.by_tx) [
  | some indices ↦ read_all store.events indices
  | none ↦ some []
]

abbrev pub join_results :
    Option (List DomainEvent) → Option (List DomainEvent) → Option (List DomainEvent)
join_results none later = none
join_results (some es) none = none
join_results (some es) (some fs) = some (es ++ fs)

-- The loop over `count` heights from `height` on.
unfoldable pub read_blocks : InMemoryEventStore → ℕ → ℕ → Option (List DomainEvent)
read_blocks store height zero = some []
read_blocks store height (suc count) =
    join_results (read_all store.events (or_no_indices (lookup height store.by_block)))
      (read_blocks store (suc height) count)

unfoldable pub get_by_block_range : InMemoryEventStore → ℕ → ℕ → Option (List DomainEvent)
get_by_block_range store from_height to_height =
    read_blocks store from_height (suc to_height - from_height)

-- The scan, with the count of what was found.
unfoldable pub scan_for : ℕ → ℕ → ℕ → List DomainEvent → List DomainEvent
scan_for address limit count [] = []
scan_for address limit count (e ∷ es) =
    let found = event_involves_address e.event address in
    let rest = scan_for address limit (if found then suc count else count) es in
    if leb limit count then [] else if found then e ∷ rest else rest

unfoldable pub get_by_address : InMemoryEventStore → ℕ → ℕ → List DomainEvent
get_by_address store address limit = scan_for address limit 0 (reverse store.events)

unfoldable pub count : InMemoryEventStore → ℕ
count store = length store.events
