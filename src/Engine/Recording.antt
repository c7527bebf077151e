-- ===== src/Engine/Recording.antt =====
-- The events of a transaction, from the engine of crates/engine/src/lib.rs into the store of
-- crates/engine/src/event_store.rs.
use pranklin.Base.{ℕ, suc, ◌≡◌, some, List, [], ◌∷◌, ◌++◌, keep, map, arith, refl, ap, ◌∙◌}
use pranklin.Types.Event.{Event}
use pranklin.Events.Defs.{DomainEvent, InMemoryEventStore, append, get_by_tx}
use pranklin.Events.Queries.{IsIndexed, of_tx, append-queries}
use pranklin.Engine.Defs.{Engine, BlockContext, stamp, take_domain_events}

abbrev pub event_of : DomainEvent → Event
event_of e = e.event

stamp-events :
    (block : BlockContext) (index : ℕ) (es : List Event) → map event_of (stamp block index es) ≡ es
unfolding stamp
stamp-events block index [] = refl
stamp-events block index (e ∷ es) = ap (λ rest. e ∷ rest) (stamp-events block (suc index) es)

keep-stamp :
    (block : BlockContext) (index : ℕ) (es : List Event) (log : List DomainEvent)
    → keep (of_tx block.tx_hash) (log ++ stamp block index es)
      ≡ keep (of_tx block.tx_hash) log ++ stamp block index es
unfolding stamp
keep-stamp block index [] [] = refl
keep-stamp block index (e ∷ es) [] = ground (arith, keep-stamp block (suc index) es [])
keep-stamp block index es (x ∷ log) = ground (arith, keep-stamp block index es log)

-- What the engine takes out for a transaction are the events that its services emitted, in order,
-- and it keeps none of them; appended to a store with its indexes in step with its log, they are read
-- by the hash of the transaction, after what the store had for that hash before.
pub take_domain_events-get_by_tx :
    (e : Engine) (store : InMemoryEventStore)
    → IsIndexed store
    → let (events, e') = take_domain_events e in
      (map event_of events ≡ e.parts.events)
      × (e'.parts.events ≡ [])
      × (get_by_tx (append events store) e.current_block.tx_hash
          ≡ some (keep (of_tx e.current_block.tx_hash) store.events ++ events))
unfolding take_domain_events
take_domain_events-get_by_tx e store h =
    let events = stamp e.current_block 0 e.parts.events in
    (
      stamp-events e.current_block 0 e.parts.events,
      refl,
      (append-queries events store e.current_block.tx_hash 0 0 h).0
          ∙ ap some (keep-stamp e.current_block 0 e.parts.events store.events),
    )
