-- ===== src/Services/Parts.antt =====
-- The parts of the engine that the services are handed: the state, the order book, and the events
-- collected so far (`ServiceContext` of crates/engine/src/services/mod.rs).
use pranklin.Base.{List, [], ◌∷◌, ◌++◌, Method, ok}
use pranklin.Types.Event.{Event}
use pranklin.State.{State}
use pranklin.Orderbook.Manager.{OrderbookManager}

pub record Parts : Type 0 where
  pub state : State
  pub orderbook : OrderbookManager
  pub events : List Event

-- `ServiceContext::emit`
abbrev pub emit : Event → Method Parts (Unit {0})
emit e p = (ok tt, record p { events = p.events ++ e ∷ [] })

-- `ServiceContext::take_events`
unfoldable pub take_events : Parts → List Event × Parts
take_events p = (p.events, record p { events = [] })

-- A method of the state manager.
abbrev pub on_state : {A : Type 0} → Method State A → Method Parts A
on_state m p = let (r, s) = m p.state in (r, record p { state = s })

abbrev pub write : (State → State) → Method Parts (Unit {0})
write f p = (ok tt, record p { state = f p.state })

abbrev pub reads : {A : Type 0} → (State → A) → Method Parts A
reads f p = (ok (f p.state), p)
