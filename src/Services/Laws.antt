-- ===== src/Services/Laws.antt =====
-- Orders that rest and that are cancelled: crates/engine/src/services/order_service.rs.
use pranklin.Base.{
  none, ◌-◌, Bool, ℕ, ◌≡◌, ◌≢◌, ◌⊎◌, refl, inl, inr, true, false, some, [], ◌∷◌, ◌++◌, arith, ◌&&◌,
  ◌==◌, if◌then◌else◌, ok, err, EngineError, unauthorized, order_not_found, order_not_filled,
  contains, contains-without, Bool-cases, Option-cases, Result-cases, market_not_found,
}
use pranklin.Types.Event.{Event}
use pranklin.Types.Order.{Order, OrderStatus, is_active, TimeInForce}
use pranklin.Types.Market.{Market}
use pranklin.Types.Tx.{CancelOrderTx, PlaceOrderTx}
use pranklin.State.{
  get_order, set_order, get_market, get_active_orders_by_market, remove_active_order,
}
use pranklin.State.Laws.{
  get_order-set_order, get_order-remove_active_order, active-remove_active_order,
  get_order-add_active_order,
}
use pranklin.Orderbook.Manager.{remove_order, get_orders_for_market}
use pranklin.Orderbook.Resting.{Ascending}
use pranklin.Orderbook.Standing.{orders_at, side_of, times, rests_at}
use pranklin.Orderbook.Removal.{remove_order-known, remove_order-times}
use pranklin.Risk.{check_order_allowed}
use pranklin.Services.Parts.{Parts}
use pranklin.Services.Orders.{rest_order, finish_order, validate_request, place_order, cancel_order}

-- What a cancellation that succeeds leaves.
abbrev cancelled_parts : ℕ → ℕ → Order → Parts → Parts
cancelled_parts trader id o p = record {
  state =
      remove_active_order o.market_id id
        (set_order id (record o { status = OrderStatus.cancelled }) p.state);
  orderbook = remove_order id o p.orderbook;
  events = p.events ++ Event.order_cancelled id trader o.market_id o.remaining_size ∷ [];
}

cancel_order_lem :
    (trader : ℕ) (tx : CancelOrderTx) (p : Parts) (o : Order)
    → get_order p.state tx.order_id ≡ some o
    → o.owner ≡ trader
    → is_active o.status ≡ true
    → cancel_order trader tx p ≡ (ok tt, cancelled_parts trader tx.order_id o p)
unfolding cancel_order
cancel_order_lem trader tx p o found mine live = ground arith

-- The owner of an active order cancels it: the order reads as cancelled, with its other fields
-- kept, and is no longer listed as active; no other order of the state changes, and the event is
-- emitted last. The book knows the order no more and does not list it in its market, the order stands
-- once less in the level of its price on its side of its market, and otherwise each order stands as
-- often at each price of each side of each market as before (the prices of that side ascend).
pub cancel_order-owner :
    (trader : ℕ) (tx : CancelOrderTx) (p : Parts) (o : Order)
    → get_order p.state tx.order_id ≡ some o
    → o.owner ≡ trader
    → is_active o.status ≡ true
    → Ascending 0 (side_of p.orderbook o.market_id o.is_buy)
    → let (r, p') = cancel_order trader tx p in
      (r ≡ ok tt)
      × (get_order p'.state tx.order_id ≡ some (record o { status = OrderStatus.cancelled }))
      × (contains tx.order_id (get_active_orders_by_market p'.state o.market_id) ≡ false)
      × ((j : ℕ) → (tx.order_id == j) ≡ false → get_order p'.state j ≡ get_order p.state j)
      × (p'.orderbook.orders tx.order_id ≡ none)
      × (contains tx.order_id (get_orders_for_market p'.orderbook o.market_id) ≡ false)
      × ((market_id : ℕ) (is_buy : Bool) (price j : ℕ)
          → let there = times j (orders_at price (side_of p.orderbook market_id is_buy)) in
            times j (orders_at price (side_of p'.orderbook market_id is_buy))
            ≡ (if j == tx.order_id && rests_at market_id is_buy price o then there - 1 else there))
      × (p'.events
          ≡ p.events ++ Event.order_cancelled tx.order_id trader o.market_id o.remaining_size ∷ [])
cancel_order-owner trader tx p o found mine live order =
    let id = tx.order_id in
    let o' = record o { status = OrderStatus.cancelled } in
    let s₁ = set_order id o' p.state in
    rw (cancel_order_lem trader tx p o found mine live) (
      refl,
      ground (
        arith,
        get_order-remove_active_order o.market_id id id s₁,
        get_order-set_order id id o' p.state,
      ),
      ground (
        arith,
        active-remove_active_order o.market_id id o.market_id s₁,
        contains-without id (get_active_orders_by_market s₁ o.market_id),
      ),
      λ j other. ground (
        arith,
        get_order-remove_active_order o.market_id id j s₁,
        get_order-set_order id j o' p.state,
      ),
      (remove_order-known id o p.orderbook).0,
      (remove_order-known id o p.orderbook).1,
      λ market_id is_buy price j.
          remove_order-times id o p.orderbook market_id is_buy price j order,
      refl,
    )

-- A cancellation of an unknown order, of another trader's order, or of an order that is not active
-- fails and changes nothing.
pub cancel_order_refused :
    (trader : ℕ) (tx : CancelOrderTx) (p : Parts)
    → ((o : Order)
        → get_order p.state tx.order_id ≡ some o
        → (o.owner == trader && is_active o.status) ≡ false)
    → (e : EngineError) × (cancel_order trader tx p ≡ (err e, p))
unfolding cancel_order
cancel_order_refused trader tx p h = elim (Option-cases (get_order p.state tx.order_id)) [
  | inl unknown ↦ (order_not_found, ground arith)
  | inr (o, found) ↦ elim (Bool-cases (o.owner == trader)) [
    | inl mine ↦ (order_not_found, ground (arith, h o found))
    | inr theirs ↦ (unauthorized, ground (arith, h o found))
  ]
]

-- The status that an order is stored with: filled if nothing remains, else by its time in force.
abbrev pub status_after : ℕ → TimeInForce → OrderStatus
status_after remaining time_in_force =
    if remaining == 0 then OrderStatus.filled else elim time_in_force [
      | TimeInForce.gtc ↦ OrderStatus.active
      | TimeInForce.post_only ↦ OrderStatus.active
      | TimeInForce.ioc ↦ OrderStatus.cancelled
      | TimeInForce.fok ↦ OrderStatus.active
    ]

-- An order that is finished with success is stored with what remains of it: as filled if nothing
-- does, as active (gtc and post-only) and then in the book, or as cancelled (ioc). A fill-or-kill order with a
-- rest fails, and leaves the parts as its fills made them.
pub finish_order-stores :
    (order_id : ℕ) (o : Order) (time_in_force : TimeInForce) (p : Parts)
    → let (r, p') = finish_order order_id o time_in_force p in
      ((r ≡ ok tt)
        × (get_order p'.state order_id
            ≡ some (record o { status = status_after o.remaining_size time_in_force })))
      ⊎ ((r ≡ err order_not_filled)
          × (time_in_force ≡ TimeInForce.fok)
          × (o.remaining_size ≢ 0)
          × (p' ≡ p))
unfolding finish_order rest_order
finish_order-stores order_id o time_in_force p =
    let o' = record o { status = status_after o.remaining_size time_in_force } in
    ground (
      arith,
      get_order-set_order order_id order_id o' p.state,
      get_order-add_active_order o.market_id order_id order_id (set_order order_id o' p.state),
    )

-- A request for an unknown market, or one that the checks on price and size or the risk checks
-- refuse, fails and changes nothing.
pub place_order_refused :
    (trader : ℕ) (tx : PlaceOrderTx) (p : Parts)
    → ((market : Market)
        → get_market p.state tx.market_id ≡ some market
        → (validate_request market tx ≢ ok tt) ⊎ (check_order_allowed p.state trader tx ≢ ok tt))
    → (e : EngineError) × (place_order trader tx p ≡ (err e, p))
unfolding place_order
place_order_refused trader tx p h = elim (Option-cases (get_market p.state tx.market_id)) [
  | inl unknown ↦ (market_not_found, ground arith)
  | inr (market, found) ↦ elim (Result-cases (validate_request market tx)) [
    | inl (e, bad) ↦ (e, ground arith)
    | inr (u, good) ↦ elim (Result-cases (check_order_allowed p.state trader tx)) [
      | inl (e, unsafe) ↦ (e, ground arith)
      | inr (v, safe) ↦ absurd (ground (arith, h market found))
    ]
  ]
]
