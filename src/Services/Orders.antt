-- ===== src/Services/Orders.antt =====
-- `OrderService` of crates/engine/src/services/order_service.rs, and `PositionService` and
-- `AgentService` beside it.
use pranklin.Base.{
  ℕ, ◌-◌, true, false, not, ◌&&◌, List, [], ◌∷◌, ltb, ◌==◌, if◌then◌else◌, min, Result, ok, err,
  Method, ◌>>=◌, ◌>>◌, pure, lift, require, ok_or, sum_by, market_not_found, order_not_found,
  position_not_found, order_not_filled, unauthorized, other,
}
use pranklin.Base.Words.{as_u64}
use pranklin.Types.Event.{Event}
use pranklin.Types.Market.{Market, validate_price}
use pranklin.Types.Order.{Order, OrderStatus, is_active, Fill, OrderType, TimeInForce}
use pranklin.Types.Tx.{PlaceOrderTx, CancelOrderTx, ClosePositionTx, SetAgentTx, RemoveAgentTx}
use pranklin.State.{
  get_market, get_order, set_order, get_position, next_order_id, add_active_order,
  remove_active_order,
}
use pranklin.Types.Position.{Position}
use pranklin.Position.{update_position}
use pranklin.Risk.{check_order_allowed}
use pranklin.Orderbook.Manager.{add_order, remove_order}
use pranklin.Orderbook.Matching.{match_order}
use pranklin.Services.Parts.{Parts, emit, on_state, write, reads}

-- Both positions move, the taker's first. The fees are 0.
unfoldable pub process_fill : Market → Fill → Method Parts (Unit {0})
process_fill market fill = do
  on_state (
      update_position fill.taker fill.market_id fill.size fill.price fill.taker_is_buy
        market.initial_margin_bps)
  on_state (
      update_position fill.maker fill.market_id fill.size fill.price (not fill.taker_is_buy)
        market.initial_margin_bps)
  emit (
      Event.order_filled fill.maker_order_id fill.taker_order_id fill.maker fill.taker
        fill.market_id fill.price fill.size fill.taker_is_buy 0 0)

unfoldable pub process_fills : Market → List Fill → Method Parts (Unit {0})
process_fills market [] p = (ok tt, p)
process_fills market (fill ∷ fills) p = (process_fill market fill >> process_fills market fills) p

unfoldable pub match_in_book : Order → Method Parts (List Fill)
match_in_book order p =
    let (r, ob, s) = match_order order p.orderbook p.state in
    (r, record p { orderbook = ob; state = s })

-- The order of a request, before it is matched.
abbrev pub order_of : ℕ → ℕ → ℕ → PlaceOrderTx → Order
order_of order_id trader version tx = record {
  id = order_id;
  market_id = tx.market_id;
  owner = trader;
  is_buy = tx.is_buy;
  price = tx.price;
  original_size = tx.size;
  remaining_size = tx.size;
  status = OrderStatus.active;
  created_at = version;
  reduce_only = tx.reduce_only;
  post_only = tx.post_only;
}

-- A rest that is kept in the book.
unfoldable pub rest_order : ℕ → Order → Method Parts (Unit {0})
rest_order order_id order = do
  write (set_order order_id order)
  write (add_active_order order.market_id order_id)
  λ p. (ok tt, record p { orderbook = add_order order_id order p.orderbook })

-- What becomes of the part that was not filled.
unfoldable pub finish_order : ℕ → Order → TimeInForce → Method Parts (Unit {0})
unfolding rest_order
finish_order order_id order time_in_force p =
    if order.remaining_size == 0
    then write (set_order order_id (record order { status = OrderStatus.filled })) p
    else elim time_in_force [
      | TimeInForce.gtc ↦ rest_order order_id (record order { status = OrderStatus.active }) p
      | TimeInForce.post_only ↦ rest_order order_id (record order { status = OrderStatus.active }) p
      | TimeInForce.ioc ↦
          write (set_order order_id (record order { status = OrderStatus.cancelled })) p
      | TimeInForce.fok ↦ (err order_not_filled, p)
    ]

-- The checks on the price and the size of a request.
unfoldable pub validate_request : Market → PlaceOrderTx → Result (Unit {0})
validate_request market tx =
    if ltb 0 tx.price && not (validate_price market tx.price)
    then err (other "Invalid price: not aligned with the tick boundary")
    else if ltb tx.size market.min_order_size
    then err (other "Order size is below minimum size")
    else if ltb market.max_order_size tx.size
    then err (other "Order size exceeds maximum size")
    else ok tt

-- After the match: the positions, the event, and the rest of the order.
unfoldable pub settle_order :
    ℕ → PlaceOrderTx → Market → Order → List Fill → Method Parts (Unit {0})
settle_order trader tx market order fills = do
  process_fills market fills
  let total_filled = as_u64 (sum_by (λ f. f.size) fills)
  emit (Event.order_placed order.id trader tx.market_id tx.is_buy tx.price tx.size tx.order_type)
  finish_order order.id (record order { remaining_size = order.remaining_size - total_filled })
      tx.time_in_force

-- After the checks, with the new id.
unfoldable pub fill_order : ℕ → PlaceOrderTx → Market → ℕ → Method Parts ℕ
unfolding settle_order
fill_order trader tx market order_id = do
  version ← reads (λ s. s.version)
  let order = order_of order_id trader version tx
  fills ← match_in_book order
  settle_order trader tx market order fills
  pure order_id

unfoldable pub place_order : ℕ → PlaceOrderTx → Method Parts ℕ
unfolding fill_order
place_order trader tx = do
  found ← reads (λ s. get_market s tx.market_id)
  market ← lift (ok_or found market_not_found)
  lift (validate_request market tx)
  λ p. (check_order_allowed p.state trader tx, p)
  order_id ← on_state next_order_id
  fill_order trader tx market order_id

unfoldable pub cancel_order : ℕ → CancelOrderTx → Method Parts (Unit {0})
cancel_order trader tx = do
  found ← reads (λ s. get_order s tx.order_id)
  order ← lift (ok_or found order_not_found)
  require (order.owner == trader) unauthorized
  require (is_active order.status) order_not_found
  λ p. (ok tt, record p { orderbook = remove_order tx.order_id order p.orderbook })
  write (set_order tx.order_id (record order { status = OrderStatus.cancelled }))
  write (remove_active_order order.market_id tx.order_id)
  emit (Event.order_cancelled tx.order_id trader order.market_id order.remaining_size)

-- `PositionService::close_position`: a reduce-only market order against the position.
abbrev pub closing_order : Position → ClosePositionTx → PlaceOrderTx
closing_order position tx = record {
  market_id = tx.market_id;
  is_buy = not position.is_long;
  order_type = OrderType.market;
  price = 0;
  size = if tx.size == 0 then position.size else min tx.size position.size;
  time_in_force = TimeInForce.ioc;
  reduce_only = true;
  post_only = false;
}

unfoldable pub close_position : ℕ → ClosePositionTx → Method Parts (Unit {0})
unfolding place_order
close_position trader tx = do
  found ← reads (λ s. get_position s trader tx.market_id)
  position ← lift (ok_or found position_not_found)
  place_order trader (closing_order position tx)
  pure tt

unfoldable pub set_agent : ℕ → SetAgentTx → Method Parts (Unit {0})
set_agent account tx = emit (Event.agent_set account tx.agent tx.permissions)

unfoldable pub remove_agent : ℕ → RemoveAgentTx → Method Parts (Unit {0})
remove_agent account tx = emit (Event.agent_removed account tx.agent)
