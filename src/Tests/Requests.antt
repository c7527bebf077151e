-- ===== src/Tests/Requests.antt =====
-- Requests: the risk checks, fills between two traders, cancellations, refusals.
use pranklin.Base.{
  none, ◌-◌, ◌==◌, if◌then◌else◌, Bool, sym, ◌∙◌, ℕ, ◌*◌, ◌/◌, ◌<◌, ◌≤◌, ◌≡◌, ◌≢◌, ◌++◌, refl, true,
  false, none, some, [], ◌∷◌, ok, arith, contains, ◌==◌, ◌&&◌, ◌||◌,
}
use pranklin.Base.Int.{◌+ℤ◌}
use pranklin.Base.Words.{fit}
use pranklin.Storage.{get, set, delete, fresh, scan_back, get_value_option}
use pranklin.Types.Event.{Event}
use pranklin.Types.Order.{Order, OrderStatus, OrderType, TimeInForce, is_active, Fill}
use pranklin.Types.Tx.{PlaceOrderTx, CancelOrderTx}
use pranklin.State.{
  init, get_asset, set_asset, get_balance, set_balance, get_position, set_position, delete_position,
  update_position_index, remove_from_position_index, get_market, set_market, get_order, set_order,
  add_active_order, get_active_orders_by_market, remove_active_order,
}
use pranklin.Position.{same_side, update_position, open_position, calculate_initial_margin}
use pranklin.Position.Exposure.{exposure}
use pranklin.Risk.{check_order_allowed, existing_margin, check_leverage, check_reduce_only}
use pranklin.Risk.Orders.{order_margin, check_order_allowed-margin, check_order_allowed-reduce_only}
use pranklin.Orderbook.Manager.{get_orders_for_market, add_order, new, join_book}
use pranklin.Orderbook.Book.{find, put, push_order}
use pranklin.Orderbook.Resting.{Ascending}
use pranklin.Orderbook.Standing.{orders_at, side_of, times, rests_at}
use pranklin.Services.Parts.{Parts}
use pranklin.Services.Orders.{process_fill, cancel_order}
use pranklin.Services.Fills.{CanTrade, process_fill-zero_sum}
use pranklin.Services.Laws.{cancel_order-owner}
use pranklin.Tests.Samples.{
  sample_market, long_ten, open_market, holding, with_asks, ask_book, resting, parts_of,
}

abbrev request : ℕ → ℕ → PlaceOrderTx
request price size = record {
  market_id = 0;
  is_buy = true;
  order_type = OrderType.limit;
  price = price;
  size = size;
  time_in_force = TimeInForce.gtc;
  reduce_only = false;
  post_only = false;
}

known : get_market open_market 0 ≡ some sample_market
unfolding get set delete fresh scan_back get_value_option init get_asset set_asset get_balance
    set_balance get_position set_position delete_position update_position_index
    remove_from_position_index get_market set_market
known = refl

accepted : check_order_allowed open_market 2 (request 100 10) ≡ ok tt
unfolding check_order_allowed existing_margin check_leverage check_reduce_only fit get set delete
    fresh scan_back get_value_option init get_asset set_asset get_balance set_balance get_position
    set_position delete_position update_position_index remove_from_position_index get_market
    set_market
accepted = refl

check_order_allowed-margin_example :
    (order_margin sample_market (request 100 10) ≤ get_balance open_market 2 0)
    × (false ≡ false
        → 0 < 100
        → (0 < order_margin sample_market (request 100 10))
          × (10 * 100 / order_margin sample_market (request 100 10) ≤ 20))
check_order_allowed-margin_example =
    check_order_allowed-margin open_market 2 (request 100 10) sample_market known (omega arith)
      accepted

abbrev reducing : PlaceOrderTx
reducing = record (request 0 10) { is_buy = false; reduce_only = true }

reduces : check_order_allowed holding 2 reducing ≡ ok tt
unfolding check_order_allowed existing_margin check_leverage check_reduce_only fit get set delete
    fresh scan_back get_value_option init get_asset set_asset get_balance set_balance get_position
    set_position delete_position update_position_index remove_from_position_index get_market
    set_market
reduces = refl

check_order_allowed-reduce_only_example :
    (get_position holding 2 0 ≢ none)
    × (get_position holding 2 0 ≡ some long_ten → (same_side false true ≡ false) × (10 ≤ 10))
check_order_allowed-reduce_only_example =
    check_order_allowed-reduce_only holding 2 reducing long_ten refl reduces

flat : get_position open_market 1 0 ≡ none
unfolding get set delete fresh scan_back get_value_option init get_asset set_asset get_balance
    set_balance get_position set_position delete_position update_position_index
    remove_from_position_index get_market set_market
flat = refl

abbrev fill : Fill
fill = record {
  maker = 1;
  taker = 2;
  market_id = 0;
  price = 100;
  size = 4;
  taker_is_buy = true;
  maker_order_id = 1;
  taker_order_id = 9;
}

abbrev before : Parts
before = parts_of open_market

abbrev after : Parts
after = (process_fill sample_market fill before).1

fills : process_fill sample_market fill before ≡ (ok tt, after)
unfolding process_fill update_position open_position calculate_initial_margin fit get set delete
    fresh scan_back get_value_option init get_asset set_asset get_balance set_balance get_position
    set_position delete_position update_position_index remove_from_position_index get_market
    set_market
fills = refl

trader_1-CanTrade : CanTrade open_market 1 0 4
unfolding get set delete fresh scan_back get_value_option init get_asset set_asset get_balance
    set_balance get_position set_position delete_position update_position_index
    remove_from_position_index get_market set_market
trader_1-CanTrade = record { fits = omega arith; new = refl }

trader_2-CanTrade : CanTrade open_market 2 0 4
unfolding get set delete fresh scan_back get_value_option init get_asset set_asset get_balance
    set_balance get_position set_position delete_position update_position_index
    remove_from_position_index get_market set_market
trader_2-CanTrade = record { fits = omega arith; new = refl }

process_fill-zero_sum_example :
    (exposure (get_position after.state 2 0) +ℤ exposure (get_position after.state 1 0)
      ≡ exposure (get_position before.state 2 0) +ℤ exposure (get_position before.state 1 0))
    × ((b n : ℕ)
        → (0 == n && (2 == b || 1 == b)) ≡ false
        → get_position after.state b n ≡ get_position before.state b n)
process_fill-zero_sum_example =
    process_fill-zero_sum sample_market fill before after refl trader_2-CanTrade trader_1-CanTrade
      fills

abbrev listed : Parts
listed = parts_of with_asks

abbrev cancel_first : CancelOrderTx
cancel_first = record { order_id = 1 }

stored : get_order with_asks 1 ≡ some (resting 1 1 100 4)
unfolding get set delete fresh scan_back get_value_option init get_asset set_asset get_balance
    set_balance get_position set_position delete_position update_position_index
    remove_from_position_index get_market set_market get_order set_order add_active_order
    get_active_orders_by_market remove_active_order
stored = refl

live : is_active OrderStatus.active ≡ true
unfolding is_active
live = refl

asks_ascend : Ascending 0 (side_of ask_book 0 false)
unfolding add_order new join_book push_order put find
asks_ascend = (omega arith, (omega arith, tt))

stands_once : times 1 (orders_at 100 (side_of ask_book 0 false)) ≡ 1
unfolding add_order new join_book push_order put find orders_at
stands_once = refl

cancel_order-owner_example :
    let (r, p') = cancel_order 1 cancel_first listed in
    (r ≡ ok tt)
    × (get_order p'.state 1 ≡ some (record (resting 1 1 100 4) { status = OrderStatus.cancelled }))
    × (contains 1 (get_active_orders_by_market p'.state 0) ≡ false)
    × ((j : ℕ) → (1 == j) ≡ false → get_order p'.state j ≡ get_order with_asks j)
    × (p'.orderbook.orders 1 ≡ none)
    × (contains 1 (get_orders_for_market p'.orderbook 0) ≡ false)
    × ((market_id : ℕ) (is_buy : Bool) (price j : ℕ)
        → let there = times j (orders_at price (side_of ask_book market_id is_buy)) in
          times j (orders_at price (side_of p'.orderbook market_id is_buy)) ≡ (
            if j == 1 && rests_at market_id is_buy price (resting 1 1 100 4)
            then there - 1
            else there))
    × (p'.events ≡ [] ++ Event.order_cancelled 1 1 0 4 ∷ [])
cancel_order-owner_example =
    cancel_order-owner 1 cancel_first listed (resting 1 1 100 4) stored refl live asks_ascend

not_owned :
    (o : Order) → get_order with_asks 1 ≡ some o → (o.owner == 2 && is_active o.status) ≡ false
not_owned o e =
    let same : some (resting 1 1 100 4) ≡ some o = sym stored ∙ e in
    let whole : resting 1 1 100 4 ≡ o = cc in rw (sym whole) refl
