-- ===== src/Engine/Restored.antt =====
-- The levels of a rebuilt order book: `rebuild_orderbook_from_state` of crates/engine/src/lib.rs.
use pranklin.Base.{
  ℕ, ◌≡◌, refl, ap, Bool, false, ◌&&◌, ◌||◌, ◌==◌, Option, none, some, List, [], ◌∷◌, contains,
  arith, if◌then◌else◌, number_key, Option-cases, Bool-cases, inl, inr,
}
use pranklin.Types.Order.{Order}
use pranklin.State.{State, get_order, get_active_orders_by_market, list_all_markets}
use pranklin.Orderbook.Manager.{OrderbookManager, new}
use pranklin.Orderbook.Standing.{orders_at, side_of, rests_at, add_order-standing, new-standing}
use pranklin.Engine.Defs.{
  Engine, restore_order, restore_orders, restore_markets, rebuild_orderbook_from_state,
}
use pranklin.Engine.Rebuild.{
  restorable, is_listed, restorable_same, restore_order-get_order, restore_orders-get_order,
  restore_orders-is_listed, rebuild_orderbook_from_state-orders,
}

-- Whether an order, if there is one, rests on a side of a market at a price.
abbrev pub would_rest : ℕ → Bool → ℕ → Option Order → Bool
would_rest market_id is_buy price none = false
would_rest market_id is_buy price (some o) = rests_at market_id is_buy price o

module _ (market_id : ℕ) (is_buy : Bool) (price id : ℕ) where
  abbrev stands : OrderbookManager → Bool
  stands book = contains id (orders_at price (side_of book market_id is_buy))

  restore_order-stands :
      (m i : ℕ) (s : State) (book : OrderbookManager)
      → stands (restore_order m i s book).1
        ≡ ((i == id && would_rest market_id is_buy price (restorable s id)) || stands book)
  unfolding restore_order
  restore_order-stands m i s book = elim (Bool-cases (i == id)) [
    | inl same ↦
        let own : i ≡ id = ground (arith, same) in
        let orders : get_order s i ≡ get_order s id = ap (get_order s) own in
        elim (Option-cases (get_order s id)) [
          | inl missing ↦ ground (arith, orders, missing)
          | inr (o, there) ↦
              let added = add_order-standing i o book market_id is_buy price id in
              ground (arith, orders, there, added, same)
        ]
    | inr other ↦ elim (Option-cases (get_order s i)) [
      | inl missing ↦ ground (arith, missing, other)
      | inr (o, there) ↦
          let added = add_order-standing i o book market_id is_buy price id in
          ground (arith, there, added, other)
    ]
  ]

  restore_orders-stands :
      (m : ℕ) (ids : List ℕ) (s : State) (book : OrderbookManager)
      → stands (restore_orders m ids s book).1
        ≡ ((contains id ids && would_rest market_id is_buy price (restorable s id)) || stands book)
  unfolding restore_orders
  restore_orders-stands m [] s book = refl
  restore_orders-stands m (i ∷ ids) s book =
      let (s', book') = restore_order m i s book in
      let now = restore_order-stands m i s book in
      let later = restore_orders-stands m ids s' book' in
      let same = restorable_same s s' id (restore_order-get_order m i s book id) in
      let may = ap (would_rest market_id is_buy price) same in ground (arith, now, later, may)

  restore_markets-stands :
      (markets : List ℕ) (s : State) (book : OrderbookManager)
      → stands (restore_markets markets s book).1 ≡ (
          (is_listed s markets id && would_rest market_id is_buy price (restorable s id))
          || stands book)
  unfolding restore_markets
  restore_markets-stands [] s book = refl
  restore_markets-stands (m ∷ markets) s book =
      let ids = get_active_orders_by_market s m in
      let (s', book') = restore_orders m ids s book in
      let now = restore_orders-stands m ids s book in
      let later = restore_markets-stands markets s' book' in
      let same = restorable_same s s' id (restore_orders-get_order m ids s book id) in
      let may = ap (would_rest market_id is_buy price) same in
      elim (Option-cases (restorable s id)) [
        | inl never ↦
            let off = ap (would_rest market_id is_buy price) never in
            ground (arith, now, later, may, off)
        | inr (o, rests) ↦
            let listed = restore_orders-is_listed m ids s book id o markets rests in
            ground (arith, now, later, may, listed)
      ]

  -- A rebuilt book knows exactly the orders that are active with some size left and that the list of
  -- active orders of a listed market names, each as the state has it; such an order, and no other,
  -- stands among the orders of a price of the bids or the asks of a market exactly if it is its
  -- market, its side and its price; and no order of the state changes.
  pub rebuild_orderbook_from_state-book :
      (e : Engine)
      → let s = e.parts.state in
        let rebuilt = rebuild_orderbook_from_state e in
        let listed = is_listed s (list_all_markets s) id in
        (rebuilt.parts.orderbook.orders id ≡ (if listed then restorable s id else none))
        × (contains id (orders_at price (side_of rebuilt.parts.orderbook market_id is_buy))
            ≡ (listed && would_rest market_id is_buy price (restorable s id)))
        × (get_order rebuilt.parts.state id ≡ get_order s id)
  unfolding rebuild_orderbook_from_state
  rebuild_orderbook_from_state-book e =
      let s = e.parts.state in
      let known = rebuild_orderbook_from_state-orders e id in
      let levels = restore_markets-stands (list_all_markets s) s new in
      let empty = new-standing market_id is_buy price id in
      (known.0, ground (arith, levels, empty), known.1)
