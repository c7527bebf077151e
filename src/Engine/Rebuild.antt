-- ===== src/Engine/Rebuild.antt =====
-- The order book after a restart: `rebuild_orderbook_from_state` of crates/engine/src/lib.rs.
use pranklin.Base.{
  ℕ, ◌≡◌, Bool, false, ◌||◌, Option, none, some, List, [], ◌∷◌, contains, without, arith, refl, ◌∙◌,
  ◌==◌, if◌then◌else◌, number_key, Option-cases, inl, inr,
}
use pranklin.Types.Order.{Order}
use pranklin.State.{State, get_order, get_active_orders_by_market, list_all_markets}
use pranklin.State.Laws.{active-remove_active_order, get_order-remove_active_order}
use pranklin.Orderbook.Manager.{OrderbookManager, new, add_order}
use pranklin.Engine.Defs.{
  Engine, is_restorable, restore_order, restore_orders, restore_markets,
  rebuild_orderbook_from_state,
}

-- The order that an identifier has in the state, if it may rest in the book.
abbrev pub restorable : State → ℕ → Option Order
restorable s id = elim (get_order s id) [
  | none ↦ none
  | some o ↦ if is_restorable o then some o else none
]

-- Whether a market among these lists an order as active.
abbrev pub is_listed : State → List ℕ → ℕ → Bool
is_listed s [] id = false
is_listed s (m ∷ markets) id =
    contains id (get_active_orders_by_market s m) || is_listed s markets id

contains-without_other :
    (a b : ℕ) (xs : List ℕ) → (a == b) ≡ false → contains a (without b xs) ≡ contains a xs
contains-without_other a b [] h = refl
contains-without_other a b (x ∷ xs) h = ground (arith, contains-without_other a b xs h)

pub restore_order-get_order :
    (m i : ℕ) (s : State) (book : OrderbookManager) (id : ℕ)
    → get_order (restore_order m i s book).0 id ≡ get_order s id
unfolding restore_order
restore_order-get_order m i s book id = ground (arith, get_order-remove_active_order m i id s)

-- Restoring one order keeps the lists of the orders that may rest.
restore_order-listed :
    (m i : ℕ) (s : State) (book : OrderbookManager) (id k : ℕ) (o : Order)
    → restorable s id ≡ some o
    → contains id (get_active_orders_by_market (restore_order m i s book).0 k)
      ≡ contains id (get_active_orders_by_market s k)
unfolding restore_order
restore_order-listed m i s book id k o may = ground (
  arith,
  active-remove_active_order m i k s,
  contains-without_other id i (get_active_orders_by_market s m),
)

restore_order-orders :
    (m i : ℕ) (s : State) (book : OrderbookManager) (id : ℕ)
    → (restore_order m i s book).1.orders id ≡ (
        if i == id
        then (elim (restorable s id) [ none ↦ book.orders id | some o ↦ some o ])
        else book.orders id)
unfolding restore_order add_order
restore_order-orders m i s book id = ground arith

-- What stands in the book for an order that is put back.
abbrev pub put_back : Option Order → Option Order → Option Order
put_back none was = was
put_back (some o) was = some o

pub restorable_same :
    (s t : State) (id : ℕ) → get_order t id ≡ get_order s id → restorable t id ≡ restorable s id
restorable_same s t id h = ground (arith, h)

pub restore_orders-get_order :
    (m : ℕ) (ids : List ℕ) (s : State) (book : OrderbookManager) (id : ℕ)
    → get_order (restore_orders m ids s book).0 id ≡ get_order s id
unfolding restore_orders
restore_orders-get_order m [] s book id = refl
restore_orders-get_order m (i ∷ ids) s book id =
    let (s', book') = restore_order m i s book in
    restore_orders-get_order m ids s' book' id ∙ restore_order-get_order m i s book id

restore_orders-listed :
    (m : ℕ) (ids : List ℕ) (s : State) (book : OrderbookManager) (id k : ℕ) (o : Order)
    → restorable s id ≡ some o
    → contains id (get_active_orders_by_market (restore_orders m ids s book).0 k)
      ≡ contains id (get_active_orders_by_market s k)
unfolding restore_orders
restore_orders-listed m [] s book id k o may = refl
restore_orders-listed m (i ∷ ids) s book id k o may =
    let (s', book') = restore_order m i s book in
    restore_orders-listed m ids s' book' id k o
      (restorable_same s s' id (restore_order-get_order m i s book id) ∙ may)
    ∙ restore_order-listed m i s book id k o may

restore_orders-orders :
    (m : ℕ) (ids : List ℕ) (s : State) (book : OrderbookManager) (id : ℕ)
    → (restore_orders m ids s book).1.orders id
      ≡ (if contains id ids then put_back (restorable s id) (book.orders id) else book.orders id)
unfolding restore_orders
restore_orders-orders m [] s book id = refl
restore_orders-orders m (i ∷ ids) s book id =
    let (s', book') = restore_order m i s book in
    ground (
      arith,
      restore_orders-orders m ids s' book' id,
      restore_order-orders m i s book id,
      restorable_same s s' id (restore_order-get_order m i s book id),
    )

pub restore_orders-is_listed :
    (m : ℕ) (ids : List ℕ) (s : State) (book : OrderbookManager) (id : ℕ) (o : Order)
    (markets : List ℕ)
    → restorable s id ≡ some o
    → is_listed (restore_orders m ids s book).0 markets id ≡ is_listed s markets id
restore_orders-is_listed m ids s book id o [] may = refl
restore_orders-is_listed m ids s book id o (k ∷ markets) may = ground (
  arith,
  restore_orders-listed m ids s book id k o may,
  restore_orders-is_listed m ids s book id o markets may,
)

restore_markets-get_order :
    (markets : List ℕ) (s : State) (book : OrderbookManager) (id : ℕ)
    → get_order (restore_markets markets s book).0 id ≡ get_order s id
unfolding restore_markets
restore_markets-get_order [] s book id = refl
restore_markets-get_order (m ∷ markets) s book id =
    let ids = get_active_orders_by_market s m in
    let (s', book') = restore_orders m ids s book in
    restore_markets-get_order markets s' book' id ∙ restore_orders-get_order m ids s book id

restore_markets-orders :
    (markets : List ℕ) (s : State) (book : OrderbookManager) (id : ℕ)
    → (restore_markets markets s book).1.orders id ≡ (
        if is_listed s markets id
        then put_back (restorable s id) (book.orders id)
        else book.orders id)
unfolding restore_markets
restore_markets-orders [] s book id = refl
restore_markets-orders (m ∷ markets) s book id =
    let ids = get_active_orders_by_market s m in
    let (s', book') = restore_orders m ids s book in
    let now = restore_orders-orders m ids s book id in
    let later = restore_markets-orders markets s' book' id in
    let same = restorable_same s s' id (restore_orders-get_order m ids s book id) in
    elim (Option-cases (restorable s id)) [
      | inl never ↦ ground (arith, now, later, same)
      | inr (o, may) ↦
          ground (arith, now, later, same, restore_orders-is_listed m ids s book id o markets may)
    ]

-- A rebuilt book holds exactly the orders that are active with some size left and that the list of
-- active orders of a listed market names, each as the state has it, and no order of the state changes.
pub rebuild_orderbook_from_state-orders :
    (e : Engine) (id : ℕ)
    → let s = e.parts.state in
      let rebuilt = rebuild_orderbook_from_state e in
      (rebuilt.parts.orderbook.orders id
        ≡ (if is_listed s (list_all_markets s) id then restorable s id else none))
      × (get_order rebuilt.parts.state id ≡ get_order s id)
unfolding rebuild_orderbook_from_state new
rebuild_orderbook_from_state-orders e id =
    let s = e.parts.state in
    (
      ground (arith, restore_markets-orders (list_all_markets s) s new id),
      restore_markets-get_order (list_all_markets s) s new id,
    )
