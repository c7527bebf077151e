-- ===== src/Orderbook/Manager.antt =====
-- `OrderbookManager` of crates/engine/src/orderbook.rs, but for matching: resting orders come and go,
-- and the queries. A `HashMap` is a function.
use pranklin.Base.{
  ℕ, Bool, true, false, Option, none, some, List, [], ◌∷◌, reverse, take, leb, ◌==◌, if◌then◌else◌,
  insert_new, without, update, number_key,
}
use pranklin.Types.Order.{Order}
use pranklin.Orderbook.Book.{
  PriceLevel, empty_level, push_order, drop_order, is_empty_level, Book, find, put, drop_price,
  keys, first_of, last_of,
}

pub record OrderbookManager : Type 0 where
  pub orders : ℕ → Option Order
  pub orders_by_market : ℕ → Option (List ℕ)
  pub bids : ℕ → Option Book
  pub asks : ℕ → Option Book

unfoldable pub new : OrderbookManager
new = record {
  orders = λ _. none;
  orders_by_market = λ _. none;
  bids = λ _. none;
  asks = λ _. none;
}

-- `entry(…).or_default()`
abbrev pub or_empty {ℓ} : {A : Type ℓ} → Option (List A) → List A
or_empty none = []
or_empty (some xs) = xs

abbrev pub or_new : Option PriceLevel → PriceLevel
or_new none = empty_level
or_new (some l) = l

-- A resting order joins the end of the level of its price.
unfoldable pub join_book : ℕ → ℕ → ℕ → Book → Book
join_book order_id price size book =
    put price (push_order order_id size (or_new (find price book))) book

-- An order leaves its level, and an empty level leaves the book.
unfoldable pub leave_book : ℕ → ℕ → ℕ → Book → Book
leave_book order_id price size book = elim (find price book) [
  | none ↦ book
  | some l ↦
      let l' = drop_order order_id size l in
      if is_empty_level l' then drop_price price book else put price l' book
]

abbrev pub map_entry {ℓ} : {A : Type ℓ} → (A → A) → ℕ → (ℕ → Option A) → ℕ → Option A
map_entry f k m = elim (m k) [ none ↦ m | some a ↦ update m k (some (f a)) ]

unfoldable pub add_order : ℕ → Order → OrderbookManager → OrderbookManager
unfolding join_book
add_order order_id o ob =
    let ids = insert_new order_id (or_empty (ob.orders_by_market o.market_id)) in
    let side = λ (books : ℕ → Option Book).
      update books o.market_id
        (some (join_book order_id o.price o.remaining_size (or_empty (books o.market_id)))) in
    record {
      orders = update ob.orders order_id (some o);
      orders_by_market = update ob.orders_by_market o.market_id (some ids);
      bids = if o.is_buy then side ob.bids else ob.bids;
      asks = if o.is_buy then ob.asks else side ob.asks;
    }

unfoldable pub remove_order : ℕ → Order → OrderbookManager → OrderbookManager
unfolding leave_book
remove_order order_id o ob =
    let side = map_entry (leave_book order_id o.price o.remaining_size) o.market_id in
    record {
      orders = update ob.orders order_id none;
      orders_by_market = map_entry (without order_id) o.market_id ob.orders_by_market;
      bids = if o.is_buy then side ob.bids else ob.bids;
      asks = if o.is_buy then ob.asks else side ob.asks;
    }

-- The book that an order trades against, and its best price for that order.
abbrev pub opposing_book : OrderbookManager → Order → Option Book
opposing_book ob o = if o.is_buy then ob.asks o.market_id else ob.bids o.market_id

abbrev pub best_for : Order → Book → Option ℕ
best_for o book = if o.is_buy then first_of (keys book) else last_of (keys book)

unfoldable pub would_match : OrderbookManager → Order → Bool
would_match ob o = elim (opposing_book ob o) [
  | none ↦ false
  | some book ↦ elim (best_for o book) [
    | none ↦ false
    | some best ↦
        if o.price == 0 then true else if o.is_buy then leb best o.price else leb o.price best
  ]
]

unfoldable pub get_orders_for_market : OrderbookManager → ℕ → List ℕ
get_orders_for_market ob market_id = or_empty (ob.orders_by_market market_id)

unfoldable pub get_best_bid : OrderbookManager → ℕ → Option ℕ
get_best_bid ob market_id = elim (ob.bids market_id) [ none ↦ none | some b ↦ last_of (keys b) ]

unfoldable pub get_best_ask : OrderbookManager → ℕ → Option ℕ
get_best_ask ob market_id = elim (ob.asks market_id) [ none ↦ none | some b ↦ first_of (keys b) ]

abbrev pub depth_of : Book → List (ℕ × ℕ)
depth_of [] = []
depth_of ((p, l) ∷ book) = (p, l.total_size) ∷ depth_of book

unfoldable pub get_depth : OrderbookManager → ℕ → ℕ → List (ℕ × ℕ) × List (ℕ × ℕ)
get_depth ob market_id levels = (
  take levels (reverse (depth_of (or_empty (ob.bids market_id)))),
  take levels (depth_of (or_empty (ob.asks market_id))),
)
