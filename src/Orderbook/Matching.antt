-- ===== src/Orderbook/Matching.antt =====
-- `OrderbookManager::match_order` of crates/engine/src/orderbook.rs. Each of its loops is a function
-- by recursion on the list that the code collects first; what a loop changes is a record.
use pranklin.Base.{
  ℕ, ◌-◌, Bool, ◌&&◌, none, some, List, [], ◌∷◌, ◌++◌, reverse, ltb, ◌==◌, if◌then◌else◌, min,
  update, number_key, Result, ok, err, post_only_would_take,
}
use pranklin.Base.Words.{sub_u64}
use pranklin.Types.Order.{Order, OrderStatus, Fill}
use pranklin.State.{State, get_order, set_order, remove_active_order}
use pranklin.Orderbook.Book.{
  PriceLevel, is_empty_level, drop_order, Book, find, put, drop_price, keys,
}
use pranklin.Orderbook.Manager.{OrderbookManager, opposing_book, would_match}

-- What the loop over the orders of a level changes.
pub record LevelRun : Type 0 where
  pub fills : List Fill
  pub remaining : ℕ
  pub level : PriceLevel
  pub state : State

abbrev pub fill_of : Order → ℕ → ℕ → Order → ℕ → Fill
fill_of taker price maker_order_id maker size = record {
  maker = maker.owner;
  taker = taker.owner;
  market_id = taker.market_id;
  price = price;
  size = size;
  taker_is_buy = taker.is_buy;
  maker_order_id = maker_order_id;
  taker_order_id = taker.id;
}

unfoldable pub fill_maker : Order → ℕ → ℕ → Order → LevelRun → LevelRun
fill_maker taker price maker_order_id maker r =
    let fill_size = min r.remaining maker.remaining_size in
    let left = maker.remaining_size - fill_size in
    record {
      fills = r.fills ++ fill_of taker price maker_order_id maker fill_size ∷ [];
      remaining = r.remaining - fill_size;
      level = if left == 0 then drop_order maker_order_id fill_size r.level else record {
        orders = r.level.orders;
        total_size = sub_u64 r.level.total_size fill_size;
      };
      state =
          if left == 0
          then remove_active_order maker.market_id maker_order_id (
              set_order maker_order_id
                (record maker { remaining_size = left; status = OrderStatus.filled }) r.state)
          else set_order maker_order_id (record maker { remaining_size = left }) r.state;
    }

-- The two `continue`s: an order that is not in the state, and one of the taker's own.
unfoldable pub match_maker : Order → ℕ → ℕ → LevelRun → LevelRun
match_maker taker price maker_order_id r = elim (get_order r.state maker_order_id) [
  | none ↦ r
  | some maker ↦
      if maker.owner == taker.owner then r else fill_maker taker price maker_order_id maker r
]

unfoldable pub match_level : Order → ℕ → List ℕ → LevelRun → LevelRun
match_level taker price [] r = r
match_level taker price (maker_order_id ∷ ids) r =
    let rest = match_level taker price ids (match_maker taker price maker_order_id r) in
    if r.remaining == 0 then r else rest

-- What the loop over the prices changes.
pub record BookRun : Type 0 where
  pub fills : List Fill
  pub remaining : ℕ
  pub book : Book
  pub state : State

-- The two `break`s on a limit price; a price of 0 is a market order.
unfoldable pub beyond_limit : Order → ℕ → Bool
beyond_limit taker price =
    if taker.is_buy
    then ltb 0 taker.price && ltb taker.price price
    else ltb 0 taker.price && ltb price taker.price

unfoldable pub match_price : Order → ℕ → BookRun → BookRun
match_price taker price w = elim (find price w.book) [
  | none ↦ w
  | some level ↦
      let r =
        match_level taker price level.orders
          (record { fills = w.fills; remaining = w.remaining; level = level; state = w.state }) in
      record {
        fills = r.fills;
        remaining = r.remaining;
        book = if is_empty_level r.level then drop_price price w.book else put price r.level w.book;
        state = r.state;
      }
]

unfoldable pub match_prices : Order → List ℕ → BookRun → BookRun
match_prices taker [] w = w
match_prices taker (price ∷ prices) w =
    let w' = match_price taker price w in
    let rest = match_prices taker prices w' in
    if beyond_limit taker price then w else if w'.remaining == 0 then w' else rest

-- Best price first.
abbrev pub prices_for : Order → Book → List ℕ
prices_for taker book = if taker.is_buy then keys book else reverse (keys book)

abbrev pub store_book : Order → Book → OrderbookManager → OrderbookManager
store_book taker book ob =
    if taker.is_buy
    then record ob { asks = update ob.asks taker.market_id (some book) }
    else record ob { bids = update ob.bids taker.market_id (some book) }

abbrev pub sweep : Order → Book → State → BookRun
sweep taker book s =
    match_prices taker (prices_for taker book)
      (record { fills = []; remaining = taker.remaining_size; book = book; state = s })

unfoldable pub match_order :
    Order → OrderbookManager → State → Result (List Fill) × OrderbookManager × State
match_order taker ob s =
    if taker.post_only && would_match ob taker
    then (err post_only_would_take, ob, s)
    else elim (opposing_book ob taker) [
      | none ↦ (ok [], ob, s)
      | some book ↦ let w = sweep taker book s in (ok w.fills, store_book taker w.book ob, w.state)
    ]
