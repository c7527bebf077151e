-- ===== src/Tests/Books.antt =====
-- The order book: a sweep through two levels, a post-only order, an order that rests and leaves.
use pranklin.Base.Words.{u64_mod}
use pranklin.Base.{
  ℕ, some, ◌<◌, ◌+◌, ◌≡◌, ◌≤◌, refl, true, List, [], ◌∷◌, ok, err, post_only_would_take, arith, All,
  if◌then◌else◌,
}
use pranklin.Storage.{get, set, delete, fresh, scan_back, get_value_option}
use pranklin.Types.Order.{Order, Fill}
use pranklin.State.{
  State, init, get_asset, set_asset, get_balance, set_balance, get_position, set_position,
  delete_position, update_position_index, remove_from_position_index, get_market, set_market,
  get_order, set_order, add_active_order, get_active_orders_by_market, remove_active_order,
}
use pranklin.Orderbook.Book.{Book, find, put, drop_price, push_order, drop_order}
use pranklin.Orderbook.Manager.{
  OrderbookManager, new, or_new, add_order, join_book, would_match, opposing_book,
}
use pranklin.Orderbook.Matching.{
  match_order, match_prices, match_price, match_level, match_maker, fill_maker, beyond_limit,
}
use pranklin.Orderbook.Conservation.{open_size, total_filled, filled_from, match_order-Balanced}
use pranklin.Orderbook.Fills.{Allowed, match_order-Allowed}
use pranklin.Orderbook.PostOnly.{match_order-post_only}
use pranklin.Orderbook.Resting.{IsBook}
use pranklin.Orderbook.Priority.{FillsBestFirst, match_order-FillsBestFirst}
use pranklin.Tests.Samples.{with_asks, ask_book, buyer}

abbrev swept : List Fill
swept =
    record {
      maker = 1;
      taker = 2;
      market_id = 0;
      price = 100;
      size = 4;
      taker_is_buy = true;
      maker_order_id = 1;
      taker_order_id = 9;
    }
    ∷ record {
      maker = 1;
      taker = 2;
      market_id = 0;
      price = 110;
      size = 3;
      taker_is_buy = true;
      maker_order_id = 2;
      taker_order_id = 9;
    }
    ∷ []

abbrev book_after : OrderbookManager
book_after = (match_order (buyer 110 7) ask_book with_asks).1

abbrev state_after : State
state_after = (match_order (buyer 110 7) ask_book with_asks).2

sweeps : match_order (buyer 110 7) ask_book with_asks ≡ (ok swept, book_after, state_after)
unfolding match_order would_match match_prices match_price match_level match_maker fill_maker
    beyond_limit add_order join_book push_order new find put drop_price drop_order get set delete
    fresh scan_back get_value_option init get_asset set_asset get_balance set_balance get_position
    set_position delete_position update_position_index remove_from_position_index get_market
    set_market get_order set_order add_active_order get_active_orders_by_market remove_active_order
sweeps = refl

match_order-Balanced_example :
    (total_filled swept ≤ 7)
    × ((i : ℕ) → open_size state_after i + filled_from i swept ≡ open_size with_asks i)
match_order-Balanced_example =
    match_order-Balanced (buyer 110 7) ask_book book_after with_asks sweeps

match_order-Allowed_example : All (Allowed (buyer 110 7)) swept
match_order-Allowed_example = match_order-Allowed (buyer 110 7) ask_book book_after with_asks sweeps

abbrev two_levels : Book
two_levels =
    (100, record { orders = 1 ∷ []; total_size = 4 })
    ∷ (110, record { orders = 2 ∷ []; total_size = 5 })
    ∷ []

its_book : opposing_book ask_book (buyer 110 7) ≡ some two_levels
unfolding add_order join_book push_order new find put
its_book = refl

match_order-FillsBestFirst_example : FillsBestFirst true swept
match_order-FillsBestFirst_example =
    match_order-FillsBestFirst (buyer 110 7) ask_book book_after with_asks state_after two_levels
      swept its_book (omega arith, (omega arith, tt)) sweeps

abbrev post_only_buyer : Order
post_only_buyer = record (buyer 100 7) { post_only = true }

match_order-post_only_example :
    ((match_order post_only_buyer ask_book with_asks).0
      ≡ (if would_match ask_book post_only_buyer then err post_only_would_take else ok []))
    × ((match_order post_only_buyer ask_book with_asks).2 ≡ with_asks)
match_order-post_only_example = match_order-post_only post_only_buyer ask_book with_asks refl

refused_post_only : (match_order post_only_buyer ask_book with_asks).0 ≡ err post_only_would_take
unfolding match_order would_match match_prices match_price match_level match_maker fill_maker
    beyond_limit add_order join_book push_order new find put drop_price drop_order
refused_post_only = refl

-- Every order has size 5; one rests at 100.
abbrev fives : ℕ → ℕ
fives i = 5

abbrev one_level : Book
one_level = (100, record { orders = 7 ∷ []; total_size = 5 }) ∷ []

room : (or_new (find 100 one_level)).total_size + 5 < u64_mod
unfolding find
room = omega arith

one_level-IsBook : IsBook fives one_level
one_level-IsBook = record {
  ascending = (omega arith, tt);
  levels = ((λ e. cc, refl, omega arith), tt);
}
