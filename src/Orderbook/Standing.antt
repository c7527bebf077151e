-- ===== src/Orderbook/Standing.antt =====
-- The orders that stand in the levels of a book, which is where matching finds them.
use pranklin.Base.{
  ℕ, ◌==◌, ◌&&◌, ◌||◌, ◌≡◌, refl, ap, not, Bool, true, false, Option-cases, Bool-cases, none, some,
  List, [], ◌∷◌, ◌++◌, inl, inr, arith, how_many, if◌then◌else◌, contains, number_key,
}
use pranklin.Types.Order.{Order}
use pranklin.Orderbook.Book.{Book, find, push_order}
use pranklin.Orderbook.Manager.{OrderbookManager, new, or_empty, or_new, join_book, add_order}
use pranklin.Orderbook.Resting.{find-put}

-- The orders at a price.
unfoldable pub orders_at : ℕ → Book → List ℕ
orders_at price book = elim (find price book) [ none ↦ [] | some l ↦ l.orders ]

-- The bids or the asks of a market.
abbrev pub side_of : OrderbookManager → ℕ → Bool → Book
side_of ob market_id is_buy = or_empty (if is_buy then ob.bids market_id else ob.asks market_id)

abbrev pub times : ℕ → List ℕ → ℕ
times id ids = how_many (λ x. x == id) ids

contains-join :
    (id i : ℕ) (ids : List ℕ) → contains id (ids ++ i ∷ []) ≡ (id == i || contains id ids)
contains-join id i [] = ground arith
contains-join id i (x ∷ ids) = ground (arith, contains-join id i ids)

join_book-standing :
    (i price size : ℕ) (book : Book) (q id : ℕ)
    → contains id (orders_at q (join_book i price size book))
      ≡ ((q == price && id == i) || contains id (orders_at q book))
unfolding orders_at join_book push_order
join_book-standing i price size book q id =
    let level = push_order i size (or_new (find price book)) in
    let found = find-put price q level book in
    elim (Option-cases (find price book)) [
      | inl missing ↦ ground (arith, found, missing)
      | inr (l, there) ↦ ground (arith, found, there, contains-join id i l.orders)
    ]

-- Whether an order rests on a side of a market at a price.
abbrev pub rests_at : ℕ → Bool → ℕ → Order → Bool
rests_at market_id is_buy price o =
    o.market_id == market_id && ((if is_buy then o.is_buy else not o.is_buy) && price == o.price)

-- An order that is added stands at its price, on its side of its market, and nothing else changes.
pub add_order-standing :
    (i : ℕ) (o : Order) (ob : OrderbookManager) (market_id : ℕ) (is_buy : Bool) (q id : ℕ)
    → contains id (orders_at q (side_of (add_order i o ob) market_id is_buy)) ≡ (
        (i == id && rests_at market_id is_buy q o)
        || contains id (orders_at q (side_of ob market_id is_buy)))
unfolding add_order
add_order-standing i o ob market_id true q id =
    let joined =
      join_book-standing i o.price o.remaining_size (or_empty (ob.bids o.market_id)) q id in
    elim (Bool-cases (o.market_id == market_id)) [
      | inl same ↦
          let here : o.market_id ≡ market_id = ground (arith, same) in
          let books : ob.bids o.market_id ≡ ob.bids market_id = ap ob.bids here in
          ground (arith, joined, books, same)
      | inr other ↦ ground (arith, other)
    ]
add_order-standing i o ob market_id false q id =
    let joined =
      join_book-standing i o.price o.remaining_size (or_empty (ob.asks o.market_id)) q id in
    elim (Bool-cases (o.market_id == market_id)) [
      | inl same ↦
          let here : o.market_id ≡ market_id = ground (arith, same) in
          let books : ob.asks o.market_id ≡ ob.asks market_id = ap ob.asks here in
          ground (arith, joined, books, same)
      | inr other ↦ ground (arith, other)
    ]

pub new-standing :
    (market_id : ℕ) (is_buy : Bool) (q id : ℕ)
    → contains id (orders_at q (side_of new market_id is_buy)) ≡ false
unfolding new orders_at find
new-standing market_id true q id = refl
new-standing market_id false q id = refl
