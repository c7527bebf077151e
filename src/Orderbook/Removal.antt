-- ===== src/Orderbook/Removal.antt =====
-- What a removed order leaves in the book: `remove_order` of crates/engine/src/orderbook.rs.
use pranklin.Base.{
  ℕ, suc, ◌-◌, ◌==◌, ◌&&◌, ◌≡◌, ◌∙◌, refl, sym, ap, Bool, true, false, Option, Option-cases,
  Bool-cases, none, some, List, [], ◌∷◌, inl, inr, arith, if◌then◌else◌, contains, remove_first,
  contains-without, number_key,
}
use pranklin.Types.Order.{Order}
use pranklin.Orderbook.Book.{PriceLevel, Book, find, drop_price, drop_order, is_empty_level}
use pranklin.Orderbook.Manager.{
  OrderbookManager, map_entry, or_empty, leave_book, remove_order, get_orders_for_market,
}
use pranklin.Orderbook.Resting.{Ascending, find-put}
use pranklin.Orderbook.RoundTrip.{find_above}
use pranklin.Orderbook.Standing.{orders_at, side_of, times, rests_at}

find-drop_price :
    (p q low : ℕ) (book : Book)
    → Ascending low book
    → find q (drop_price p book) ≡ (if q == p then none else find q book)
unfolding find drop_price
find-drop_price p q low [] order = ground arith
find-drop_price p q low ((r, m) ∷ book) order =
    let rest = find-drop_price p q (suc r) book order.1 in
    elim (Option-cases (find q book)) [
      | inl missing ↦ ground (arith, rest, missing)
      | inr (l, there) ↦
          let above = find_above q (suc r) {l = l} book order.1 there in
          ground (arith, rest, there, above)
    ]

times-remove_first :
    (i j : ℕ) (ids : List ℕ)
    → times j (remove_first i ids) ≡ (if j == i then times j ids - 1 else times j ids)
times-remove_first i j [] = ground arith
times-remove_first i j (x ∷ ids) = ground (arith, times-remove_first i j ids)

times-absent : (i : ℕ) (ids : List ℕ) → contains i ids ≡ false → times i ids ≡ 0
times-absent i [] gone = refl
times-absent i (x ∷ ids) gone = ground (arith, times-absent i ids, gone)

times-drop_order :
    (i size j : ℕ) (l : PriceLevel)
    → times j (drop_order i size l).orders
      ≡ (if j == i then times j l.orders - 1 else times j l.orders)
unfolding drop_order
times-drop_order i size j l = elim (Bool-cases (contains i l.orders)) [
  | inl here ↦ let fewer = times-remove_first i j l.orders in ground (arith, here, fewer)
  | inr gone ↦ elim (Bool-cases (j == i)) [
    | inl same ↦
        let own : i ≡ j = ground (arith, same) in
        let gone' : contains j l.orders ≡ false = ap (λ x. contains x l.orders) (sym own) ∙ gone in
        let no_times = times-absent j l.orders gone' in ground (arith, gone, no_times, same)
    | inr other ↦ ground (arith, gone, other)
  ]
]

times-empty :
    (j : ℕ) (ids : List ℕ) → elim ids [ [] ↦ true | x ∷ _ ↦ false ] ≡ true → times j ids ≡ 0
times-empty j [] e = refl
times-empty j (x ∷ ids) e = cc

leave_book-times :
    (i price size : ℕ) (book : Book) (q j : ℕ)
    → Ascending 0 book
    → times j (orders_at q (leave_book i price size book)) ≡ (
        if j == i && q == price then times j (orders_at q book) - 1 else times j (orders_at q book))
unfolding leave_book orders_at
leave_book-times i price size book q j order = elim (Option-cases (find price book)) [
  | inl missing ↦ elim (Bool-cases (q == price)) [
    | inl same ↦
        let own : q ≡ price = ground (arith, same) in
        let none_there : find q book ≡ none = ap (λ x. find x book) own ∙ missing in
        ground (arith, missing, none_there, same)
    | inr other ↦ ground (arith, missing, other)
  ]
  | inr (l, there) ↦
      let left = drop_order i size l in
      let fewer = times-drop_order i size j l in
      let dropped = find-drop_price price q 0 book order in
      let kept = find-put price q left book in
      let empty = times-empty j left.orders in
      elim (Bool-cases (q == price)) [
        | inl same ↦
            let own : q ≡ price = ground (arith, same) in
            let there' : find q book ≡ some l = ap (λ x. find x book) own ∙ there in
            elim (Bool-cases (is_empty_level left)) [
              | inl gone ↦
                  let no_times = empty gone in
                  ground (arith, there, there', same, fewer, dropped, gone, no_times)
              | inr stays ↦ ground (arith, there, there', same, fewer, kept, stays)
            ]
        | inr other ↦ elim (Bool-cases (is_empty_level left)) [
          | inl gone ↦ ground (arith, there, other, dropped, gone)
          | inr stays ↦ ground (arith, there, other, kept, stays)
        ]
      ]
]

-- On one side of every market.
map_entry-times :
    (i price size m : ℕ) (books : ℕ → Option Book) (k q j : ℕ)
    → Ascending 0 (or_empty (books m))
    → let there = times j (orders_at q (or_empty (books k))) in
      times j (orders_at q (or_empty (map_entry (leave_book i price size) m books k)))
      ≡ (if j == i && (m == k && q == price) then there - 1 else there)
map_entry-times i price size m books k q j order = elim (Bool-cases (m == k)) [
  | inr other ↦ elim (Option-cases (books m)) [
    | inl missing ↦ ground (arith, missing, other)
    | inr (book, there) ↦ ground (arith, there, other)
  ]
  | inl same ↦
      let own : m ≡ k = ground (arith, same) in
      let books' : books m ≡ books k = ap books own in
      elim (Option-cases (books m)) [
        | inl missing ↦
            let none_there : books k ≡ none = sym books' ∙ missing in
            unfold orders_at find in ground (arith, missing, none_there)
        | inr (book, there) ↦
            let there' : books k ≡ some book = sym books' ∙ there in
            let fewer = leave_book-times i price size book q j (rw there at order) in
            ground (arith, there, there', same, fewer)
      ]
]

-- The removed order stands once less at its price, on its side of its market; no other order, and no
-- other place, loses or gains anything.
pub remove_order-times :
    (i : ℕ) (o : Order) (ob : OrderbookManager) (market_id : ℕ) (is_buy : Bool) (q j : ℕ)
    → Ascending 0 (side_of ob o.market_id o.is_buy)
    → let there = times j (orders_at q (side_of ob market_id is_buy)) in
      times j (orders_at q (side_of (remove_order i o ob) market_id is_buy))
      ≡ (if j == i && rests_at market_id is_buy q o then there - 1 else there)
unfolding remove_order
remove_order-times i o ob k true q j order = elim (Bool-cases o.is_buy) [
  | inr sell ↦ ground (arith, sell)
  | inl buy ↦
      let fewer =
        map_entry-times i o.price o.remaining_size o.market_id ob.bids k q j (rw buy at order) in
      ground (arith, buy, fewer)
]
remove_order-times i o ob k false q j order = elim (Bool-cases o.is_buy) [
  | inl buy ↦ ground (arith, buy)
  | inr sell ↦
      let fewer =
        map_entry-times i o.price o.remaining_size o.market_id ob.asks k q j (rw sell at order) in
      ground (arith, sell, fewer)
]

-- The removed order is known no more, and its market does not list it.
pub remove_order-known :
    (i : ℕ) (o : Order) (ob : OrderbookManager)
    → let after = remove_order i o ob in
      (after.orders i ≡ none) × (contains i (get_orders_for_market after o.market_id) ≡ false)
unfolding remove_order get_orders_for_market
remove_order-known i o ob = (
  ground arith,
  elim (Option-cases (ob.orders_by_market o.market_id)) [
    | inl missing ↦ ground (arith, missing)
    | inr (ids, there) ↦ ground (arith, there, contains-without i ids)
  ],
)
