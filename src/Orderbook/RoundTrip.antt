-- ===== src/Orderbook/RoundTrip.antt =====
-- Resting and cancelling are inverse on a book.
use pranklin.Base.{
  ℕ, suc, ◌+◌, ◌<◌, ◌≤◌, ◌≡◌, ◌≢◌, refl, inl, inr, true, false, none, some, List, [], ◌∷◌, ◌++◌,
  arith, Option-cases, contains, remove_first,
}
use pranklin.Base.Words.{u64_mod}
use pranklin.Orderbook.Book.{PriceLevel, push_order, drop_order, Book, find, put, drop_price}
use pranklin.Orderbook.Manager.{or_new, join_book, leave_book}
use pranklin.Orderbook.Resting.{Ascending, IsBook, find-put, find-All}

contains-snoc : (i : ℕ) (ids : List ℕ) → contains i (ids ++ i ∷ []) ≡ true
contains-snoc i [] = ground arith
contains-snoc i (j ∷ ids) = ground (arith, contains-snoc i ids)

remove_first-snoc :
    (i : ℕ) (ids : List ℕ) → contains i ids ≡ false → remove_first i (ids ++ i ∷ []) ≡ ids
remove_first-snoc i [] e = ground arith
remove_first-snoc i (j ∷ ids) e = ground (arith, remove_first-snoc i ids)

drop_order-push_order :
    (i size : ℕ) (l : PriceLevel)
    → l.total_size + size < u64_mod
    → contains i l.orders ≡ false
    → drop_order i size (push_order i size l) ≡ l
unfolding drop_order push_order
drop_order-push_order i size l room fresh =
    ground (arith, contains-snoc i l.orders, remove_first-snoc i l.orders)

pub find_above :
    (p low : ℕ) {l : PriceLevel} (book : Book) → Ascending low book → find p book ≡ some l → low ≤ p
unfolding find
find_above p low {l} [] a e = cc
find_above p low {l} ((q, m) ∷ book) a e = ground (arith, find_above p (suc q) {l = l} book a.1)

put-put :
    (p low : ℕ) (l x : PriceLevel) (book : Book)
    → Ascending low book
    → find p book ≡ some l
    → put p l (put p x book) ≡ book
unfolding put find
put-put p low l x [] a e = cc
put-put p low l x ((q, m) ∷ book) a e =
    ground (arith, put-put p (suc q) l x book a.1, find_above p (suc q) {l = l} book a.1)

drop_price-put :
    (p : ℕ) (x : PriceLevel) (book : Book) → find p book ≡ none → drop_price p (put p x book) ≡ book
unfolding put find drop_price
drop_price-put p x [] e = ground arith
drop_price-put p x ((q, m) ∷ book) e = ground (arith, drop_price-put p x book)

not_empty_level : (xs : List ℕ) → xs ≢ [] → elim xs [ [] ↦ true | x ∷ _ ↦ false ] ≡ false
not_empty_level [] h = absurd (h refl)
not_empty_level (x ∷ xs) h = refl

find-join :
    (i price size : ℕ) (book : Book)
    → find price (join_book i price size book) ≡ some (push_order i size (or_new (find price book)))
unfolding join_book
find-join i price size book =
    ground (arith, find-put price price (push_order i size (or_new (find price book))) book)

-- An order that rests and is then cancelled, unchanged, leaves the book exactly as it was: its level,
-- the level's total, and the prices. The order is new to its level, whose total stays within u64.
pub leave-join :
    (size : ℕ → ℕ) (i price : ℕ) (book : Book)
    → (or_new (find price book)).total_size + size i < u64_mod
    → contains i (or_new (find price book)).orders ≡ false
    → IsBook size book
    → leave_book i price (size i) (join_book i price (size i) book) ≡ book
unfolding leave_book
leave-join size i price book room fresh b = elim (Option-cases (find price book)) [
  | inl missing ↦
      let found = find-join i price (size i) book in
      let back = drop_order-push_order i (size i) (or_new (find price book)) room fresh in
      rw (found, leave_book, back)
        (rw missing (unfold join_book in drop_price-put price _ book missing))
  | inr (l, old) ↦
      let found = find-join i price (size i) book in
      let back = drop_order-push_order i (size i) (or_new (find price book)) room fresh in
      let held = not_empty_level l.orders (find-All size price book old b.levels).0 in
      rw (found, leave_book, back)
        (rw (old, held) (unfold join_book in put-put price 0 l _ book b.ascending old))
]
