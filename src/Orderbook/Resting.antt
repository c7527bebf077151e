-- ===== src/Orderbook/Resting.antt =====
-- Orders that rest: a book keeps its prices in order, and its levels keep their sums.
use mathlib.Core.Path.{subst}
use pranklin.Base.{
  ℕ, suc, ◌+◌, ◌<◌, ◌≤◌, ◌≡◌, ◌≢◌, refl, ap, inl, inr, true, false, some, List, [], ◌∷◌, ◌++◌,
  arith, Bool-cases, Option-cases, ==_iff, ◌==◌, if◌then◌else◌, All, contains, remove_first, sum_by,
  sum_by-append,
}
use pranklin.Base.Words.{u64_mod}
use pranklin.Orderbook.Book.{
  PriceLevel, push_order, drop_order, is_empty_level, Book, find, put, drop_price,
}
use pranklin.Orderbook.Manager.{or_new, join_book, leave_book}

-- The prices of a book ascend, from a bound on.
abbrev pub Ascending : ℕ → Book → Type 0
Ascending low [] = Unit {0}
Ascending low ((p, l) ∷ book) = (low ≤ p) × Ascending (suc p) book

-- A level holds someone, and its total is the sum of the sizes of its orders, within u64.
abbrev pub IsLevel : (ℕ → ℕ) → PriceLevel → Type 0
IsLevel size l = (l.orders ≢ []) × (l.total_size ≡ sum_by size l.orders) × (l.total_size < u64_mod)

pub record IsBook (size : ℕ → ℕ) (book : Book) : Type 0 where
  pub ascending : Ascending 0 book
  pub levels : All (λ e. IsLevel size e.1) book

pub find-put :
    (p q : ℕ) (l : PriceLevel) (book : Book)
    → find q (put p l book) ≡ (if q == p then some l else find q book)
unfolding find put
find-put p q l [] = refl
find-put p q l ((r, m) ∷ book) = ground (arith, find-put p q l book)

put-Ascending :
    (p low : ℕ) (l : PriceLevel) (book : Book)
    → low ≤ p
    → Ascending low book
    → Ascending low (put p l book)
unfolding put
put-Ascending p low l [] h a = (h, tt)
put-Ascending p low l ((q, m) ∷ book) h a = ground (arith, put-Ascending p (suc q) l book)

Ascending-mono :
    (low low' : ℕ) (book : Book) → low' ≤ low → Ascending low book → Ascending low' book
Ascending-mono low low' [] h a = tt
Ascending-mono low low' (e ∷ book) h a = (omega arith, a.1)

drop_price-Ascending :
    (p low : ℕ) (book : Book) → Ascending low book → Ascending low (drop_price p book)
unfolding drop_price
drop_price-Ascending p low [] a = tt
drop_price-Ascending p low ((q, m) ∷ book) a =
    ground (
      arith,
      drop_price-Ascending p (suc q) book,
      Ascending-mono (suc q) low book (omega arith) a.1,
    )

module _ (P : ℕ × PriceLevel → Type 0) where
  put-All : (p : ℕ) (l : PriceLevel) (book : Book) → P (p, l) → All P book → All P (put p l book)
  unfolding put
  put-All p l [] h a = (h, tt)
  put-All p l ((q, m) ∷ book) h a = ground (arith, put-All p l book h a.1)

  drop_price-All : (p : ℕ) (book : Book) → All P book → All P (drop_price p book)
  unfolding drop_price
  drop_price-All p [] a = tt
  drop_price-All p ((q, m) ∷ book) a = ground (arith, drop_price-All p book a.1)

pub find-All :
    (size : ℕ → ℕ) (p : ℕ) {l : PriceLevel} (book : Book)
    → find p book ≡ some l
    → All (λ e. IsLevel size e.1) book
    → IsLevel size l
unfolding find
find-All size p [] e a = cc
find-All size p {l} ((q, m) ∷ book) e a = elim (Bool-cases (p == q)) [
  | inl hit ↦
      let e' : some m ≡ some l = rw hit at e in
      let same : m ≡ l = cc in subst (IsLevel size) same a.0
  | inr miss ↦ find-All size p book (rw miss at e) a.1
]

sum_by-remove_first :
    (size : ℕ → ℕ) (i : ℕ) (ids : List ℕ)
    → contains i ids ≡ true
    → sum_by size (remove_first i ids) + size i ≡ sum_by size ids
sum_by-remove_first size i [] e = cc
sum_by-remove_first size i (j ∷ ids) e = elim (Bool-cases (i == j)) [
  | inl hit ↦ rw hit (omega (arith, ap size ((==_iff i j).0 hit)))
  | inr miss ↦ rw miss (omega (arith, sum_by-remove_first size i ids (rw miss at e)))
]

append_ne_nil : (xs : List ℕ) (i : ℕ) → xs ++ i ∷ [] ≢ []
append_ne_nil [] i e = cc
append_ne_nil (x ∷ xs) i e = cc

-- A level that an order of the given size joins or leaves.
push_order-IsLevel :
    (size : ℕ → ℕ) (i : ℕ) (l : PriceLevel)
    → l.total_size ≡ sum_by size l.orders
    → l.total_size + size i < u64_mod
    → IsLevel size (push_order i (size i) l)
unfolding push_order
push_order-IsLevel size i l h room =
    (append_ne_nil l.orders i, omega (arith, sum_by-append {0} size l.orders (i ∷ [])), omega arith)

not_empty : (xs : List ℕ) → elim xs [ [] ↦ true | x ∷ _ ↦ false ] ≡ false → xs ≢ []
not_empty [] e f = cc
not_empty (x ∷ xs) e f = cc

drop_order-IsLevel :
    (size : ℕ → ℕ) (i : ℕ) (l : PriceLevel)
    → IsLevel size l
    → is_empty_level (drop_order i (size i) l) ≡ false
    → IsLevel size (drop_order i (size i) l)
unfolding drop_order
drop_order-IsLevel size i l h kept = elim (Bool-cases (contains i l.orders)) [
  | inl here ↦ rw here (
    not_empty (remove_first i l.orders) (rw here at kept),
    omega (arith, sum_by-remove_first size i l.orders here),
    omega arith,
  )
  | inr gone ↦ rw gone h
]

or_new_sum :
    (size : ℕ → ℕ) (price : ℕ) (book : Book)
    → IsBook size book
    → let l = or_new (find price book) in l.total_size ≡ sum_by size l.orders
or_new_sum size price book b = elim (Option-cases (find price book)) [
  | inl missing ↦ rw missing
  | inr (l, found) ↦ rw found (find-All size price book found b.levels).1
]

-- A new resting order keeps the book well formed, if the total of its level stays within u64.
pub join_book-IsBook :
    (size : ℕ → ℕ) (i price : ℕ) (book : Book)
    → (or_new (find price book)).total_size + size i < u64_mod
    → IsBook size book
    → IsBook size (join_book i price (size i) book)
unfolding join_book
join_book-IsBook size i price book room b = record {
  ascending = put-Ascending price 0 _ book (omega arith) b.ascending;
  levels =
      put-All (λ e. IsLevel size e.1) price _ book
        (push_order-IsLevel size i (or_new (find price book)) (or_new_sum size price book b) room)
        b.levels;
}

-- An order that leaves, with the size that it has in the book, keeps the book well formed.
pub leave_book-IsBook :
    (size : ℕ → ℕ) (i price : ℕ) (book : Book)
    → IsBook size book
    → IsBook size (leave_book i price (size i) book)
unfolding leave_book
leave_book-IsBook size i price book b = elim (Option-cases (find price book)) [
  | inl missing ↦ rw (missing, leave_book) b
  | inr (l, found) ↦ elim (Bool-cases (is_empty_level (drop_order i (size i) l))) [
    | inl emptied ↦
        rw (found, leave_book, emptied)
          (record {
            ascending = drop_price-Ascending price 0 book b.ascending;
            levels = drop_price-All _ price book b.levels;
          })
    | inr kept ↦
        rw (found, leave_book, kept)
          (record {
            ascending = put-Ascending price 0 _ book (omega arith) b.ascending;
            levels =
                put-All _ price _ book
                  (drop_order-IsLevel size i l (find-All size price book found b.levels) kept)
                  b.levels;
          })
  ]
]
