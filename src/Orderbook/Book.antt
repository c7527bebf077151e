-- ===== src/Orderbook/Book.antt =====
-- One side of a market: a price level (`PriceLevel` of crates/engine/src/orderbook.rs), and the
-- `BTreeMap` from prices to levels as a list of entries in ascending order of their prices.
use pranklin.Base.{
  ℕ, ◌-◌, Bool, true, false, Option, none, some, List, [], ◌∷◌, ◌++◌, ltb, ◌==◌, if◌then◌else◌,
  contains, remove_first,
}
use pranklin.Base.Words.{add_u64}

pub record PriceLevel : Type 0 where
  pub orders : List ℕ
  pub total_size : ℕ

-- `PriceLevel::new`
abbrev pub empty_level : PriceLevel
empty_level = record { orders = []; total_size = 0 }

unfoldable pub push_order : ℕ → ℕ → PriceLevel → PriceLevel
push_order order_id size l = record {
  orders = l.orders ++ order_id ∷ [];
  total_size = add_u64 l.total_size size;
}

-- `saturating_sub` is the subtraction of ℕ.
unfoldable pub drop_order : ℕ → ℕ → PriceLevel → PriceLevel
drop_order order_id size l =
    if contains order_id l.orders
    then record { orders = remove_first order_id l.orders; total_size = l.total_size - size }
    else l

abbrev pub is_empty_level : PriceLevel → Bool
is_empty_level l = elim l.orders [ [] ↦ true | _ ∷ _ ↦ false ]

abbrev pub Book : Type 0
Book = List (ℕ × PriceLevel)

unfoldable pub find : ℕ → Book → Option PriceLevel
find price [] = none
find price ((p, l) ∷ book) = if price == p then some l else find price book

-- `BTreeMap::insert`
unfoldable pub put : ℕ → PriceLevel → Book → Book
put price level [] = (price, level) ∷ []
put price level ((p, l) ∷ book) =
    if ltb price p
    then (price, level) ∷ (p, l) ∷ book
    else if price == p
    then (price, level) ∷ book
    else (p, l) ∷ put price level book

-- `BTreeMap::remove`
unfoldable pub drop_price : ℕ → Book → Book
drop_price price [] = []
drop_price price ((p, l) ∷ book) = if price == p then book else (p, l) ∷ drop_price price book

abbrev pub keys : Book → List ℕ
keys [] = []
keys ((p, l) ∷ book) = p ∷ keys book

-- `keys().next()` and `keys().next_back()`
abbrev pub first_of : List ℕ → Option ℕ
first_of [] = none
first_of (p ∷ ps) = some p

abbrev pub last_of : List ℕ → Option ℕ
last_of [] = none
last_of (p ∷ ps) = elim (last_of ps) [ none ↦ some p | some q ↦ some q ]
