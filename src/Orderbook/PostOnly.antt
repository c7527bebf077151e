-- ===== src/Orderbook/PostOnly.antt =====
-- A post-only order never takes: the test of `would_match` and the loop agree on the best price.
use mathlib.Core.List.{reverse-cons}
use mathlib.Core.Path.{subst}
use pranklin.Base.{
  ℕ, ◌≡◌, ◌∙◌, refl, sym, Bool, inl, inr, true, false, Option, none, some, List, [], ◌∷◌, ◌++◌,
  reverse, arith, Bool-cases, Option-cases, ok, err, post_only_would_take, ◌==◌, leb, if◌then◌else◌,
}
use pranklin.Types.Order.{Order}
use pranklin.State.{State}
use pranklin.Orderbook.Book.{Book, keys, first_of, last_of}
use pranklin.Orderbook.Manager.{OrderbookManager, opposing_book, would_match, best_for}
use pranklin.Orderbook.Matching.{
  BookRun, beyond_limit, match_prices, prices_for, match_order, sweep,
}

first_of-snoc :
    (xs : List ℕ) (x : ℕ)
    → first_of (xs ++ x ∷ []) ≡ elim (first_of xs) [ none ↦ some x | some y ↦ some y ]
first_of-snoc [] x = refl
first_of-snoc (y ∷ xs) x = refl

first_of-reverse : (xs : List ℕ) → first_of (reverse xs) ≡ last_of xs
first_of-reverse [] = refl
first_of-reverse (x ∷ xs) =
    rw (reverse-cons x xs, first_of-snoc (reverse xs) x, first_of-reverse xs)

-- The price that the loop looks at first is the one that `would_match` tests.
first_of-prices_for : (o : Order) (book : Book) → first_of (prices_for o book) ≡ best_for o book
first_of-prices_for o book = ground (arith, first_of-reverse (keys book))

-- The test of `would_match` on the best price, and that of the loop on its first price.
abbrev crosses : Order → Option ℕ → Bool
crosses taker none = false
crosses taker (some best) =
    if taker.price == 0
    then true
    else if taker.is_buy
    then leb best taker.price
    else leb taker.price best

abbrev IsIdle : Order → Option ℕ → Type 0
IsIdle taker none = Unit {0}
IsIdle taker (some p) = beyond_limit taker p ≡ true

no_match-IsIdle : (taker : Order) (best : Option ℕ) → crosses taker best ≡ false → IsIdle taker best
unfolding beyond_limit
no_match-IsIdle taker none e = tt
no_match-IsIdle taker (some best) e = ground arith

would_match_lem :
    (ob : OrderbookManager) (taker : Order) (book : Book)
    → opposing_book ob taker ≡ some book
    → would_match ob taker ≡ crosses taker (best_for taker book)
unfolding would_match
would_match_lem ob taker book found = rw (found, would_match) (ground arith)

-- If no price or a price beyond the limit comes first, the loop does nothing.
match_prices_idle :
    (taker : Order) (prices : List ℕ) (w : BookRun)
    → IsIdle taker (first_of prices)
    → match_prices taker prices w ≡ w
unfolding match_prices
match_prices_idle taker [] w e = refl
match_prices_idle taker (p ∷ prices) w e = rw e

sweep_idle :
    (taker : Order) (ob : OrderbookManager) (book : Book) (s : State)
    → opposing_book ob taker ≡ some book
    → would_match ob taker ≡ false
    → sweep taker book s
      ≡ record { fills = []; remaining = taker.remaining_size; book = book; state = s }
sweep_idle taker ob book s found rests = match_prices_idle taker (prices_for taker book) _ (
    subst (IsIdle taker) (sym (first_of-prices_for taker book)) (
      no_match-IsIdle taker (best_for taker book)
        (sym (would_match_lem ob taker book found) ∙ rests)))

-- A post-only order is refused, if it would trade at once, or has no fill; the state is unchanged.
pub match_order-post_only :
    (taker : Order) (ob : OrderbookManager) (s : State)
    → taker.post_only ≡ true
    → let (r, _, s') = match_order taker ob s in
      (r ≡ (if would_match ob taker then err post_only_would_take else ok [])) × (s' ≡ s)
unfolding match_order would_match
match_order-post_only taker ob s post = elim (Bool-cases (would_match ob taker)) [
  | inl refused ↦ rw (post, refused, match_order) (refl, refl)
  | inr rests ↦ elim (Option-cases (opposing_book ob taker)) [
    | inl empty ↦ rw (post, rests, match_order, empty) (refl, refl)
    | inr (book, found) ↦
        let idle = sweep_idle taker ob book s found rests in
        rw (post, rests, match_order, found) (rw idle (refl, refl))
  ]
]
