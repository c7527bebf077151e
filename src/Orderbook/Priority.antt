-- ===== src/Orderbook/Priority.antt =====
-- Price priority: the fills of `match_order` come with the best price first.
use mathlib.Core.List.{reverse-cons}
use pranklin.Base.{
  ℕ, suc, ◌≤◌, ◌≡◌, ◌&&◌, Bool, true, false, some, List, [], ◌∷◌, ◌++◌, reverse, All, All-map,
  All-append, arith, if◌then◌else◌, leb, ◌==◌, Bool-cases, Option-cases, inl, inr, ok,
}
use pranklin.Types.Order.{Order, Fill}
use pranklin.State.{State, get_order}
use pranklin.Orderbook.Book.{Book, find, keys}
use pranklin.Orderbook.Manager.{OrderbookManager, opposing_book, would_match}
use pranklin.Orderbook.Matching.{
  LevelRun, fill_maker, match_maker, match_level, BookRun, beyond_limit, match_price, match_prices,
  prices_for, sweep, match_order,
}
use pranklin.Orderbook.Resting.{Ascending}

-- For a buyer the lower price is the better one, for a seller the higher.
abbrev pub no_worse : Bool → ℕ → ℕ → Bool
no_worse is_buy p q = if is_buy then leb p q else leb q p

module _ (buys : Bool) where
  abbrev pub NoWorse : ℕ → ℕ → Type 0
  NoWorse p q = no_worse buys p q ≡ true

  -- A price, or a fill, is no worse than all that follow.
  abbrev pub BestFirst : List ℕ → Type 0
  BestFirst [] = Unit
  BestFirst (p ∷ ps) = All (NoWorse p) ps × BestFirst ps

  abbrev pub FillsBestFirst : List Fill → Type 0
  FillsBestFirst [] = Unit
  FillsBestFirst (f ∷ fs) = All (λ g. NoWorse f.price g.price) fs × FillsBestFirst fs

  -- The fills so far are in order, and none has a worse price than this one.
  abbrev Until : ℕ → List Fill → Type 0
  Until price fills = FillsBestFirst fills × All (λ f. NoWorse f.price price) fills

  append-FillsBestFirst :
      (fills : List Fill) (g : Fill) → Until g.price fills → FillsBestFirst (fills ++ g ∷ [])
  append-FillsBestFirst [] g h = (tt, tt)
  append-FillsBestFirst (f ∷ fills) g (order, all) = (
    All-append (λ g. NoWorse f.price g.price) fills (g ∷ []) order.0 (all.0, tt),
    append-FillsBestFirst fills g (order.1, all.1),
  )

  append-Until :
      (fills : List Fill) (g : Fill) → Until g.price fills → Until g.price (fills ++ g ∷ [])
  append-Until fills g h = (
    append-FillsBestFirst fills g h,
    All-append (λ f. NoWorse f.price g.price) fills (g ∷ []) h.1 (ground arith, tt),
  )

  NoWorse-trans : (p q r : ℕ) → NoWorse p q → NoWorse q r → NoWorse p r
  NoWorse-trans p q r h k = ground arith

  later-Until : (p q : ℕ) (fills : List Fill) → NoWorse p q → Until p fills → Until q fills
  later-Until p q fills h (order, all) = (
    order,
    All-map (λ f. NoWorse f.price p) (λ f. NoWorse f.price q) fills
        (λ f k. NoWorse-trans f.price p q k h) all,
  )

  append-BestFirst :
      (ps : List ℕ) (q : ℕ) → BestFirst ps → All (λ p. NoWorse p q) ps → BestFirst (ps ++ q ∷ [])
  append-BestFirst [] q h all = (tt, tt)
  append-BestFirst (p ∷ ps) q h all =
      (All-append (NoWorse p) ps (q ∷ []) h.0 (all.0, tt), append-BestFirst ps q h.1 all.1)

module _ (taker : Order) (price : ℕ) where
  match_maker-Until :
      (i : ℕ) (r : LevelRun)
      → Until taker.is_buy price r.fills
      → Until taker.is_buy price (match_maker taker price i r).fills
  unfolding match_maker fill_maker
  match_maker-Until i r h = elim (Option-cases (get_order r.state i)) [
    | inl missing ↦ rw (missing, match_maker) h
    | inr (maker, found) ↦ elim (Bool-cases (maker.owner == taker.owner)) [
      | inl own ↦ rw (found, match_maker, own) h
      | inr other ↦ rw (found, match_maker, other) (append-Until taker.is_buy r.fills _ h)
    ]
  ]

  match_level-Until :
      (ids : List ℕ) (r : LevelRun)
      → Until taker.is_buy price r.fills
      → Until taker.is_buy price (match_level taker price ids r).fills
  unfolding match_level
  match_level-Until [] r h = h
  match_level-Until (i ∷ ids) r h = elim (Bool-cases (r.remaining == 0)) [
    | inl done ↦ rw done h
    | inr more ↦
        rw more (match_level-Until ids (match_maker taker price i r) (match_maker-Until i r h))
  ]

  match_price-Until :
      (w : BookRun)
      → Until taker.is_buy price w.fills
      → Until taker.is_buy price (match_price taker price w).fills
  unfolding match_price
  match_price-Until w h = elim (Option-cases (find price w.book)) [
    | inl missing ↦ rw (missing, match_price) h
    | inr (level, found) ↦ rw (found, match_price) (match_level-Until level.orders _ h)
  ]

match_prices-FillsBestFirst :
    (taker : Order) (prices : List ℕ) (w : BookRun)
    → BestFirst taker.is_buy prices
    → FillsBestFirst taker.is_buy w.fills
    → All (λ p. Until taker.is_buy p w.fills) prices
    → FillsBestFirst taker.is_buy (match_prices taker prices w).fills
unfolding match_prices
match_prices-FillsBestFirst taker [] w best order each = order
match_prices-FillsBestFirst taker (price ∷ prices) w best order each =
    elim (Bool-cases (beyond_limit taker price)) [
      | inl beyond ↦ rw beyond order
      | inr within ↦
          let now = match_price-Until taker price w each.0 in
          let w' = match_price taker price w in
          elim (Bool-cases (w'.remaining == 0)) [
            | inl done ↦ rw (within, done) now.0
            | inr more ↦
                rw (within, more)
                  (match_prices-FillsBestFirst taker prices w' best.1 now.0 (
                    All-map (NoWorse taker.is_buy price) (λ p. Until taker.is_buy p w'.fills) prices
                      (λ q h. later-Until taker.is_buy price q w'.fills h now) best.0))
          ]
    ]

keys_above : (low : ℕ) (book : Book) → Ascending low book → All (λ p. low ≤ p) (keys book)
keys_above low [] h = tt
keys_above low ((p, l) ∷ book) h = (
  h.0,
  All-map (λ q. suc p ≤ q) (λ q. low ≤ q) (keys book) (λ q k. omega (arith, k, h.0))
      (keys_above (suc p) book h.1),
)

keys-BestFirst : (low : ℕ) (book : Book) → Ascending low book → BestFirst true (keys book)
keys-BestFirst low [] h = tt
keys-BestFirst low ((p, l) ∷ book) h = (
  All-map (λ q. suc p ≤ q) (NoWorse true p) (keys book) (λ q k. ground arith)
      (keys_above (suc p) book h.1),
  keys-BestFirst (suc p) book h.1,
)

reverse-All : (P : ℕ → Type 0) (ps : List ℕ) → All P ps → All P (reverse ps)
reverse-All P [] all = tt
reverse-All P (p ∷ ps) all =
    rw (reverse-cons p ps) (All-append P (reverse ps) (p ∷ []) (reverse-All P ps all.1) (all.0, tt))

reverse-keys-BestFirst :
    (low : ℕ) (book : Book) → Ascending low book → BestFirst false (reverse (keys book))
reverse-keys-BestFirst low [] h = tt
reverse-keys-BestFirst low ((p, l) ∷ book) h = rw (reverse-cons p (keys book)) (
    append-BestFirst false (reverse (keys book)) p (reverse-keys-BestFirst (suc p) book h.1) (
      reverse-All (λ q. NoWorse false q p) (keys book)
        (All-map (λ q. suc p ≤ q) (λ q. NoWorse false q p) (keys book) (λ q k. ground arith)
          (keys_above (suc p) book h.1))))

prices_for-BestFirst :
    (taker : Order) (book : Book)
    → Ascending 0 book
    → BestFirst taker.is_buy (prices_for taker book)
prices_for-BestFirst taker book h = elim (Bool-cases taker.is_buy) [
  | inl buys ↦ rw buys (keys-BestFirst 0 book h)
  | inr sells ↦ rw sells (reverse-keys-BestFirst 0 book h)
]

All-empty : (is_buy : Bool) (prices : List ℕ) → All (λ p. Until is_buy p []) prices
All-empty is_buy [] = tt
All-empty is_buy (p ∷ prices) = ((tt, tt), All-empty is_buy prices)

-- The fills of a successful match against a book with ascending prices come with the best price
-- first: no fill has a worse price for the taker than one that comes after it.
pub match_order-FillsBestFirst :
    (taker : Order) (ob ob' : OrderbookManager) (s s' : State) (book : Book) (fills : List Fill)
    → opposing_book ob taker ≡ some book
    → Ascending 0 book
    → match_order taker ob s ≡ (ok fills, ob', s')
    → FillsBestFirst taker.is_buy fills
unfolding match_order
match_order-FillsBestFirst taker ob ob' s s' book fills found order e =
    elim (Bool-cases (taker.post_only && would_match ob taker)) [
      | inl refused ↦ let e' = rw (refused, match_order) at e in cc
      | inr allowed ↦
          let e' = rw (allowed, match_order, found) at e in
          let its_fills : fills ≡ (sweep taker book s).fills = cc in
          let prices = prices_for taker book in
          rw its_fills (
            match_prices-FillsBestFirst taker prices _ (prices_for-BestFirst taker book order) tt
              (All-empty taker.is_buy prices))
    ]
