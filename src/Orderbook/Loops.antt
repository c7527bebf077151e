-- ===== src/Orderbook/Loops.antt =====
-- The rule for the loops of matching: what every single fill keeps, the whole of matching keeps.
use pranklin.Base.{
  ℕ, ◌≡◌, ◌≢◌, ◌&&◌, false, some, List, [], ◌∷◌, inl, inr, arith, ◌==◌, Bool-cases, Option-cases,
  ok,
}
use pranklin.Types.Order.{Order, Fill}
use pranklin.State.{State, get_order}
use pranklin.Orderbook.Book.{find}
use pranklin.Orderbook.Manager.{OrderbookManager, opposing_book, would_match}
use pranklin.Orderbook.Matching.{
  LevelRun, fill_maker, match_maker, match_level, BookRun, beyond_limit, match_price, match_prices,
  sweep, match_order, prices_for,
}

module _ (taker : Order) (P : List Fill → ℕ → State → Type 0)
    (keep : (price i : ℕ) (maker : Order) (r : LevelRun)
      → beyond_limit taker price ≡ false
      → get_order r.state i ≡ some maker
      → maker.owner ≢ taker.owner
      → P r.fills r.remaining r.state
      → let q = fill_maker taker price i maker r in P q.fills q.remaining q.state) where
  abbrev InLevel : LevelRun → Type 0
  InLevel r = P r.fills r.remaining r.state

  abbrev InBook : BookRun → Type 0
  InBook w = P w.fills w.remaining w.state

  match_maker_keeps :
      (price i : ℕ) (r : LevelRun)
      → beyond_limit taker price ≡ false
      → InLevel r
      → InLevel (match_maker taker price i r)
  unfolding match_maker
  match_maker_keeps price i r within h = elim (Option-cases (get_order r.state i)) [
    | inl missing ↦ rw (missing, match_maker) h
    | inr (maker, found) ↦ elim (Bool-cases (maker.owner == taker.owner)) [
      | inl own ↦ rw (found, match_maker, own) h
      | inr other ↦
          rw (found, match_maker, other)
            (keep price i maker r within found (λ e. ground (arith, e)) h)
    ]
  ]

  match_level_keeps :
      (price : ℕ) (ids : List ℕ) (r : LevelRun)
      → beyond_limit taker price ≡ false
      → InLevel r
      → InLevel (match_level taker price ids r)
  unfolding match_level
  match_level_keeps price [] r within h = h
  match_level_keeps price (i ∷ ids) r within h = elim (Bool-cases (r.remaining == 0)) [
    | inl done ↦ rw done h
    | inr more ↦ rw more (
        match_level_keeps price ids (match_maker taker price i r) within
          (match_maker_keeps price i r within h))
  ]

  match_price_keeps :
      (price : ℕ) (w : BookRun)
      → beyond_limit taker price ≡ false
      → InBook w
      → InBook (match_price taker price w)
  unfolding match_price
  match_price_keeps price w within h = elim (Option-cases (find price w.book)) [
    | inl missing ↦ rw (missing, match_price) h
    | inr (level, found) ↦ rw (found, match_price) (match_level_keeps price level.orders _ within h)
  ]

  pub match_prices_keeps :
      (prices : List ℕ) (w : BookRun) → InBook w → InBook (match_prices taker prices w)
  unfolding match_prices
  match_prices_keeps [] w h = h
  match_prices_keeps (price ∷ prices) w h = elim (Bool-cases (beyond_limit taker price)) [
    | inl beyond ↦ rw beyond h
    | inr within ↦
        let h' = match_price_keeps price w within h in
        elim (Bool-cases ((match_price taker price w).remaining == 0)) [
          | inl done ↦ rw (within, done) h'
          | inr more ↦ rw (within, more) (match_prices_keeps prices (match_price taker price w) h')
        ]
  ]

  -- What holds of an order that has no fill yet holds after matching that succeeds, for the fills,
  -- what remains of the order, and the state.
  pub match_order_keeps :
      (ob ob' : OrderbookManager) (s : State) {fills : List Fill} {s' : State}
      → P [] taker.remaining_size s
      → match_order taker ob s ≡ (ok fills, ob', s')
      → (remaining : ℕ) × P fills remaining s'
  unfolding match_order
  match_order_keeps ob ob' s {fills} {s'} h e =
      elim (Bool-cases (taker.post_only && would_match ob taker)) [
        | inl refused ↦ let e' = rw (refused, match_order) at e in cc
        | inr allowed ↦ elim (Option-cases (opposing_book ob taker)) [
          | inl empty ↦
              let e' = rw (allowed, match_order, empty) at e in
              let no_fills : fills ≡ [] = cc in
              let same_state : s' ≡ s = cc in (taker.remaining_size, rw (no_fills, same_state) h)
          | inr (book, found) ↦
              let e' = rw (allowed, match_order, found) at e in
              let w = sweep taker book s in
              let its_fills : fills ≡ w.fills = cc in
              let its_state : s' ≡ w.state = cc in
              (
                w.remaining,
                rw (its_fills, its_state) (match_prices_keeps (prices_for taker book) _ h),
              )
        ]
      ]
