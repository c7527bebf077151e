-- ===== src/Orderbook/Fills.antt =====
-- Each fill that matching makes is one that the taker's order allows.
use pranklin.Base.{
  ℕ, ◌≤◌, ◌==◌, ◌≡◌, ◌≢◌, ◌⊎◌, inl, inr, refl, arith, true, false, Bool-cases, List, All,
  All-append, ok,
}
use pranklin.Types.Order.{Order, Fill}
use pranklin.State.{State}
use pranklin.Orderbook.Manager.{OrderbookManager}
use pranklin.Orderbook.Matching.{LevelRun, fill_maker, beyond_limit, match_order}
use pranklin.Orderbook.Loops.{match_order_keeps}

-- A buyer pays at most the limit price, a seller gets at least it; a limit price of 0 is none.
abbrev pub IsWithinLimit : Order → ℕ → Type 0
IsWithinLimit taker price =
    (taker.price ≡ 0)
    ⊎ ((taker.is_buy ≡ true) × (price ≤ taker.price))
    ⊎ ((taker.is_buy ≡ false) × (taker.price ≤ price))

beyond_limit-IsWithinLimit :
    (taker : Order) (price : ℕ) → beyond_limit taker price ≡ false → IsWithinLimit taker price
unfolding beyond_limit
beyond_limit-IsWithinLimit taker price within = elim (Bool-cases taker.is_buy) [
  | inl buy ↦ elim (Bool-cases (taker.price == 0)) [
    | inl market ↦ inl (ground (arith, market))
    | inr limited ↦ inr (inl (buy, ground (arith, within, buy, limited)))
  ]
  | inr sell ↦ elim (Bool-cases (taker.price == 0)) [
    | inl market ↦ inl (ground (arith, market))
    | inr limited ↦ inr (inr (sell, ground (arith, within, sell, limited)))
  ]
]

-- A fill for the taker, on its side and within its limit, against another trader.
pub record Allowed (taker : Order) (f : Fill) : Type 0 where
  pub other_maker : f.maker ≢ taker.owner
  pub for_taker : f.taker ≡ taker.owner
  pub same_market : f.market_id ≡ taker.market_id
  pub same_side : f.taker_is_buy ≡ taker.is_buy
  pub within_limit : IsWithinLimit taker f.price

fill_maker-Allowed :
    (taker : Order) (price i : ℕ) (maker : Order) (r : LevelRun)
    → beyond_limit taker price ≡ false
    → maker.owner ≢ taker.owner
    → All (Allowed taker) r.fills
    → All (Allowed taker) (fill_maker taker price i maker r).fills
unfolding fill_maker
fill_maker-Allowed taker price i maker r within other h = All-append (Allowed taker) r.fills _ h (
  record {
    other_maker = other;
    for_taker = refl;
    same_market = refl;
    same_side = refl;
    within_limit = beyond_limit-IsWithinLimit taker price within;
  },
  tt,
)

-- Every fill of a successful match is for the taker, in its market, on its side and against another
-- trader; its price is at most the limit price of a buyer and at least that of a seller, unless the
-- limit price is 0.
pub match_order-Allowed :
    (taker : Order) (ob ob' : OrderbookManager) (s : State) {fills : List Fill} {s' : State}
    → match_order taker ob s ≡ (ok fills, ob', s')
    → All (Allowed taker) fills
match_order-Allowed taker ob ob' s e =
    (match_order_keeps taker (λ fills _ _. All (Allowed taker) fills)
      (λ price i maker r within _ other h. fill_maker-Allowed taker price i maker r within other h)
      ob ob' s tt e).1
