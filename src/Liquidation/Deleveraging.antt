-- ===== src/Liquidation/Deleveraging.antt =====
-- Auto-deleveraging: `find_adl_candidates` and `auto_deleverage` of
-- crates/engine/src/liquidation.rs. `sort_by` of the standard library is a stable sort, here by
-- insertion.
use pranklin.Base.{
  ℕ, ◌-◌, ◌/◌, ◌==◌, Bool, true, not, List, [], ◌∷◌, leb, ltb, if◌then◌else◌, Result, ok, err,
}
use pranklin.Base.Int.{ℤ, pos, negsuc, ◌*ℤ◌, ltb_ℤ}
use pranklin.Base.Try.{◌>>=◌}
use pranklin.Base.Words.{u128_mod, u128_max, checked_mul, add_u128, as_u64}
use pranklin.Types.Position.{Position}
use pranklin.State.{State, get_all_positions_in_market}
use pranklin.Position.{basis_points, calculate_pnl}
use pranklin.Risk.{equity_of}
use pranklin.Funding.Defs.{fit_i128, i128_sign}
use pranklin.Liquidation.Defs.{LiquidationEngine}
use pranklin.Liquidation.Engine.{execute_adl}

pub record AdlCandidate : Type 0 where
  pub trader : ℕ
  pub market_id : ℕ
  pub position_size : ℕ
  pub unrealized_pnl : ℕ
  pub is_profit : Bool
  pub profit_score : ℤ

-- `n as i128` for a u128.
abbrev pub as_i128 : ℕ → ℤ
as_i128 n = if ltb n i128_sign then pos n else negsuc (u128_mod - n - 1)

-- The value over the equity, in basis points.
unfoldable pub leverage_of : ℕ → ℕ → Result ℕ
leverage_of position_value equity =
    if equity == 0
    then ok u128_max
    else (do scaled ← checked_mul position_value basis_points; ok (scaled / equity))

-- The candidate that a profitable position makes.
unfoldable pub make_candidate : ℕ → ℕ → Position → ℕ → ℕ → Result AdlCandidate
make_candidate market_id mark_price p trader pnl = do
  position_value ← checked_mul p.size mark_price
  equity ← equity_of p mark_price
  leverage ← leverage_of position_value equity
  profit_score ← fit_i128 (as_i128 pnl *ℤ as_i128 leverage)
  ok (record {
    trader = trader;
    market_id = market_id;
    position_size = p.size;
    unrealized_pnl = pnl;
    is_profit = true;
    profit_score = profit_score;
  })

unfoldable pub find_candidates : ℕ → ℕ → List (ℕ × Position) → Result (List AdlCandidate)
unfolding make_candidate
find_candidates market_id mark_price [] = ok []
find_candidates market_id mark_price ((trader, p) ∷ positions) =
    let rest = find_candidates market_id mark_price positions in
    if p.size == 0 then rest else (do
      pnl ← calculate_pnl p mark_price
      if not pnl.1 then rest else (do
        candidate ← make_candidate market_id mark_price p trader pnl.0
        candidates ← rest
        ok (candidate ∷ candidates)))

unfoldable pub find_adl_candidates : State → ℕ → ℕ → Result (List AdlCandidate)
find_adl_candidates s market_id mark_price =
    find_candidates market_id mark_price (get_all_positions_in_market s market_id)

-- Before the first one whose score is not higher.
unfoldable pub insert_by_score : AdlCandidate → List AdlCandidate → List AdlCandidate
insert_by_score c [] = c ∷ []
insert_by_score c (d ∷ ds) =
    if ltb_ℤ c.profit_score d.profit_score then d ∷ insert_by_score c ds else c ∷ d ∷ ds

-- The highest scores first, and equal scores in the order in which they were found.
unfoldable pub sort_by_score : List AdlCandidate → List AdlCandidate
sort_by_score [] = []
sort_by_score (c ∷ cs) = insert_by_score c (sort_by_score cs)

-- The sum and the difference are those of u128 in a release build; the difference is taken where
-- it is positive.
unfoldable pub deleverage_size : ℕ → ℕ → ℕ → ℕ → Result ℕ
deleverage_size required_amount collected_amount position_size position_value =
    if ltb required_amount (add_u128 collected_amount position_value)
    then (do
      scaled ← checked_mul (required_amount - collected_amount) position_size
      ok (as_u64 (scaled / position_value)))
    else ok position_size

abbrev pub and_then : Result (List (ℕ × ℕ)) × State → (ℕ × ℕ) → Result (List (ℕ × ℕ)) × State
and_then (err e, s) done = (err e, s)
and_then (ok dones, s) done = (ok (done ∷ dones), s)

-- The size that a candidate loses, and its value, which is computed after the position has changed.
unfoldable pub size_for : ℕ → ℕ → ℕ → AdlCandidate → Result ℕ
unfolding deleverage_size
size_for mark_price required_amount collected_amount c = do
  position_value ← checked_mul c.position_size mark_price
  deleverage_size required_amount collected_amount c.position_size position_value

unfoldable pub deleverage :
    ℕ → ℕ → ℕ → ℕ → List AdlCandidate → State → Result (List (ℕ × ℕ)) × State
deleverage market_id mark_price required_amount collected_amount [] s = (ok [], s)
deleverage market_id mark_price required_amount collected_amount (c ∷ candidates) s =
    if leb required_amount collected_amount
    then (ok [], s)
    else elim (size_for mark_price required_amount collected_amount c) [
      | err e ↦ (err e, s)
      | ok size ↦
          let (r, s') = execute_adl c.trader market_id size s in
          elim r [
            | err e ↦ (err e, s')
            | ok u ↦ elim (checked_mul size mark_price) [
              | err e ↦ (err e, s')
              | ok value ↦
                  and_then
                    (deleverage market_id mark_price required_amount
                      (add_u128 collected_amount value) candidates s')
                    (c.trader, size)
            ]
          ]
    ]

unfoldable pub auto_deleverage :
    ℕ → ℕ → ℕ → LiquidationEngine → State → Result (List (ℕ × ℕ)) × State
auto_deleverage market_id required_amount mark_price e s =
    if not e.adl_enabled then (ok [], s) else elim (find_adl_candidates s market_id mark_price) [
      | err why ↦ (err why, s)
      | ok candidates ↦
          deleverage market_id mark_price required_amount 0 (sort_by_score candidates) s
    ]
