-- ===== src/Liquidation/Fund.antt =====
-- The insurance fund through a liquidation: `liquidate_with_incentive` of
-- crates/engine/src/liquidation.rs.
use pranklin.Base.{
  ℕ, ◌+◌, ◌-◌, ◌≡◌, ◌∙◌, refl, inl, inr, some, List, [], ◌∷◌, Option-cases, arith, ok, Result-cases,
  Bool-cases, number_key, ap,
}
use pranklin.Base.Words.{fit}
use pranklin.Types.Position.{Position}
use pranklin.Types.Market.{Market, normalize_price}
use pranklin.State.{get_market, get_position, get_active_orders_by_market}
use pranklin.Risk.{equity_of}
use pranklin.Liquidation.Defs.{
  get_insurance_fund, draw_fund, contribute_fund, fees_for, should_liquidate,
}
use pranklin.Liquidation.Engine.{
  Venue, LiquidationResult, use_fund, reduce_or_close, credit, add_to_fund, credit_rest,
  size_to_liquidate, liquidate_position, cancel_if_own, cancel_orders, cancel_trader_orders,
  liquidate_due, liquidate_with_incentive,
}

abbrev pub fund_balance : Venue → ℕ → ℕ
fund_balance v market_id = (get_insurance_fund v.engine market_id).balance

use_fund_pays :
    (m equity fee : ℕ) (v : Venue) {used : ℕ}
    → (use_fund m equity fee v).0 ≡ ok used
    → fund_balance (use_fund m equity fee v).1 m + used ≡ fund_balance v m
unfolding use_fund draw_fund get_insurance_fund
use_fund_pays m equity fee v e = ground arith

add_to_fund_adds :
    (m contribution : ℕ) (v v' : Venue)
    → add_to_fund m contribution v ≡ (ok tt, v')
    → fund_balance v' m ≡ fund_balance v m + contribution
unfolding add_to_fund contribute_fund get_insurance_fund fit
add_to_fund_adds m contribution v v' e = ground arith

reduce_or_close_engine :
    (t m : ℕ) (p : Position) (size : ℕ) (v : Venue)
    → (reduce_or_close t m p size v).1.engine ≡ v.engine
unfolding reduce_or_close
reduce_or_close_engine t m p size v = ground arith

credit_engine : (a i amount : ℕ) (v : Venue) → (credit a i amount v).1.engine ≡ v.engine
unfolding credit
credit_engine a i amount v = ground arith

credit_rest_engine : (a i amount : ℕ) (v : Venue) → (credit_rest a i amount v).1.engine ≡ v.engine
credit_rest_engine a i amount v = ground (arith, credit_engine a i amount v)

same_fund : (m : ℕ) (v v' : Venue) → v'.engine ≡ v.engine → fund_balance v' m ≡ fund_balance v m
same_fund m v v' h = ap (λ e. (get_insurance_fund e m).balance) h

-- The steps of a liquidation that touch the fund, and what it reports of them.
record Booked (m : ℕ) (v v' : Venue) (r : LiquidationResult) : Type 0 where
  equity : ℕ
  fee : ℕ
  closed : Venue
  added : Venue
  used : (use_fund m equity fee v).0 ≡ ok r.insurance_fund_usage
  kept : closed.engine ≡ (use_fund m equity fee v).1.engine
  contributed : add_to_fund m r.insurance_fund_contribution closed ≡ (ok tt, added)
  rest : v'.engine ≡ added.engine

liquidate_position-Booked :
    (trader m price liquidator : ℕ) (market : Market) (p : Position) (v v' : Venue)
    (r : LiquidationResult)
    → liquidate_position trader m price liquidator market p v ≡ (ok (some r), v')
    → Booked m v v' r
unfolding liquidate_position
liquidate_position-Booked trader m price liquidator market p v v' r e =
    elim (Result-cases (size_to_liquidate price market p v)) [
      | inl (x, bad) ↦ ground arith
      | inr (size, sized) ↦ elim (Result-cases (fees_for v.engine market size price)) [
        | inl (x, bad) ↦ ground arith
        | inr (fees, priced) ↦ elim (Result-cases (equity_of p price)) [
          | inl (x, bad) ↦ ground arith
          | inr (equity, worth) ↦
              let asset = market.quote_asset_id in
              let left = equity - fees.fee in
              let v₁ = (use_fund m equity fees.fee v).1 in
              let v₂ = (reduce_or_close trader m p size v₁).1 in
              let v₃ = (credit liquidator asset fees.reward v₂).1 in
              let v₄ = (add_to_fund m fees.contribution v₃).1 in
              record {
                equity = equity;
                fee = fees.fee;
                closed = v₃;
                added = v₄;
                used = ground arith;
                kept =
                    credit_engine liquidator asset fees.reward v₂
                    ∙ reduce_or_close_engine trader m p size v₁;
                contributed = ground arith;
                rest = ground (arith, credit_rest_engine trader asset left v₄);
              }
        ]
      ]
    ]

liquidate_position-fund :
    (trader m price liquidator : ℕ) (market : Market) (p : Position) (v v' : Venue)
    (r : LiquidationResult)
    → liquidate_position trader m price liquidator market p v ≡ (ok (some r), v')
    → fund_balance v' m + r.insurance_fund_usage ≡ fund_balance v m + r.insurance_fund_contribution
liquidate_position-fund trader m price liquidator market p v v' r e =
    let b = liquidate_position-Booked trader m price liquidator market p v v' r e in
    let v₁ = (use_fund m b.equity b.fee v).1 in
    omega (
      arith,
      use_fund_pays m b.equity b.fee v b.used,
      same_fund m v₁ b.closed b.kept,
      add_to_fund_adds m r.insurance_fund_contribution b.closed b.added b.contributed,
      same_fund m b.added v' b.rest,
    )

cancel_if_own_engine : (t m i : ℕ) (v : Venue) → (cancel_if_own t m i v).1.engine ≡ v.engine
unfolding cancel_if_own
cancel_if_own_engine t m i v = ground arith

cancel_orders_engine :
    (t m : ℕ) (ids : List ℕ) (v : Venue) → (cancel_orders t m ids v).1.engine ≡ v.engine
unfolding cancel_orders
cancel_orders_engine t m [] v = refl
cancel_orders_engine t m (i ∷ ids) v =
    cancel_orders_engine t m ids (cancel_if_own t m i v).1 ∙ cancel_if_own_engine t m i v

liquidate_due-fund :
    (trader m price liquidator : ℕ) (market : Market) (v v' : Venue) (r : LiquidationResult)
    → liquidate_due trader m price liquidator market v ≡ (ok (some r), v')
    → fund_balance v' m + r.insurance_fund_usage ≡ fund_balance v m + r.insurance_fund_contribution
unfolding liquidate_due cancel_trader_orders
liquidate_due-fund trader m price liquidator market v v' r e =
    let ids = get_active_orders_by_market v.state m in
    let v₁ = (cancel_orders trader m ids v).1 in
    let same = same_fund m v v₁ (cancel_orders_engine trader m ids v) in
    elim (Option-cases (get_position v₁.state trader m)) [
      | inl gone ↦ ground arith
      | inr (p, held) ↦ omega (
        arith,
        same,
        liquidate_position-fund trader m price liquidator market p v₁ v' r (ground arith),
      )
    ]

-- What a liquidation that succeeds reports as used and contributed is what the fund of its market
-- has lost and gained: the balance after and the usage are the balance before and the contribution.
pub liquidate_with_incentive-fund :
    (trader m mark_price liquidator : ℕ) (v v' : Venue) (r : LiquidationResult)
    → liquidate_with_incentive trader m mark_price liquidator v ≡ (ok (some r), v')
    → fund_balance v' m + r.insurance_fund_usage ≡ fund_balance v m + r.insurance_fund_contribution
unfolding liquidate_with_incentive
liquidate_with_incentive-fund trader m mark_price liquidator v v' r e =
    elim (Option-cases (get_market v.state m)) [
      | inl unknown ↦ ground arith
      | inr (market, known) ↦
          let price = normalize_price market mark_price in
          elim (Result-cases (should_liquidate v.state trader m price market)) [
            | inl (x, bad) ↦ ground arith
            | inr (due, judged) ↦ elim (Bool-cases due) [
              | inl is_due ↦
                  liquidate_due-fund trader m price liquidator market v v' r (ground arith)
              | inr not_due ↦ ground arith
            ]
          ]
    ]
