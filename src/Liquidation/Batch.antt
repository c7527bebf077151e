-- ===== src/Liquidation/Batch.antt =====
-- `process_liquidation_batch` of crates/engine/src/liquidation.rs, and what it does to the fund of
-- its market.
use pranklin.Base.{
  ℕ, suc, zero, ◌+◌, ◌≤◌, ◌≡◌, Bool, true, false, not, ◌==◌, Option, none, some, List, [], ◌∷◌,
  length, take, keep, map, how_many, All, sum_by, Result, ok, err, market_not_found, Method, arith,
  Result-cases, Option-cases, Bool-cases, inl, inr,
}
use pranklin.State.{get_market}
use pranklin.Types.Market.{Market, normalize_price}
use pranklin.Liquidation.Defs.{should_liquidate}
use pranklin.Liquidation.Engine.{
  Venue, LiquidationResult, liquidate_with_incentive, liquidate_due, liquidate_position,
}
use pranklin.Liquidation.Fund.{fund_balance, liquidate_with_incentive-fund}
use pranklin.Liquidation.RiskIndex.{
  PositionRisk, RiskIndex, or_empty_heap, get_at_risk_positions, below, who,
}

abbrev pub push_result :
    Option LiquidationResult
    → Result (List LiquidationResult) × Venue
    → Result (List LiquidationResult) × Venue
push_result none after = after
push_result (some r) (err e, v) = (err e, v)
push_result (some r) (ok rs, v) = (ok (r ∷ rs), v)

-- The loop, which stops at the first error and keeps what was done before it.
unfoldable pub liquidate_each : ℕ → ℕ → List (ℕ × ℕ) → Method Venue (List LiquidationResult)
liquidate_each mark_price liquidator [] v = (ok [], v)
liquidate_each mark_price liquidator ((trader, m) ∷ rest) v =
    let (r, v') = liquidate_with_incentive trader m mark_price liquidator v in
    let after = liquidate_each mark_price liquidator rest v' in
    elim r [ err e ↦ (err e, v') | ok result ↦ push_result result after ]

module _ (heap_order : List PositionRisk → List PositionRisk) where
  unfoldable pub process_liquidation_batch :
      RiskIndex → ℕ → ℕ → ℕ → ℕ → Method Venue (List LiquidationResult)
  process_liquidation_batch index market_id mark_price liquidator max_liquidations v =
      elim (get_market v.state market_id) [
        | none ↦ (err market_not_found, v)
        | some market ↦
            liquidate_each mark_price liquidator
              (take max_liquidations
                (get_at_risk_positions heap_order index market_id market.maintenance_margin_bps))
              v
      ]

abbrev pub usage : LiquidationResult → ℕ
usage r = r.insurance_fund_usage

abbrev pub contributed : LiquidationResult → ℕ
contributed r = r.insurance_fund_contribution

due_some :
    (trader m price liquidator : ℕ) (market : Market) (v v' : Venue)
    → liquidate_due trader m price liquidator market v ≡ (ok none, v')
    → true ≡ false
unfolding liquidate_due liquidate_position
due_some trader m price liquidator market v v' e = ground arith

-- A position that is not due leaves the venue as it was.
not_due_same :
    (trader m price liquidator : ℕ) (v v' : Venue)
    → liquidate_with_incentive trader m price liquidator v ≡ (ok none, v')
    → fund_balance v' m ≡ fund_balance v m
unfolding liquidate_with_incentive
not_due_same trader m price liquidator v v' e = elim (Option-cases (get_market v.state m)) [
  | inl unknown ↦ ground arith
  | inr (market, known) ↦
      let normal = normalize_price market price in
      elim (Result-cases (should_liquidate v.state trader m normal market)) [
        | inl (why, failed) ↦ ground arith
        | inr (due, judged) ↦ elim (Bool-cases due) [
          | inl is_due ↦ ground (arith, due_some trader m normal liquidator market v v')
          | inr not_due ↦ ground arith
        ]
      ]
]

abbrev pub IsIn : ℕ → ℕ × ℕ → Type 0
IsIn market_id entry = entry.1 ≡ market_id

liquidate_each-fund :
    (m price liquidator : ℕ) (entries : List (ℕ × ℕ)) (v v' : Venue) (rs : List LiquidationResult)
    → All (IsIn m) entries
    → liquidate_each price liquidator entries v ≡ (ok rs, v')
    → (fund_balance v' m + sum_by usage rs ≡ fund_balance v m + sum_by contributed rs)
      × (length rs ≤ length entries)
unfolding liquidate_each
liquidate_each-fund m price liquidator [] v v' rs all e = ground arith
liquidate_each-fund m price liquidator ((trader, k) ∷ rest) v v' rs all e =
    let one = liquidate_with_incentive trader k price liquidator v in
    let after = liquidate_each price liquidator rest one.1 in
    elim (Result-cases one.0) [
      | inl (why, failed) ↦ ground arith
      | inr (result, gave) ↦ elim (Option-cases result) [
        | inl nothing ↦
            let same : one ≡ (ok none, one.1) = ground arith in
            let kept = not_due_same trader k price liquidator v one.1 same in
            let more =
              liquidate_each-fund m price liquidator rest one.1 v' rs all.1 (ground arith) in
            ground (arith, kept, more, all.0)
        | inr (r, some_r) ↦ elim (Result-cases after.0) [
          | inl (why, failed) ↦ ground arith
          | inr (later, ran) ↦
              let same : one ≡ (ok (some r), one.1) = ground arith in
              let paid = liquidate_with_incentive-fund trader k price liquidator v one.1 r same in
              let more =
                liquidate_each-fund m price liquidator rest one.1 v' later all.1 (ground arith) in
              let split : rs ≡ r ∷ later = ground arith in ground (arith, paid, more, all.0, split)
        ]
      ]
    ]

-- A risk that stands under another market than its own.
abbrev pub misfiled : ℕ → PositionRisk → Bool
misfiled m risk = not (risk.market_id == m)

filed-IsIn :
    (m threshold : ℕ) (heap : List PositionRisk)
    → how_many (misfiled m) heap ≡ 0
    → All (IsIn m) (map who (keep (below threshold) heap))
filed-IsIn m threshold [] none_wrong = tt
filed-IsIn m threshold (r ∷ heap) none_wrong =
    ground (arith, none_wrong, filed-IsIn m threshold heap)

take-All :
    (m count : ℕ) (entries : List (ℕ × ℕ))
    → All (IsIn m) entries
    → All (IsIn m) (take count entries)
take-All m zero entries all = tt
take-All m (suc count) [] all = tt
take-All m (suc count) (e ∷ entries) (first, others) = (first, take-All m count entries others)

length-take : (count : ℕ) (entries : List (ℕ × ℕ)) → length (take count entries) ≤ count
length-take zero entries = omega arith
length-take (suc count) [] = omega arith
length-take (suc count) (e ∷ entries) = omega (arith, length-take count entries)

module _ (heap_order : List PositionRisk → List PositionRisk) where
  -- A batch that succeeds reports at most as many liquidations as were asked for, and what they
  -- report as used and contributed is together what the fund of the market has lost and gained (the
  -- risks of the market are filed under it, and `BinaryHeap::iter` visits each element once).
  pub process_liquidation_batch-fund :
      (index : RiskIndex) (m price liquidator max_liquidations : ℕ) (v v' : Venue)
      (rs : List LiquidationResult)
      → ((q : PositionRisk → Bool) (heap : List PositionRisk)
          → how_many q (heap_order heap) ≡ how_many q heap)
      → how_many (misfiled m) (or_empty_heap (index m)) ≡ 0
      → process_liquidation_batch heap_order index m price liquidator max_liquidations v
        ≡ (ok rs, v')
      → (fund_balance v' m + sum_by usage rs ≡ fund_balance v m + sum_by contributed rs)
        × (length rs ≤ max_liquidations)
  unfolding process_liquidation_batch get_at_risk_positions
  process_liquidation_batch-fund index m price liquidator max_liquidations v v' rs fair filed e =
      elim (Option-cases (get_market v.state m)) [
        | inl unknown ↦ ground arith
        | inr (market, known) ↦
            let threshold = market.maintenance_margin_bps in
            let entries = get_at_risk_positions heap_order index m threshold in
            let chosen = take max_liquidations entries in
            let ran : liquidate_each price liquidator chosen v ≡ (ok rs, v') = ground arith in
            let each : All (IsIn m) entries = elim (Option-cases (index m)) [
              | inl no_heap ↦ let listed : entries ≡ [] = ground arith in rw listed tt
              | inr (heap, there) ↦
                  let listed : entries ≡ map who (keep (below threshold) (heap_order heap)) =
                    ground arith in
                  rw listed (
                    filed-IsIn m threshold (heap_order heap)
                      (ground (arith, fair (misfiled m) heap, filed, there)))
            ] in
            let (funds, fewer) =
              liquidate_each-fund m price liquidator chosen v v' rs
                (take-All m max_liquidations entries each) ran in
            (funds, omega (arith, fewer, length-take max_liquidations entries))
      ]
