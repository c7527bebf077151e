-- ===== src/Liquidation/RiskIndex.antt =====
-- The index of positions by their risk: crates/engine/src/liquidation.rs. A heap stands as the list
-- of what was pushed, the latest first; `heap_order` is the order in which `BinaryHeap::iter` of the
-- standard library visits it, which its documentation leaves open.
use pranklin.Base.{
  ℕ, Bool, Option, none, some, List, [], ◌∷◌, keep, map, ltb, ◌==◌, if◌then◌else◌, update,
  number_key, Result, ok, err,
}
use pranklin.Base.Try.{◌>>=◌}
use pranklin.Base.Words.{checked_mul}
use pranklin.Types.Position.{Position}
use pranklin.State.{State, get_position, get_all_positions_in_market}
use pranklin.Risk.{equity_of}
use pranklin.Liquidation.Defs.{position_margin_ratio}

pub record PositionRisk : Type 0 where
  pub trader : ℕ
  pub market_id : ℕ
  pub margin_ratio : ℕ
  pub position_value : ℕ
  pub equity : ℕ

-- `at_risk_positions` of the engine.
abbrev pub RiskIndex : Type 0
RiskIndex = ℕ → Option (List PositionRisk)

abbrev pub or_empty_heap : Option (List PositionRisk) → List PositionRisk
or_empty_heap none = []
or_empty_heap (some heap) = heap

unfoldable pub create_position_risk : ℕ → ℕ → Position → ℕ → Result PositionRisk
create_position_risk trader market_id p mark_price = do
  margin_ratio ← position_margin_ratio p mark_price
  position_value ← checked_mul p.size mark_price
  equity ← equity_of p mark_price
  ok (record {
    trader = trader;
    market_id = market_id;
    margin_ratio = margin_ratio;
    position_value = position_value;
    equity = equity;
  })

-- `entry(market_id).or_default().push(risk)`
abbrev pub push_risk : ℕ → PositionRisk → RiskIndex → RiskIndex
push_risk market_id risk index =
    update index market_id (some (risk ∷ or_empty_heap (index market_id)))

-- A position that is not empty is pushed, unless its risk overflows.
unfoldable pub index_position : ℕ → ℕ → ℕ → Position → RiskIndex → Result (Unit {0}) × RiskIndex
index_position mark_price market_id trader p index =
    if p.size == 0
    then (ok tt, index)
    else elim (create_position_risk trader market_id p mark_price) [
      | err e ↦ (err e, index)
      | ok risk ↦ (ok tt, push_risk market_id risk index)
    ]

unfoldable pub update_risk_index : State → ℕ → ℕ → ℕ → RiskIndex → Result (Unit {0}) × RiskIndex
update_risk_index s trader market_id mark_price index = elim (get_position s trader market_id) [
  | none ↦ (ok tt, index)
  | some p ↦ index_position mark_price market_id trader p index
]

-- The loop of `rebuild_risk_index`, which stops at the first error.
unfoldable pub index_positions :
    ℕ → ℕ → List (ℕ × Position) → RiskIndex → Result (Unit {0}) × RiskIndex
index_positions mark_price market_id [] index = (ok tt, index)
index_positions mark_price market_id ((trader, p) ∷ positions) index =
    let (r, index') = index_position mark_price market_id trader p index in
    elim r [
      | err e ↦ (err e, index')
      | ok u ↦ index_positions mark_price market_id positions index'
    ]

unfoldable pub rebuild_risk_index : State → ℕ → ℕ → RiskIndex → Result (Unit {0}) × RiskIndex
rebuild_risk_index s market_id mark_price index =
    index_positions mark_price market_id (get_all_positions_in_market s market_id)
      (update index market_id (some []))

abbrev pub below : ℕ → PositionRisk → Bool
below threshold_bps risk = ltb risk.margin_ratio threshold_bps

abbrev pub who : PositionRisk → ℕ × ℕ
who risk = (risk.trader, risk.market_id)

module _ (heap_order : List PositionRisk → List PositionRisk) where
  unfoldable pub get_at_risk_positions : RiskIndex → ℕ → ℕ → List (ℕ × ℕ)
  get_at_risk_positions index market_id threshold_bps = elim (index market_id) [
    | none ↦ []
    | some heap ↦ map who (keep (below threshold_bps) (heap_order heap))
  ]
