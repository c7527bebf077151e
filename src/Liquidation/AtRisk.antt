-- ===== src/Liquidation/AtRisk.antt =====
-- What the index of positions at risk lists: crates/engine/src/liquidation.rs.
use pranklin.Base.{
  ℕ, ◌+◌, Bool, false, not, ◌&&◌, ◌≡◌, some, List, [], ◌∷◌, keep, how_many, map, ltb, ◌==◌, update,
  number_key, ok, err, refl, arith, ◌∙◌, Result-cases, Option-cases, inl, inr,
}
use pranklin.Types.Position.{Position}
use pranklin.State.{State, get_all_positions_in_market}
use pranklin.Liquidation.Defs.{position_margin_ratio}
use pranklin.Liquidation.RiskIndex.{
  PositionRisk, RiskIndex, or_empty_heap, create_position_risk, index_position, index_positions,
  rebuild_risk_index, below, who, get_at_risk_positions,
}

-- A position of a trader, not empty, whose margin ratio is below the threshold.
abbrev pub is_due : ℕ → ℕ → ℕ → ℕ × Position → Bool
is_due trader threshold_bps mark_price (t, p) =
    t == trader
    && (not (p.size == 0) && elim (position_margin_ratio p mark_price) [
      | err e ↦ false
      | ok ratio ↦ ltb ratio threshold_bps
    ])

abbrev pub risk_of : ℕ → ℕ → PositionRisk → Bool
risk_of trader threshold_bps risk = risk.trader == trader && below threshold_bps risk

abbrev pub is_for : ℕ → ℕ × ℕ → Bool
is_for trader (t, m) = t == trader

-- Of the listed pairs, those of a trader come from the risks of the trader below the threshold.
how_many-who :
    (trader threshold : ℕ) (heap : List PositionRisk)
    → how_many (is_for trader) (map who (keep (below threshold) heap))
      ≡ how_many (risk_of trader threshold) heap
how_many-who trader threshold [] = refl
how_many-who trader threshold (r ∷ heap) = ground (arith, how_many-who trader threshold heap)

index_position-how_many :
    (trader threshold mark_price market_id t : ℕ) (p : Position) (index : RiskIndex)
    → (index_position mark_price market_id t p index).0 ≡ ok tt
    → how_many
        (risk_of trader threshold)
        (or_empty_heap ((index_position mark_price market_id t p index).1 market_id))
      ≡ how_many (is_due trader threshold mark_price) ((t, p) ∷ [])
        + how_many (risk_of trader threshold) (or_empty_heap (index market_id))
unfolding index_position create_position_risk
index_position-how_many trader threshold mark_price market_id t p index h = ground arith

index_positions-how_many :
    (trader threshold mark_price market_id : ℕ) (positions : List (ℕ × Position))
    (index : RiskIndex)
    → (index_positions mark_price market_id positions index).0 ≡ ok tt
    → how_many
        (risk_of trader threshold)
        (or_empty_heap ((index_positions mark_price market_id positions index).1 market_id))
      ≡ how_many (is_due trader threshold mark_price) positions
        + how_many (risk_of trader threshold) (or_empty_heap (index market_id))
unfolding index_positions
index_positions-how_many trader threshold mark_price market_id [] index h = omega arith
index_positions-how_many trader threshold mark_price market_id ((t, p) ∷ positions) index h =
    let one = index_position mark_price market_id t p index in
    elim (Result-cases one.0) [
      | inl (why, failed) ↦ cc
      | inr (u, passed) ↦
          let first =
            index_position-how_many trader threshold mark_price market_id t p index passed in
          let later =
            index_positions-how_many trader threshold mark_price market_id positions one.1
              (ground arith) in
          ground (arith, first, later)
    ]

module _ (heap_order : List PositionRisk → List PositionRisk) where
  get_at_risk-how_many :
      (index : RiskIndex) (market_id trader threshold : ℕ)
      → ((q : PositionRisk → Bool) (heap : List PositionRisk)
          → how_many q (heap_order heap) ≡ how_many q heap)
      → how_many (is_for trader) (get_at_risk_positions heap_order index market_id threshold)
        ≡ how_many (risk_of trader threshold) (or_empty_heap (index market_id))
  unfolding get_at_risk_positions
  get_at_risk-how_many index market_id trader threshold fair =
      elim (Option-cases (index market_id)) [
        | inl no_heap ↦ ground arith
        | inr (heap, there) ↦ ground (
          arith,
          how_many-who trader threshold (heap_order heap),
          fair (risk_of trader threshold) heap,
        )
      ]

  -- If an index of a market is rebuilt without an error, the positions at risk that it then lists for
  -- a trader are as many as the positions of the trader in the market that are not empty and have a
  -- margin ratio below the threshold; `BinaryHeap::iter` visits each element of a heap once.
  pub rebuild-at_risk :
      (s : State) (market_id mark_price trader threshold : ℕ) (index : RiskIndex)
      → ((q : PositionRisk → Bool) (heap : List PositionRisk)
          → how_many q (heap_order heap) ≡ how_many q heap)
      → (rebuild_risk_index s market_id mark_price index).0 ≡ ok tt
      → how_many (is_for trader) (
          get_at_risk_positions heap_order
            (rebuild_risk_index s market_id mark_price index).1
            market_id
            threshold)
        ≡ how_many (is_due trader threshold mark_price) (get_all_positions_in_market s market_id)
  unfolding rebuild_risk_index
  rebuild-at_risk s market_id mark_price trader threshold index fair passed =
      let cleared = update index market_id (some []) in
      let positions = get_all_positions_in_market s market_id in
      get_at_risk-how_many (index_positions mark_price market_id positions cleared).1 market_id
        trader threshold fair
      ∙ ground (
        arith,
        index_positions-how_many trader threshold mark_price market_id positions cleared passed,
      )
