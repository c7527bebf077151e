-- ===== src/Liquidation/Collected.antt =====
-- What auto-deleveraging collects, and from whom: crates/engine/src/liquidation.rs.
use pranklin.Base.{
  ℕ, ◌+◌, ◌-◌, ◌*◌, ◌/◌, ◌<◌, ◌≤◌, ◌≡◌, List, [], ◌∷◌, leb, ltb, ok, All, All-map, how_many, sum_by,
  arith, Result-cases, inl, inr, ◌⊎◌, Bool-cases, ap, sym, ◌∙◌,
}
use pranklin.Base.Try.{◌>>=◌, >>=-eq-ok}
use pranklin.Base.Words.{u128_mod, u64_mod, checked_mul, add_u128, as_u64, fit, fit_inv, mul_mono}
use native.Mathlib.Nat.{le_of_mul-le-mul_right, div-mul-le_self, mod-le}
use pranklin.State.{State, get_all_positions_in_market}
use pranklin.Liquidation.Defs.{LiquidationEngine}
use pranklin.Liquidation.Engine.{execute_adl}
use pranklin.Liquidation.Deleveraging.{
  AdlCandidate, find_adl_candidates, sort_by_score, deleverage_size, size_for, deleverage,
  auto_deleverage,
}
use pranklin.Liquidation.Candidates.{
  Fits, PositionFits, Found, has_not_lost, sort_by_score-All, find_candidates-Found,
}

pos_of-lt-mul : (a b c : ℕ) → a < b * c → 0 < b
pos_of-lt-mul a b c h = grind arith

mul_swap : (a b c : ℕ) → a * (b * c) ≡ a * c * b
mul_swap a b c = omega arith

-- A share of a size, rounded down, is worth at most what it is a share for.
share_value :
    (left size price : ℕ) → left < size * price → (left * size) / (size * price) * price ≤ left
share_value left size price h =
    let share = (left * size) / (size * price) in
    let positive = pos_of-lt-mul left size price h in
    le_of_mul-le-mul_right
      (omega (arith, div-mul-le_self (left * size) (size * price), mul_swap share size price))
      positive

share-le :
    (left size price n : ℕ)
    → as_u64 ((left * size) / (size * price)) ≡ n
    → left < size * price
    → n * price ≤ left
share-le left size price n at h =
    let share = (left * size) / (size * price) in
    omega (
      arith,
      share_value left size price h,
      mul_mono n share price (omega (arith, mod-le share u64_mod, at)),
    )

partial_value :
    (left size price n : ℕ)
    → (checked_mul left size >>= (λ scaled. ok (as_u64 (scaled / (size * price))))) ≡ ok n
    → left < size * price
    → n * price ≤ left
partial_value left size price n chain h =
    let (scaled, fitted, gave) =
      >>=-eq-ok (checked_mul left size) (λ scaled. ok (as_u64 (scaled / (size * price)))) chain in
    let same = fit_inv (left * size) fitted in
    share-le left size price n (ground (arith, gave, ap (λ k. as_u64 (k / (size * price))) same.0))
      h

deleverage_size-value :
    (required collected size price n : ℕ)
    → collected < required
    → required + size * price < u128_mod
    → deleverage_size required collected size (size * price) ≡ ok n
    → collected + n * price ≤ required
unfolding deleverage_size
deleverage_size-value required collected size price n less fits gave =
    elim (Bool-cases (ltb required (add_u128 collected (size * price)))) [
      | inl part ↦ omega (
        arith,
        less,
        partial_value (required - collected) size price n (ground arith) (ground arith),
      )
      | inr whole ↦ ground arith
    ]

-- The value of what was taken from each trader.
abbrev pub value_at : ℕ → ℕ × ℕ → ℕ
value_at price (trader, size) = size * price

size_for-value :
    (price required collected n : ℕ) (c : AdlCandidate)
    → collected < required
    → Fits required price c
    → size_for price required collected c ≡ ok n
    → collected + n * price ≤ required
unfolding size_for
size_for-value price required collected n c less fits gave =
    let (value, fitted, gave') =
      >>=-eq-ok (checked_mul c.position_size price)
        (λ value. deleverage_size required collected c.position_size value) gave in
    let same = fit_inv (c.position_size * price) fitted in
    deleverage_size-value required collected c.position_size price n less fits
      (ap (λ v. deleverage_size required collected c.position_size v) (sym same.0) ∙ gave')

-- What a step that succeeds went through, and what was done after it.
record Step (market_id price required collected : ℕ) (c : AdlCandidate) (cs : List AdlCandidate)
    (s : State) (dones : List (ℕ × ℕ)) : Type 0 where
  pub size : ℕ
  pub rest : List (ℕ × ℕ)
  pub sized : size_for price required collected c ≡ ok size
  pub done : dones ≡ (c.trader, size) ∷ rest
  pub later :
      (deleverage market_id price required
        (add_u128 collected (size * price))
        cs
        (execute_adl c.trader market_id size s).1).0
      ≡ ok rest

deleverage_inv :
    (market_id price required collected : ℕ) (c : AdlCandidate) (cs : List AdlCandidate) (s : State)
    (dones : List (ℕ × ℕ))
    → (deleverage market_id price required collected (c ∷ cs) s).0 ≡ ok dones
    → (dones ≡ []) ⊎ ((collected < required) × Step market_id price required collected c cs s dones)
unfolding deleverage fit
deleverage_inv market_id price required collected c cs s dones gave =
    elim (Bool-cases (leb required collected)) [
      | inl enough ↦ inl (ground arith)
      | inr short ↦ elim (Result-cases (size_for price required collected c)) [
        | inl (why, failed) ↦ ground arith
        | inr (n, sized) ↦
            let acted = execute_adl c.trader market_id n s in
            let next = add_u128 collected (n * price) in
            let after = deleverage market_id price required next cs acted.1 in
            elim (Result-cases acted.0) [
              | inl (why, failed) ↦ ground arith
              | inr (u, passed) ↦ elim (Result-cases after.0) [
                | inl (why, failed) ↦ ground arith
                | inr (rest, later) ↦ inr (
                  ground arith,
                  record {
                    size = n;
                    rest = rest;
                    sized = sized;
                    done = ground arith;
                    later = later;
                  },
                )
              ]
            ]
      ]
    ]

deleverage-value :
    (market_id price required collected : ℕ) (cs : List AdlCandidate) (s : State)
    (dones : List (ℕ × ℕ))
    → collected ≤ required
    → required < u128_mod
    → All (Fits required price) cs
    → (deleverage market_id price required collected cs s).0 ≡ ok dones
    → collected + sum_by (value_at price) dones ≤ required
unfolding deleverage
deleverage-value market_id price required collected [] s dones le word fits gave = ground arith
deleverage-value market_id price required collected (c ∷ cs) s dones le word fits gave =
    elim (deleverage_inv market_id price required collected c cs s dones gave) [
      | inl nothing ↦ omega (arith, le, ap (sum_by (value_at price)) nothing)
      | inr (less, step) ↦
          let n = step.size in
          let next = add_u128 collected (n * price) in
          let worth = size_for-value price required collected n c less fits.0 step.sized in
          let sum : next ≡ collected + n * price = ground (arith, worth) in
          let after =
            deleverage-value market_id price required next cs (execute_adl c.trader market_id n s).1
              step.rest (omega (arith, worth, sum)) word fits.1 step.later in
          omega (arith, after, sum, ap (sum_by (value_at price)) step.done)
    ]

deleverage-All :
    (P : ℕ → Type 0) (market_id price required collected : ℕ) (cs : List AdlCandidate) (s : State)
    (dones : List (ℕ × ℕ))
    → All (λ c. P c.trader) cs
    → (deleverage market_id price required collected cs s).0 ≡ ok dones
    → All (λ done. P done.0) dones
unfolding deleverage
deleverage-All P market_id price required collected [] s dones each gave = ground arith
deleverage-All P market_id price required collected (c ∷ cs) s dones each gave =
    elim (deleverage_inv market_id price required collected c cs s dones gave) [
      | inl nothing ↦ rw nothing tt
      | inr (less, step) ↦ rw step.done (
        each.0,
        deleverage-All P market_id price required (add_u128 collected (step.size * price)) cs
            (execute_adl c.trader market_id step.size s).1 step.rest each.1 step.later,
      )
    ]

-- Deleveraging that succeeds takes positions worth at most the required amount, each from a trader
-- who has a position in the market that has not lost at the mark price: a long one that is worth no
-- less than at its entry, or a short one that is worth no more (the required amount and the value of
-- any one position of the market fit u128 together).
pub auto_deleverage-collected :
    (market_id required price : ℕ) (e : LiquidationEngine) (s : State) (dones : List (ℕ × ℕ))
    → required < u128_mod
    → All (PositionFits required price) (get_all_positions_in_market s market_id)
    → (auto_deleverage market_id required price e s).0 ≡ ok dones
    → (sum_by (value_at price) dones ≤ required)
      × All
          (λ done.
            0 < how_many (has_not_lost price done.0) (get_all_positions_in_market s market_id))
          dones
unfolding auto_deleverage find_adl_candidates
auto_deleverage-collected market_id required price e s dones word fit gave =
    elim (Bool-cases e.adl_enabled) [
      | inr disabled ↦ ground arith
      | inl enabled ↦ elim (Result-cases (find_adl_candidates s market_id price)) [
        | inl (why, failed) ↦ ground arith
        | inr (cs, found) ↦
            let positions = get_all_positions_in_market s market_id in
            let each =
              sort_by_score-All (Found required price positions) cs
                (find_candidates-Found required price market_id positions cs fit found) in
            let sorted = sort_by_score cs in
            let ran : (deleverage market_id price required 0 sorted s).0 ≡ ok dones =
              ground arith in
            (
              omega (
                arith,
                deleverage-value market_id price required 0 sorted s dones (omega arith) word
                    (All-map (Found required price positions) (Fits required price) sorted
                      (λ c h. h.fits) each)
                    ran,
              ),
              deleverage-All (λ t. 0 < how_many (has_not_lost price t) positions) market_id price
                  required 0 sorted s dones
                  (All-map (Found required price positions)
                    (λ c. 0 < how_many (has_not_lost price c.trader) positions) sorted
                    (λ c h. h.gained) each)
                  ran,
            )
      ]
    ]
