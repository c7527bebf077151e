-- ===== src/Liquidation/Candidates.antt =====
-- What holds of the candidates for auto-deleveraging: crates/engine/src/liquidation.rs.
use pranklin.Base.{
  ℕ, ◌+◌, ◌*◌, ◌==◌, ◌<◌, ◌≡◌, Bool, true, false, List, [], ◌∷◌, ok, All, All-map, how_many, ◌&&◌,
  ltb, leb, if◌then◌else◌, arith, Result-cases, inl, inr, Bool-cases, ap,
}
use pranklin.Base.Words.{u128_mod, fit}
use pranklin.Types.Position.{Position}
use pranklin.Position.{calculate_pnl}
use pranklin.Liquidation.Deleveraging.{
  AdlCandidate, make_candidate, find_candidates, insert_by_score, sort_by_score,
}

insert_by_score-All :
    (P : AdlCandidate → Type 0) (c : AdlCandidate) (cs : List AdlCandidate)
    → P c
    → All P cs
    → All P (insert_by_score c cs)
unfolding insert_by_score
insert_by_score-All P c [] one all = (one, all)
insert_by_score-All P c (d ∷ ds) one all = ground (arith, insert_by_score-All P c ds one all.1)

pub sort_by_score-All :
    (P : AdlCandidate → Type 0) (cs : List AdlCandidate) → All P cs → All P (sort_by_score cs)
unfolding sort_by_score
sort_by_score-All P [] all = all
sort_by_score-All P (c ∷ cs) all =
    insert_by_score-All P c (sort_by_score cs) all.0 (sort_by_score-All P cs all.1)

abbrev pub Fits : ℕ → ℕ → AdlCandidate → Type 0
Fits required price c = required + c.position_size * price < u128_mod

-- A position of a trader, with some size, that is worth no less at a price than at its entry if it is
-- long, and no more if it is short.
abbrev pub has_not_lost : ℕ → ℕ → ℕ × Position → Bool
has_not_lost price trader (t, p) =
    t == trader
    && (ltb 0 p.size
        && (if p.is_long
            then leb (p.size * p.entry_price) (p.size * price)
            else leb (p.size * price) (p.size * p.entry_price)))

-- What holds of a candidate, given the positions it was found in.
pub record Found (required price : ℕ) (positions : List (ℕ × Position)) (c : AdlCandidate)
    : Type 0 where
  pub fits : Fits required price c
  pub gained : 0 < how_many (has_not_lost price c.trader) positions

abbrev pub PositionFits : ℕ → ℕ → ℕ × Position → Type 0
PositionFits required price (t, p) = required + p.size * price < u128_mod

make_candidate-size :
    (market_id price : ℕ) (p : Position) (trader pnl : ℕ) (c : AdlCandidate)
    → make_candidate market_id price p trader pnl ≡ ok c
    → (c.trader ≡ trader) × (c.position_size ≡ p.size)
unfolding make_candidate
make_candidate-size market_id price p trader pnl c gave = ground arith

weaken_Found :
    (required price : ℕ) (one : ℕ × Position) (positions : List (ℕ × Position)) (c : AdlCandidate)
    → Found required price positions c
    → Found required price (one ∷ positions) c
weaken_Found required price (t, p) positions c h = record {
  fits = h.fits;
  gained = ground (arith, h.gained);
}

calculate_pnl-gained :
    (p : Position) (price : ℕ) (pnl : ℕ × Bool)
    → (p.size == 0) ≡ false
    → calculate_pnl p price ≡ ok pnl
    → pnl.1 ≡ true
    → (if p.is_long
        then leb (p.size * p.entry_price) (p.size * price)
        else leb (p.size * price) (p.size * p.entry_price))
      ≡ true
unfolding calculate_pnl fit
calculate_pnl-gained p price pnl held gain up = ground arith

first_Found :
    (required price market_id t : ℕ) (p : Position) (positions : List (ℕ × Position))
    (pnl : ℕ × Bool) (c : AdlCandidate)
    → PositionFits required price (t, p)
    → (p.size == 0) ≡ false
    → calculate_pnl p price ≡ ok pnl
    → pnl.1 ≡ true
    → make_candidate market_id price p t pnl.0 ≡ ok c
    → Found required price ((t, p) ∷ positions) c
first_Found required price market_id t p positions pnl c fit held gain up made =
    let same = make_candidate-size market_id price p t pnl.0 c made in
    record {
      fits = omega (arith, fit, ap (λ n. n * price) same.1);
      gained =
          let kept = calculate_pnl-gained p price pnl held gain up in
          ground (arith, kept, held, same.0);
    }

pub find_candidates-Found :
    (required price market_id : ℕ) (positions : List (ℕ × Position)) (cs : List AdlCandidate)
    → All (PositionFits required price) positions
    → find_candidates market_id price positions ≡ ok cs
    → All (Found required price positions) cs
unfolding find_candidates
find_candidates-Found required price market_id [] cs fit gave = ground arith
find_candidates-Found required price market_id ((t, p) ∷ positions) cs fit gave =
    let weaken = weaken_Found required price (t, p) positions in
    let later = find_candidates market_id price positions in
    let skipped : later ≡ ok cs → All (Found required price ((t, p) ∷ positions)) cs = λ same.
      All-map (Found required price positions) (Found required price ((t, p) ∷ positions)) cs weaken
        (find_candidates-Found required price market_id positions cs fit.1 same) in
    elim (Bool-cases (p.size == 0)) [
      | inl empty ↦ skipped (ground arith)
      | inr held ↦ elim (Result-cases (calculate_pnl p price)) [
        | inl (why, failed) ↦ ground arith
        | inr (pnl, gain) ↦ elim (Bool-cases pnl.1) [
          | inr down ↦ skipped (ground arith)
          | inl up ↦ elim (Result-cases (make_candidate market_id price p t pnl.0)) [
            | inl (why, failed) ↦ ground arith
            | inr (c, made) ↦ elim (Result-cases later) [
              | inl (why, failed) ↦ ground arith
              | inr (rest, found) ↦
                  let split : cs ≡ c ∷ rest = ground arith in
                  rw split (
                    first_Found required price market_id t p positions pnl c fit.0 held gain up
                        made,
                    All-map (Found required price positions)
                        (Found required price ((t, p) ∷ positions)) rest weaken
                        (find_candidates-Found required price market_id positions rest fit.1 found),
                  )
            ]
          ]
        ]
      ]
    ]
