-- ===== src/Position/Margin.antt =====
-- The margin and the entry price of a position that a trade changes.
use pranklin.Base.{ℕ, ◌+◌, ◌-◌, ◌*◌, ◌/◌, ◌<◌, ◌≤◌, ◌≡◌, arith, ok, min, max}
use pranklin.Base.Words.{u64_mod, fit, mul_mono, div_bounds}
use native.Mathlib.Nat.{div-mul-le_self, mul-sub}
use pranklin.Types.Position.{Position}
use pranklin.Position.Defs.{increase_position, shrink_position}

-- Both divisions of the partial reduction round in favour of the margin that stays.
release_bound : (m s p q r : ℕ) → q * p ≤ s * 10000 → r * 10000 ≤ m * q → r * p ≤ m * s
release_bound m s p q r h k =
    omega (arith, mul_mono (r * 10000) (m * q) p k, mul_mono (q * p) (s * 10000) m h)

-- If a share of the parts is released, the rest of the margin is enough for the rest of the parts.
kept_share : (m p s r : ℕ) → s ≤ p → r * p ≤ m * s → m * (p - s) ≤ (m - r) * p
kept_share m p s r h k = omega (arith, mul-sub m p s, mul-sub p m r)

shrink_position_margin_lem :
    (p : Position) (size : ℕ) {q : Position}
    → shrink_position p size ≡ ok q
    → q.margin ≡ p.margin - p.margin * (size * 10000 / p.size) / 10000
unfolding shrink_position fit
shrink_position_margin_lem p size e = ground arith

-- A reduction by at most the size, if it succeeds, keeps at least the pro rata share of the margin
-- and adds none.
pub shrink_position-margin :
    (p : Position) (size : ℕ) {q : Position}
    → size ≤ p.size
    → shrink_position p size ≡ ok q
    → (p.margin * (p.size - size) ≤ q.margin * p.size) × (q.margin ≤ p.margin)
shrink_position-margin p size h e =
    let ratio = size * 10000 / p.size in
    let released = p.margin * ratio / 10000 in
    rw (shrink_position_margin_lem p size e) (
      kept_share p.margin p.size size released h (
          release_bound p.margin size p.size ratio released (div-mul-le_self (size * 10000) p.size)
            (div-mul-le_self (p.margin * ratio) 10000)),
      omega arith,
    )

-- A weighted average lies between its parts.
average_bounds :
    (a x b y : ℕ)
    → 0 < a + b
    → let average = (a * x + b * y) / (a + b) in (min x y ≤ average) × (average ≤ max x y)
average_bounds a x b y h =
    div_bounds (a * x + b * y) (a + b) (min x y) (max x y) h
      (omega (arith, mul_mono (min x y) x a (omega arith), mul_mono (min x y) y b (omega arith)))
      (omega (arith, mul_mono x (max x y) a (omega arith), mul_mono y (max x y) b (omega arith)))

-- After an increase that succeeds the entry price lies between the old one and the price of the
-- trade, if both are u64 and the new size is not 0.
pub increase_position-entry_price :
    (p : Position) (size price bps : ℕ) {q : Position}
    → p.entry_price < u64_mod
    → price < u64_mod
    → 0 < p.size + size
    → increase_position p size price bps ≡ ok q
    → (min p.entry_price price ≤ q.entry_price) × (q.entry_price ≤ max p.entry_price price)
unfolding increase_position fit
increase_position-entry_price p size price bps hp hs pos e =
    ground (arith, average_bounds p.size p.entry_price size price pos)
