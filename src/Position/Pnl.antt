-- ===== src/Position/Pnl.antt =====
-- The profit of a position: no checked operation of it fails on u64 inputs, and a long and a short
-- of the same size are worth opposite amounts.
use pranklin.Base.{ℕ, ◌*◌, ◌<◌, ◌≡◌, Bool, arith, ok, if◌then◌else◌}
use pranklin.Base.Int.{ℤ, pos, sub_ℕ}
use pranklin.Base.Words.{u64_mod, fit-ok, mul-lt_u128}
use pranklin.Base.Try.{map_ok}
use pranklin.Position.Defs.{calculate_pnl}
use pranklin.Types.Position.{Position}

-- The fields of a position are within their words.
pub record Fits (p : Position) : Type 0 where
  pub size_fits : p.size < u64_mod
  pub entry_price_fits : p.entry_price < u64_mod

-- A profit as an integer.
abbrev pub signed : ℕ × Bool → ℤ
signed (amount, is_profit) = if is_profit then pos amount else sub_ℕ 0 amount

-- What a position has gained: its value at the mark price less its value at entry, or the
-- opposite for a short.
abbrev pub gain : Position → ℕ → ℤ
gain p mark =
    if p.is_long
    then sub_ℕ (p.size * mark) (p.size * p.entry_price)
    else sub_ℕ (p.size * p.entry_price) (p.size * mark)

-- With u64 sizes and prices no checked operation fails, and the amount with its sign is the gain.
pub calculate_pnl-gain :
    (p : Position) (mark : ℕ)
    → Fits p
    → mark < u64_mod
    → map_ok signed (calculate_pnl p mark) ≡ ok (gain p mark)
unfolding calculate_pnl
calculate_pnl-gain p mark f h = ground (
  arith,
  fit-ok (p.size * p.entry_price),
  fit-ok (p.size * mark),
  mul-lt_u128 p.size p.entry_price,
  mul-lt_u128 p.size mark,
  f.size_fits,
  f.entry_price_fits,
)
