-- ===== src/Types/Position.antt =====
-- `Position` of crates/types/src/state.rs.
use pranklin.Base.{ℕ, ◌*◌, ◌/◌, Bool, ◌==◌, if◌then◌else◌}
use pranklin.Base.Words.{as_u64}

pub record Position : Type 0 where
  pub size : ℕ
  pub entry_price : ℕ
  pub is_long : Bool
  pub margin : ℕ
  pub funding_index : ℕ

unfoldable pub is_empty : Position → Bool
is_empty p = p.size == 0

-- `Position::notional_value`.
unfoldable pub entry_notional : Position → ℕ
entry_notional p = p.size * p.entry_price

unfoldable pub leverage : Position → ℕ
leverage p = if p.margin == 0 then 0 else as_u64 (entry_notional p / p.margin)
