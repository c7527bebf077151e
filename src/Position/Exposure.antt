-- ===== src/Position/Exposure.antt =====
-- How a trade changes what a trader holds: the position's size with its sign moves by the size of
-- the trade with its sign, through increases, reductions, flips and closes alike.
use pranklin.Base.{
  ℕ, ◌+◌, ◌-◌, ◌<◌, ◌≡◌, Bool, false, not, inl, inr, Option, none, some, arith, Result, ok, err,
  leb, if◌then◌else◌, Bool-cases, ◌&&◌, ◌==◌,
}
use pranklin.Base.Int.{ℤ, pos, sub_ℕ, ◌+ℤ◌}
use pranklin.Base.Try.{>>=-eq-ok}
use pranklin.Base.Words.{u64_mod, fit}
use pranklin.Types.Position.{Position}
use pranklin.State.{State, get_position}
use pranklin.State.Laws.{
  get_position-set_position, get_position-delete_position, committed_position,
}
use pranklin.Position.Defs.{
  same_side, increase_position, calculate_initial_margin, shrink_position, change_position,
  open_position, update_position, traded_position, store_position,
}

-- A size with the sign of its side.
abbrev pub signed_size : ℕ → Bool → ℤ
signed_size size is_long = if is_long then pos size else sub_ℕ 0 size

abbrev pub exposure : Option Position → ℤ
exposure none = pos 0
exposure (some p) = signed_size p.size p.is_long

abbrev pub size_of : Option Position → ℕ
size_of none = 0
size_of (some p) = p.size

increase_position_size :
    (p : Position) (size price bps : ℕ) {q : Position}
    → p.size + size < u64_mod
    → increase_position p size price bps ≡ ok q
    → (q.size ≡ p.size + size) × (q.is_long ≡ p.is_long)
unfolding increase_position fit
increase_position_size p size price bps h e = ground arith

shrink_position_size :
    (p : Position) (size : ℕ) {q : Position}
    → shrink_position p size ≡ ok q
    → (q.size ≡ p.size - size) × (q.is_long ≡ p.is_long)
unfolding shrink_position fit
shrink_position_size p size e = ground arith

pub change_position-exposure :
    (p : Position) (size price : ℕ) (is_buy : Bool) (bps : ℕ) {r : Option Position}
    → p.size + size < u64_mod
    → change_position p size price is_buy bps ≡ ok r
    → exposure r ≡ exposure (some p) +ℤ signed_size size is_buy
unfolding change_position ◌+ℤ◌
change_position-exposure p size price is_buy bps h e =
    elim (Bool-cases (same_side p.is_long is_buy)) [
      | inl same ↦
          let (q, got, rest) =
            >>=-eq-ok (increase_position p size price bps) (λ q. ok (some q))
              (rw (same, change_position) at e) in
          ground (arith, increase_position_size p size price bps h got)
      | inr opposite ↦ elim (Bool-cases (leb p.size size)) [
        | inl covers ↦ ground (arith)
        | inr part ↦
            let (q, got, rest) =
              >>=-eq-ok (shrink_position p size) (λ q. ok (some q))
                (rw (opposite, part, change_position) at e) in
            ground (arith, shrink_position_size p size got)
      ]
    ]

open_position_size :
    (size price : ℕ) (is_buy : Bool) (bps : ℕ) {q : Position}
    → open_position size price is_buy bps ≡ ok q
    → (q.size ≡ size) × (q.is_long ≡ is_buy)
unfolding open_position calculate_initial_margin fit
open_position_size size price is_buy bps e = ground arith

traded_position-exposure :
    (o : Option Position) (size price : ℕ) (is_buy : Bool) (bps : ℕ) {r : Option Position}
    → size_of o + size < u64_mod
    → traded_position o size price is_buy bps ≡ ok r
    → exposure r ≡ exposure o +ℤ signed_size size is_buy
unfolding traded_position
traded_position-exposure (some p) size price is_buy bps h e =
    change_position-exposure p size price is_buy bps h e
traded_position-exposure none size price is_buy bps {r} h e =
    let wrap : Position → Result (Option Position) = λ q. ok (some q) in
    let (q, got, rest) = >>=-eq-ok (open_position size price is_buy bps) wrap e in
    unfold ◌+ℤ◌ in ground (arith, open_position_size size price is_buy bps got)

-- After a store that succeeds the position reads as what was stored, if none was committed.
store_position_read :
    (t m : ℕ) (r : Result (Option Position)) (s : State) {s' : State}
    → committed_position s t m ≡ none
    → store_position t m r s ≡ (ok tt, s')
    → r ≡ ok (get_position s' t m)
unfolding store_position
store_position_read t m (err x) s c e = ground arith
store_position_read t m (ok none) s c e = ground (arith, get_position-delete_position t m t m s)
store_position_read t m (ok (some p)) s c e = ground (arith, get_position-set_position t m t m p s)

-- A trade that succeeds moves the exposure by its signed size, if the sizes fit u64 and no
-- position of the trader in the market was committed before this block.
pub update_position-exposure :
    (trader market_id size price : ℕ) (is_buy : Bool) (bps : ℕ) (s : State) {s' : State}
    → size_of (get_position s trader market_id) + size < u64_mod
    → committed_position s trader market_id ≡ none
    → update_position trader market_id size price is_buy bps s ≡ (ok tt, s')
    → exposure (get_position s' trader market_id)
      ≡ exposure (get_position s trader market_id) +ℤ signed_size size is_buy
unfolding update_position
update_position-exposure t m size price is_buy bps s h c e =
    traded_position-exposure (get_position s t m) size price is_buy bps h
      (store_position_read t m _ s c e)

-- A trade changes no position of another trader or in another market, whether it succeeds or fails.
pub update_position_frame :
    (trader market_id size price : ℕ) (is_buy : Bool) (bps b n : ℕ) (s : State)
    → (trader == b && market_id == n) ≡ false
    → get_position (update_position trader market_id size price is_buy bps s).1 b n
      ≡ get_position s b n
unfolding update_position
update_position_frame t m size price is_buy bps b n s ne =
    grind (arith, get_position-set_position, get_position-delete_position)

-- If a position of the trader in the market was committed in an earlier block, a trade on the other
-- side, of exactly the size of the present position, succeeds, and the committed position is read
-- again in its place: the position is not closed.
pub close_position_committed :
    (trader market_id price : ℕ) (is_buy : Bool) (bps : ℕ) (p earlier : Position) (s : State)
    → committed_position s trader market_id ≡ some earlier
    → get_position s trader market_id ≡ some p
    → is_buy ≡ not p.is_long
    → let (r, s') = update_position trader market_id p.size price is_buy bps s in
      (r ≡ ok tt) × (get_position s' trader market_id ≡ some earlier)
unfolding update_position change_position
close_position_committed t m price is_buy bps p earlier s committed held opposite =
    ground (arith, committed, get_position-delete_position t m t m s)
