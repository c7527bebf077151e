-- ===== src/Orderbook/Conservation.antt =====
-- Matching moves size and makes none up: what the fills take from the taker and from each resting
-- order is what those orders lose.
use pranklin.Base.{
  ℕ, ◌+◌, ◌-◌, ◌≤◌, inl, inr, Bool-cases, ◌≡◌, ◌∙◌, none, some, List, [], ◌∷◌, ◌++◌, arith, ◌==◌,
  if◌then◌else◌, min, ok, sum_by, sum_by-append,
}
use pranklin.Types.Order.{Order, Fill}
use pranklin.State.{State, get_order, set_order, remove_active_order}
use pranklin.State.Laws.{get_order-set_order, get_order-remove_active_order}
use pranklin.Orderbook.Manager.{OrderbookManager}
use pranklin.Orderbook.Matching.{LevelRun, fill_of, fill_maker, match_order}
use pranklin.Orderbook.Loops.{match_order_keeps}

-- What is left of an order in the state.
abbrev pub open_size : State → ℕ → ℕ
open_size s i = elim (get_order s i) [ none ↦ 0 | some o ↦ o.remaining_size ]

abbrev pub total_filled : List Fill → ℕ
total_filled = sum_by (λ f. f.size)

-- What the fills take from one resting order.
abbrev pub filled_from : ℕ → List Fill → ℕ
filled_from i = sum_by (λ f. if f.maker_order_id == i then f.size else 0)

abbrev Balanced : Order → State → List Fill → ℕ → State → Type 0
Balanced taker before fills remaining s =
    (remaining + total_filled fills ≡ taker.remaining_size)
    × ((i : ℕ) → open_size s i + filled_from i fills ≡ open_size before i)

open_size-set_order :
    (i j : ℕ) (o : Order) (s : State)
    → open_size (set_order i o s) j ≡ (if i == j then o.remaining_size else open_size s j)
open_size-set_order i j o s = ground (arith, get_order-set_order i j o s)

open_size-remove_active_order :
    (m i j : ℕ) (s : State) → open_size (remove_active_order m i s) j ≡ open_size s j
open_size-remove_active_order m i j s = ground (arith, get_order-remove_active_order m i j s)

fill_maker_reads :
    (taker : Order) (price i : ℕ) (maker : Order) (r : LevelRun) (j : ℕ)
    → open_size (fill_maker taker price i maker r).state j ≡ (
        if i == j
        then maker.remaining_size - min r.remaining maker.remaining_size
        else open_size r.state j)
unfolding fill_maker
fill_maker_reads taker price i maker r j =
    elim (Bool-cases (maker.remaining_size - min r.remaining maker.remaining_size == 0)) [
      | inl full ↦
          rw full (
            open_size-remove_active_order maker.market_id i j _ ∙ open_size-set_order i j _ r.state)
      | inr partial ↦ rw partial (open_size-set_order i j _ r.state)
    ]

filled_from-snoc :
    (j : ℕ) (fills : List Fill) (f : Fill)
    → filled_from j (fills ++ f ∷ [])
      ≡ filled_from j fills + (if f.maker_order_id == j then f.size else 0)
filled_from-snoc j fills f =
    omega
      (arith, sum_by-append {0} (λ g. if g.maker_order_id == j then g.size else 0) fills (f ∷ []))

fill_maker-Balanced :
    (taker : Order) (before : State) (price i : ℕ) (maker : Order) (r : LevelRun)
    → get_order r.state i ≡ some maker
    → Balanced taker before r.fills r.remaining r.state
    → let q = fill_maker taker price i maker r in Balanced taker before q.fills q.remaining q.state
unfolding fill_maker
fill_maker-Balanced taker before price i maker r found h = (
  let size = min r.remaining maker.remaining_size in
      omega (
        arith,
        h.0,
        sum_by-append {0} (λ f. f.size) r.fills (fill_of taker price i maker size ∷ []),
      ),
  λ j.
      let size = min r.remaining maker.remaining_size in
      ground (
        arith,
        h.1 j,
        fill_maker_reads taker price i maker r j,
        filled_from-snoc j r.fills (fill_of taker price i maker size),
      ),
)

-- Everything that a successful match takes from the taker or from a resting order is in the fills.
pub match_order-Balanced :
    (taker : Order) (ob ob' : OrderbookManager) (s : State) {fills : List Fill} {s' : State}
    → match_order taker ob s ≡ (ok fills, ob', s')
    → (total_filled fills ≤ taker.remaining_size)
      × ((i : ℕ) → open_size s' i + filled_from i fills ≡ open_size s i)
match_order-Balanced taker ob ob' s {fills} {s'} e =
    let (remaining, kept) =
      match_order_keeps taker (Balanced taker s)
        (λ price i maker r _ found _ h. fill_maker-Balanced taker s price i maker r found h) ob ob'
        s (omega arith, λ i. omega arith) e in
    (omega (arith, kept.0), kept.1)
