-- ===== src/Base/Failure.antt =====
-- `EngineError`, results, and methods on a mutable state that may fail. What a method wrote before
-- it failed stays written: the code rolls nothing back.
use Prim.Native.String.{String}
use mathlib.Core.Path.{◌≡◌, refl}
use mathlib.Core.Bool.{Bool, true, false}
use mathlib.Core.Option.{Option, none, some}
use mathlib.Core.Logic.{◌⊎◌, inl, inr}

pub data EngineError : Type 0 where
  market_not_found order_not_found position_not_found : EngineError
  insufficient_balance insufficient_margin unauthorized invalid_order_params : EngineError
  order_not_filled self_trade post_only_would_take reduce_only_would_increase : EngineError
  leverage_too_high would_be_liquidated overflow division_by_zero : EngineError
  state_error tx_error other : String → EngineError

pub data Result {ℓ} (A : Type ℓ) : Type ℓ where
  ok : A → Result A
  err : EngineError → Result A

abbrev pub ok_or {ℓ} : {A : Type ℓ} → Option A → EngineError → Result A
ok_or none e = err e
ok_or (some a) e = ok a

abbrev pub ensure : Bool → EngineError → Result (Unit {0})
ensure true e = ok tt
ensure false e = err e

-- A method on a mutable state.
abbrev pub Method : Type 0 → Type 0 → Type 0
Method S A = S → Result A × S

infixl 5 ◌>>=◌ ◌>>◌
abbrev pub ◌>>=◌ : {S A B : Type 0} → Method S A → (A → Method S B) → Method S B
◌>>=◌ m f s = let (r, s') = m s in elim r [ ok a ↦ f a s' | err e ↦ (err e, s') ]

abbrev pub ◌>>◌ : {S A B : Type 0} → Method S A → Method S B → Method S B
m >> k = m >>= λ _. k

abbrev pub pure : {S A : Type 0} → A → Method S A
pure a s = (ok a, s)

abbrev pub raise : {S A : Type 0} → EngineError → Method S A
raise e s = (err e, s)

abbrev pub gets : {S A : Type 0} → (S → A) → Method S A
gets f s = (ok (f s), s)

abbrev pub modify : {S : Type 0} → (S → S) → Method S (Unit {0})
modify f s = (ok tt, f s)

abbrev pub lift : {S A : Type 0} → Result A → Method S A
lift r s = (r, s)

abbrev pub require : {S : Type 0} → Bool → EngineError → Method S (Unit {0})
require b e s = (ensure b e, s)

pub Result-cases :
    {A : Type 0} (r : Result A) → ((x : EngineError) × (r ≡ err x)) ⊎ ((a : A) × (r ≡ ok a))
Result-cases (err x) = inl (x, refl)
Result-cases (ok a) = inr (a, refl)
