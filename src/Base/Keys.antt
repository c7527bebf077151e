-- ===== src/Base/Keys.antt =====
-- Keys with a decidable equality, and functions that are updated at a key.
use pranklin.Base.Tests.{◌==◌, ==_iff, if◌then◌else◌}
use Prim.Native.Nat.{ℕ}
use mathlib.Core.Path.{◌≡◌, refl}
use mathlib.Core.Logic.{◌↔◌}
use mathlib.Core.Bool.{Bool, true, ◌&&◌}
use native.Mathlib.Omega.{arith}

pub record Key (K : Type 0) : Type 0 where
  pub beq : K → K → Bool
  pub beq_iff : (a b : K) → (beq a b ≡ true) ↔ (a ≡ b)

abbrev pub pair_beq : ℕ × ℕ → ℕ × ℕ → Bool
pair_beq (a, b) (c, d) = a == c && b == d

pub pair_beq_iff : (p q : ℕ × ℕ) → (pair_beq p q ≡ true) ↔ (p ≡ q)
pair_beq_iff (a, b) (c, d) = ground arith

pub unit_beq_iff : (a b : Unit {0}) → (true ≡ true) ↔ (a ≡ b)
unit_beq_iff a b = (λ _. refl, λ _. refl)

instance abbrev pub number_key : Key ℕ
number_key = record { beq = ◌==◌; beq_iff = ==_iff }

instance abbrev pub pair_key : Key (ℕ × ℕ)
pair_key = record { beq = pair_beq; beq_iff = pair_beq_iff }

instance abbrev pub unit_key : Key (Unit {0})
unit_key = record { beq = λ _ _. true; beq_iff = unit_beq_iff }

-- A map as a function, written at one key.
abbrev pub update {ℓ} : {K : Type 0} {V : Type ℓ} ⦃e : Key K⦄ → (K → V) → K → V → K → V
update ⦃e⦄ f k v j = if e.beq k j then v else f j
