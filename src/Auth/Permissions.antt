-- ===== src/Auth/Permissions.antt =====
-- `Permissions` of crates/types/src/common.rs: a bitmap in a u64.
use Prim.Native.Nat.{bit_and, bit_or}
use pranklin.Base.{
  ℕ, zero, suc, ◌-◌, ◌/◌, ◌%◌, ◌<◌, ◌≡◌, Bool, true, false, not, ◌&&◌, ◌||◌, ◌==◌, [], ◌∷◌,
  contains, arith, refl,
}
use pranklin.Base.Words.{u64_mod}

abbrev pub place_order_bit : ℕ
place_order_bit = 1

abbrev pub cancel_order_bit : ℕ
cancel_order_bit = 2

abbrev pub modify_order_bit : ℕ
modify_order_bit = 4

abbrev pub close_position_bit : ℕ
close_position_bit = 8

abbrev pub withdraw_bit : ℕ
withdraw_bit = 16

abbrev pub all_bits : ℕ
all_bits = 31

unfoldable pub has : ℕ → ℕ → Bool
has bits permission = not (bit_and bits permission == 0)

unfoldable pub with_permission : ℕ → ℕ → ℕ
with_permission bits permission = bit_or bits permission

-- `!permission` on u64
unfoldable pub without_permission : ℕ → ℕ → ℕ
without_permission bits permission = bit_and bits (u64_mod - 1 - permission)

-- `Not` of a bitmap, within the known permissions.
unfoldable pub complement : ℕ → ℕ
complement bits = bit_and (u64_mod - 1 - bits) all_bits

unfoldable pub can_place_order : ℕ → Bool
can_place_order bits = has bits place_order_bit

unfoldable pub can_cancel_order : ℕ → Bool
can_cancel_order bits = has bits cancel_order_bit

unfoldable pub can_modify_order : ℕ → Bool
can_modify_order bits = has bits modify_order_bit

unfoldable pub can_close_position : ℕ → Bool
can_close_position bits = has bits close_position_bit

unfoldable pub can_withdraw : ℕ → Bool
can_withdraw bits = has bits withdraw_bit

-- The test of `AgentRegistry::is_authorized` on the permissions of an agent.
unfoldable pub grants : ℕ → ℕ → Bool
grants perms permission = bit_and perms permission == permission

abbrev pub same : Bool → Bool → Bool
same true b = b
same false b = not b

-- The laws at one bit, as a test.
abbrev pub laws_at : ℕ → ℕ → ℕ → Bool
laws_at p q r =
    same (has (with_permission p q) r) (has p r || has q r)
    && (same (has (without_permission p q) r) (has p r && not (has q r))
        && (same (has (complement p) r) (not (has p r)) && same (grants p r) (has p r)))

all_below : ℕ → (ℕ → Bool) → Bool
all_below zero p = true
all_below (suc n) p = p n && all_below n p

abbrev single : ℕ → ℕ → Bool
single p q =
    laws_at p q 1 && (laws_at p q 2 && (laws_at p q 4 && (laws_at p q 8 && laws_at p q 16)))

table : all_below 32 (λ p. all_below 32 (λ q. single p q)) ≡ true
unfolding all_below has with_permission without_permission complement grants
table = refl

all_below-at : (n : ℕ) (f : ℕ → Bool) (x : ℕ) → all_below n f ≡ true → x < n → f x ≡ true
unfolding all_below
all_below-at zero f x h less = ground arith
all_below-at (suc n) f x h less = ground (arith, all_below-at n f x)

abbrev pub is_permission : ℕ → Bool
is_permission r = contains r (1 ∷ 2 ∷ 4 ∷ 8 ∷ 16 ∷ [])

laws_at-inv :
    (p q r : ℕ)
    → laws_at p q r ≡ true
    → (has (with_permission p q) r ≡ (has p r || has q r))
      × (has (without_permission p q) r ≡ (has p r && not (has q r)))
      × (has (complement p) r ≡ not (has p r))
      × (grants p r ≡ has p r)
laws_at-inv p q r h = ground arith

at_permission :
    (f : ℕ → Bool) (r : ℕ)
    → (f 1 && (f 2 && (f 4 && (f 8 && f 16)))) ≡ true
    → is_permission r ≡ true
    → f r ≡ true
at_permission f r h bit = ground arith

-- For bitmaps of known permissions and each of the five permissions: adding a bitmap grants what
-- either has, removing one keeps what the other does not have, the complement has what the bitmap
-- does not have, and the test of the agent registry agrees with the test of the bitmap.
pub has-laws :
    (p q r : ℕ)
    → p < 32
    → q < 32
    → is_permission r ≡ true
    → (has (with_permission p q) r ≡ (has p r || has q r))
      × (has (without_permission p q) r ≡ (has p r && not (has q r)))
      × (has (complement p) r ≡ not (has p r))
      × (grants p r ≡ has p r)
has-laws p q r hp hq hr =
    let row = all_below-at 32 (λ p. all_below 32 (λ q. single p q)) p table hp in
    let cell = all_below-at 32 (λ q. single p q) q row hq in
    laws_at-inv p q r (at_permission (laws_at p q) r cell hr)

-- A bit of a bitmap, by its place value.
abbrev pub is_set : ℕ → ℕ → Bool
is_set bits place = (bits / place) % 2 == 1

-- Every one of the five permissions that is in the second bitmap is in the first.
abbrev pub covers : ℕ → ℕ → Bool
covers perms permission =
    (not (is_set permission 1) || is_set perms 1)
    && ((not (is_set permission 2) || is_set perms 2)
        && ((not (is_set permission 4) || is_set perms 4)
            && ((not (is_set permission 8) || is_set perms 8)
                && (not (is_set permission 16) || is_set perms 16))))

cover_table : all_below 32 (λ p. all_below 32 (λ q. same (grants p q) (covers p q))) ≡ true
unfolding all_below grants
cover_table = refl

same-≡ : (a b : Bool) → same a b ≡ true → a ≡ b
same-≡ true b e = ground (arith, e)
same-≡ false b e = ground (arith, e)

-- The test of the agent registry, on bitmaps of known permissions, is on each of the five.
pub grants-covers : (p q : ℕ) → p < 32 → q < 32 → grants p q ≡ covers p q
grants-covers p q hp hq =
    let row =
      all_below-at 32 (λ p. all_below 32 (λ q. same (grants p q) (covers p q))) p cover_table hp in
    same-≡ (grants p q) (covers p q)
      (all_below-at 32 (λ q. same (grants p q) (covers p q)) q row hq)
