-- ===== src/Chain/CustomFloat/Whole.antt =====
-- src/shared/src/block/header/custom_float.hpp: `pow2` of whole numbers.
use janusminer.Common.{ℕ, zero, suc, ◌+◌, ◌-◌, ◌*◌, ◌%◌, ◌^◌, ◌≡◌, ◌≤◌, ◌<◌, refl, ap, ◌∙◌, arith}
use janusminer.Common.{Bool, true, false, some, u32, ltb, ◌==◌, if◌then◌else◌, ◌>>=◌}
use janusminer.Common.{ℤ, pos, negsuc, ◌+ℤ◌, ◌-ℤ◌, ltb_ℤ, leb_ℤ, int_laws, pow-add, pow_pos}
use janusminer.Chain.CustomFloat.{CustomFloat, set_exponent, new_shift_left, empty}
use janusminer.Chain.CustomFloat.Power.{
  from_int, pow2, pow2_whole, from_exponent, negate_exponent, add_exponent,
}
use janusminer.Chain.CustomFloat.Shift.{IsFull, shift_left_lem, set_exponent_lem}
use janusminer.Chain.CustomFloat.Bounds.{IsExponent-of_parts}
use janusminer.Chain.CustomFloat.Sum.{full-is_zero}
use janusminer.Chain.CustomFloat.PowerTotal.{from_exponent_lem}
use native.Mathlib.Nat.{mul-div_left, mul_assoc}

-- A whole number in the form of the type: 32 - `r` bits before the point.
abbrev whole : ℕ → ℕ → Bool → CustomFloat
whole n r p = record { exponent = pos (32 - r); mantissa = n * 2 ^ r; positive = p }

new_shift_left_lem :
    (n : ℕ) (p : Bool)
    → 0 < n
    → n < 2 ^ 31
    → (r : ℕ) × (1 ≤ r)
      × (r ≤ 31)
      × IsFull (n * 2 ^ r)
      × (new_shift_left (pos 32) n p ≡ some (whole n r p))
unfolding new_shift_left
new_shift_left_lem n p lo hi =
    let (r, few, full, eq) = shift_left_lem empty (pos 32) n lo (omega arith) in
    (
      r,
      shifted r full.0,
      few,
      full,
      rw (eq (IsExponent-of_parts _ (omega int_laws) (omega int_laws)), places r few) refl,
    )
  where
    places : (r : ℕ) → r ≤ 31 → pos 32 -ℤ pos r ≡ pos (32 - r)
    places r few = omega int_laws

    shifted : (r : ℕ) → 2 ^ 31 ≤ n * 2 ^ r → 1 ≤ r
    shifted zero full = absurd (omega arith)
    shifted (suc r) full = omega arith

-- The power of two with exponent `n`, as its only normal form.
abbrev pub power_of_two : ℤ → CustomFloat
power_of_two e = record { exponent = e +ℤ pos 1; mantissa = 2 ^ 31; positive = true }

pow2_whole-whole :
    (n r : ℕ) (p : Bool)
    → r ≤ 31
    → pow2_whole (whole n r p) (32 - r) ≡ (
        if p
        then from_exponent (pos n)
        else from_exponent (pos n) >>= λ q. negate_exponent q >>= λ s. add_exponent s (pos 2))
unfolding pow2_whole
pow2_whole-whole n r p few = rw (no_fraction, back, mul-div_left n (pow_pos r)) refl
  where
    back : 32 - (32 - r) ≡ r
    back = omega arith

    no_fraction : (n * 2 ^ r * 2 ^ (32 - r) % u32 == 0) ≡ true
    no_fraction = rw (mul_assoc, ← pow-add r (32 - r), together) (ground arith)
      where
        together : r + (32 - r) ≡ 32
        together = omega arith

pow2-whole :
    (n r : ℕ) (p : Bool)
    → 1 ≤ r
    → r ≤ 31
    → IsFull (n * 2 ^ r)
    → pow2 (whole n r p) ≡ pow2_whole (whole n r p) (32 - r)
unfolding pow2
pow2-whole n r p lo few full = rw (full-is_zero (whole n r p) full, fits, large) refl
  where
    fits : leb_ℤ (pos (32 - r)) (pos 31) ≡ true
    fits = ground arith

    large : ltb_ℤ (pos 0) (pos (32 - r)) ≡ true
    large = ground arith

pow2-new_shift_left :
    (n : ℕ) (p : Bool)
    → n < 2 ^ 31 - 3
    → (new_shift_left (pos 32) (suc n) p >>= pow2) ≡ (
        if p
        then from_exponent (pos (suc n))
        else from_exponent (pos (suc n)) >>= λ q. negate_exponent q >>= λ s. add_exponent s (pos 2))
pow2-new_shift_left n p small =
    let (r, lo, few, full, eq) = new_shift_left_lem (suc n) p (omega arith) (omega arith) in
    ap (λ o. o >>= pow2) eq ∙ pow2-whole (suc n) r p lo few full ∙ pow2_whole-whole (suc n) r p few

negated :
    (n : ℕ)
    → n < 2 ^ 31 - 3
    → (negate_exponent (power_of_two (pos (suc n))) >>= λ s. add_exponent s (pos 2))
      ≡ some (power_of_two (negsuc n))
unfolding negate_exponent add_exponent
negated n small =
    ap (λ o. o >>= λ s. set_exponent s (s.exponent +ℤ pos 2))
      (set_exponent_lem (power_of_two (pos (suc n))) opposite
        (IsExponent-of_parts opposite (omega int_laws) (omega int_laws)))
    ∙ rw exponents (
        set_exponent_lem (at opposite) (negsuc n +ℤ pos 1)
          (IsExponent-of_parts (negsuc n +ℤ pos 1) (omega int_laws) (omega int_laws)))
  where
    opposite : ℤ
    opposite = pos 0 -ℤ (pos (suc n) +ℤ pos 1)

    at : ℤ → CustomFloat
    at e = record { exponent = e; mantissa = 2 ^ 31; positive = true }

    exponents : opposite +ℤ pos 2 ≡ negsuc n +ℤ pos 1
    exponents = omega int_laws

-- For a whole number from 1 to 2 ^ 31 - 3, the power of two of it and of its negative are exact.
pub pow2-from_int :
    (n : ℕ)
    → n < 2 ^ 31 - 3
    → ((from_int (pos (suc n)) >>= pow2) ≡ some (power_of_two (pos (suc n))))
      × ((from_int (negsuc n) >>= pow2) ≡ some (power_of_two (negsuc n)))
unfolding from_int
pow2-from_int n small = (
  pow2-new_shift_left n true small ∙ from_exponent_lem (suc n) (omega arith),
  rw fits (
      pow2-new_shift_left n false small
      ∙ ap (λ o. o >>= λ q. negate_exponent q >>= λ s. add_exponent s (pos 2))
          (from_exponent_lem (suc n) (omega arith))
      ∙ negated n small),
)
  where
    fits : ltb n (2 ^ 31 - 1) ≡ true
    fits = ground arith
