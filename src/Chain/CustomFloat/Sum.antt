-- ===== src/Chain/CustomFloat/Sum.antt =====
-- src/shared/src/block/header/custom_float.hpp: `operator+=`.
use janusminer.Common.{ℕ, ◌+◌, ◌-◌, ◌*◌, ◌/◌, ◌^◌, ◌≡◌, ◌≤◌, ◌<◌, inl, inr, refl, arith, Bool-cases}
use janusminer.Common.{true, false, some, ltb, leb, ◌==◌}
use janusminer.Common.{
  ℤ, pos, pos_part, ◌+ℤ◌, ◌-ℤ◌, ltb_ℤ, leb_ℤ, i32_max, pow_pos, pow-add, add_zero_right,
  parts_disjoint,
}
use janusminer.Chain.CustomFloat.{
  CustomFloat, is_zero, same_sign, add, add_ordered, add_near, shift_right, shift_right_loop,
}
use janusminer.Chain.CustomFloat.Shift.{IsFull, IsExponent, set_assert_lem, shift_left_lem}
use native.Mathlib.Nat.{
  div-le_self, div-mul-le_self, lt-div-mul-add, mul-add-div_right, div-div-eq-div-mul, div-one,
}

-- A sum of two mantissas is shifted by one bit at most.
shift_right_sum_lem :
    (f : CustomFloat) (e : ℤ) (m : ℕ)
    → 2 ^ 31 ≤ m
    → m < 2 ^ 33
    → IsExponent e
    → IsExponent (e +ℤ pos 1)
    → (k : ℕ) × (k ≤ 1)
      × IsFull (m / 2 ^ k)
      × (shift_right f e m ≡ some (record f { exponent = e +ℤ pos k; mantissa = m / 2 ^ k }))
unfolding shift_right shift_right_loop
shift_right_sum_lem f e m lo hi ok ok' = elim (Bool-cases (leb (2 ^ 32) m)) [
  | inl p ↦ (
    1,
    omega arith,
    ground arith,
    rw (p, low) (ground (arith, set_assert_lem f (e +ℤ pos 1) (m / 2) (ground arith) ok')),
  )
  | inr p ↦ (
    0,
    omega arith,
    ground arith,
    rw (p, add_zero_right e, div-one m) (ground (arith, set_assert_lem f e m (ground arith) ok)),
  )
]
  where
    low : leb (2 ^ 32) (m / 2) ≡ false
    low = ground arith

-- The mantissa cut off at 32 bits, `k` and `d` places up, against the exact sum.
sum_bounds :
    (x y d k : ℕ)
    → ((x + y / 2 ^ d) / 2 ^ k * 2 ^ (d + k) ≤ x * 2 ^ d + y)
      × (x * 2 ^ d + y < ((x + y / 2 ^ d) / 2 ^ k + 1) * 2 ^ (d + k))
sum_bounds x y d k =
    rw quotient
      (div-mul-le_self _ _, omega (arith, lt-div-mul-add {a = x * 2 ^ d + y} (pow_pos (d + k))))
  where
    quotient : (x + y / 2 ^ d) / 2 ^ k ≡ (x * 2 ^ d + y) / 2 ^ (d + k)
    quotient = rw (← mul-add-div_right (pow_pos d) x y, div-div-eq-div-mul, pow-add d k) refl

-- How far the exponent of the first number is above that of the second.
abbrev pub gap : CustomFloat → CustomFloat → ℕ
gap a b = pos_part (a.exponent -ℤ b.exponent)

pub full-is_zero : (a : CustomFloat) → IsFull a.mantissa → is_zero a ≡ false
unfolding is_zero
full-is_zero a fa = ground arith

pub not_before :
    (a b : CustomFloat) → leb_ℤ b.exponent a.exponent ≡ true → ltb_ℤ a.exponent b.exponent ≡ false
not_before a b order = ground arith

pub small_gap : (a b : CustomFloat) → gap a b < 64 → leb_ℤ (a.exponent -ℤ b.exponent) i32_max ≡ true
small_gap a b near = ground (arith, parts_disjoint (a.exponent -ℤ b.exponent))

pub add-add_near :
    (a b : CustomFloat)
    → IsFull a.mantissa
    → IsFull b.mantissa
    → leb_ℤ b.exponent a.exponent ≡ true
    → gap a b < 64
    → add a b ≡ add_near a b (gap a b)
unfolding add add_ordered
add-add_near a b fa fb order near =
    rw
      (full-is_zero a fa, full-is_zero b fb, not_before a b order, order, small_gap a b near, near')
      refl
  where
    near' : leb 64 (gap a b) ≡ false
    near' = ground arith

-- `c` is the sum of two numbers of one sign, `d` places apart, cut off behind the bits of `c`.
abbrev pub IsSumOf : CustomFloat → CustomFloat → ℕ → CustomFloat → Type 0
IsSumOf a b d c =
    (k : ℕ) × (c.exponent ≡ a.exponent +ℤ pos k)
    × (c.mantissa * 2 ^ (d + k) ≤ a.mantissa * 2 ^ d + b.mantissa)
    × (a.mantissa * 2 ^ d + b.mantissa < (c.mantissa + 1) * 2 ^ (d + k))
    × (k ≤ 1)

pub add_near_same_lem :
    (a b : CustomFloat) (d : ℕ)
    → IsFull a.mantissa
    → IsFull b.mantissa
    → same_sign a.positive b.positive ≡ true
    → IsExponent a.exponent
    → IsExponent (a.exponent +ℤ pos 1)
    → (c : CustomFloat) × (add_near a b d ≡ some c)
      × IsFull c.mantissa
      × (c.positive ≡ a.positive)
      × IsSumOf a b d c
unfolding add_near
add_near_same_lem a b d fa fb same ok ok' =
    let (k, few, full, eq) =
      shift_right_sum_lem a a.exponent (a.mantissa + b.mantissa / 2 ^ d) (omega arith)
        (omega (arith, small)) ok ok' in
    let (lo, hi) = sum_bounds a.mantissa b.mantissa d k in
    (
      record a {
        exponent = a.exponent +ℤ pos k;
        mantissa = (a.mantissa + b.mantissa / 2 ^ d) / 2 ^ k;
      },
      rw (same, fits) eq,
      full,
      refl,
      (k, refl, lo, hi, few),
    )
  where
    small : b.mantissa / 2 ^ d ≤ b.mantissa
    small = div-le_self _ _

    fits : leb (a.mantissa + b.mantissa / 2 ^ d) (2 ^ 33) ≡ true
    fits = ground (arith, small)

abbrev pub SumOf : CustomFloat → CustomFloat → Type 0
SumOf a b =
    (c : CustomFloat) × (add a b ≡ some c)
    × IsFull c.mantissa
    × (c.positive ≡ a.positive)
    × IsSumOf a b (gap a b) c

-- For numbers with full mantissas and one sign, the first with the larger exponent by less than
-- 64, and exponents that fit, no assert fails in the sum, and its mantissa is the exact sum cut
-- off behind 32 bits, its exponent the larger one or one more.
pub add_same_lem :
    (a b : CustomFloat)
    → IsFull a.mantissa
    → IsFull b.mantissa
    → same_sign a.positive b.positive ≡ true
    → leb_ℤ b.exponent a.exponent ≡ true
    → gap a b < 64
    → IsExponent a.exponent
    → IsExponent (a.exponent +ℤ pos 1)
    → SumOf a b
add_same_lem a b fa fb same order near ok ok' =
    rw (add-add_near a b fa fb order near) (add_near_same_lem a b (gap a b) fa fb same ok ok')

-- The part of the larger number that a smaller one of the other sign leaves.
pub add_near_other_lem :
    (a b : CustomFloat) (d : ℕ)
    → IsFull a.mantissa
    → same_sign a.positive b.positive ≡ false
    → b.mantissa / 2 ^ d < a.mantissa
    → (r : ℕ) × (r ≤ 31)
      × IsFull ((a.mantissa - b.mantissa / 2 ^ d) * 2 ^ r)
      × (IsExponent (a.exponent -ℤ pos r)
          → add_near a b d
            ≡ some (record a {
              exponent = a.exponent -ℤ pos r;
              mantissa = (a.mantissa - b.mantissa / 2 ^ d) * 2 ^ r;
            }))
unfolding add_near
add_near_other_lem a b d fa other less =
    let (r, few, full, eq) =
      shift_left_lem a a.exponent (a.mantissa - b.mantissa / 2 ^ d) (omega arith) (omega arith) in
    (r, few, full, λ ok. rw (other, apart, above) (eq ok))
  where
    apart : (b.mantissa / 2 ^ d == a.mantissa) ≡ false
    apart = ground arith

    above : ltb a.mantissa (b.mantissa / 2 ^ d) ≡ false
    above = ground arith
