-- ===== src/Chain/CustomFloat/Product.antt =====
-- src/shared/src/block/header/custom_float.hpp: `operator*=`.
use janusminer.Common.{ℕ, ◌+◌, ◌-◌, ◌*◌, ◌/◌, ◌^◌, ◌≡◌, ◌≤◌, ◌<◌, inl, inr, refl, arith, Bool-cases}
use janusminer.Common.{some, ltb, sym, sub_zero, if◌then◌else◌}
use janusminer.Common.{pos, ◌+ℤ◌, ◌-ℤ◌}
use janusminer.Chain.CustomFloat.{CustomFloat, set_assert, is_zero, same_sign, multiply}
use janusminer.Chain.CustomFloat.Shift.{IsFull, IsExponent, set_assert_lem}
use native.Mathlib.Nat.{mul-le-mul}

product_bounds : (m n : ℕ) → IsFull m → IsFull n → (2 ^ 62 ≤ m * n) × (m * n < 0xFFFFFFFF00000000)
product_bounds m n (m_lo, m_hi) (n_lo, n_hi) =
    (omega (arith, mul-le-mul m_lo n_lo), omega (arith, mul-le-mul m_top n_top))
  where
    m_top : m ≤ 0xFFFFFFFF
    m_top = omega arith

    n_top : n ≤ 0xFFFFFFFF
    n_top = omega arith

-- The product of two mantissas, cut off behind 32 bits, with the exponent that belongs to them.
abbrev pub Product : CustomFloat → CustomFloat → Type 0
Product a b =
    (c : CustomFloat) × (k : ℕ) × (multiply a b ≡ some c)
    × IsFull c.mantissa
    × (k ≤ 1)
    × (c.exponent ≡ a.exponent +ℤ b.exponent -ℤ pos k)
    × (c.mantissa * 2 ^ (32 - k) ≤ a.mantissa * b.mantissa)
    × (a.mantissa * b.mantissa < (c.mantissa + 1) * 2 ^ (32 - k))
    × (c.positive ≡ same_sign a.positive b.positive)

-- If the exponents fit, no assert fails in the product of numbers with full mantissas; the
-- mantissa is the exact product cut off behind 32 bits, the exponent the sum or one less, and the
-- sign is positive for equal signs.
pub multiply_lem :
    (a b : CustomFloat)
    → IsFull a.mantissa
    → IsFull b.mantissa
    → IsExponent (a.exponent +ℤ b.exponent)
    → IsExponent (a.exponent +ℤ b.exponent -ℤ pos 1)
    → Product a b
unfolding multiply is_zero
multiply_lem a b fa fb ok ok' = elim (Bool-cases (ltb (a.mantissa * b.mantissa) (2 ^ 63))) [
  | inl p ↦ (
    record a {
      exponent = a.exponent +ℤ b.exponent -ℤ pos 1;
      mantissa = a.mantissa * b.mantissa * 2 / 2 ^ 32;
      positive = same_sign a.positive b.positive;
    },
    1,
    rw (nonzero, p) (set_assert_lem signed _ _ (ground (arith, bounds)) ok'),
    ground (arith, bounds),
    omega arith,
    refl,
    ground arith,
    ground arith,
    refl,
  )
  | inr p ↦ (
    record a {
      exponent = a.exponent +ℤ b.exponent;
      mantissa = a.mantissa * b.mantissa / 2 ^ 32;
      positive = same_sign a.positive b.positive;
    },
    0,
    rw (nonzero, p) (set_assert_lem signed _ _ (ground (arith, bounds)) ok),
    ground (arith, bounds),
    omega arith,
    sym (sub_zero _),
    ground arith,
    ground arith,
    refl,
  )
]
  where
    bounds : (2 ^ 62 ≤ a.mantissa * b.mantissa) × (a.mantissa * b.mantissa < 0xFFFFFFFF00000000)
    bounds = product_bounds a.mantissa b.mantissa fa fb

    signed : CustomFloat
    signed = record a { positive = same_sign a.positive b.positive }

    nonzero :
        multiply a b
        ≡ set_assert signed
            (if ltb (a.mantissa * b.mantissa) (2 ^ 63)
              then a.exponent +ℤ b.exponent -ℤ pos 1
              else a.exponent +ℤ b.exponent)
            ((if ltb (a.mantissa * b.mantissa) (2 ^ 63)
                then a.mantissa * b.mantissa * 2
                else a.mantissa * b.mantissa)
              / 2 ^ 32)
    nonzero = ground (arith, bounds)
