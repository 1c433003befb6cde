-- ===== src/Chain/CustomFloat/Total.antt =====
-- src/shared/src/block/header/custom_float.hpp: the `assert`s of sums, products and powers, for numbers with
-- exponents in a range.
use janusminer.Common.{ℕ, ◌+◌, ◌-◌, ◌^◌, ◌≡◌, ◌≤◌, ◌<◌, inl, inr, refl, arith, Bool-cases}
use janusminer.Common.{true, false, leb}
use janusminer.Common.{ℤ, pos_part, ◌-ℤ◌, ltb_ℤ, leb_ℤ, i32_max, int_laws}
use janusminer.Chain.CustomFloat.{CustomFloat, add, add_ordered}
use janusminer.Chain.CustomFloat.Shift.{IsFull}
use janusminer.Chain.CustomFloat.Sum.{gap, full-is_zero}
use janusminer.Chain.CustomFloat.Bounds.{Within, Gives, widen, zero-is_zero}
use janusminer.Chain.CustomFloat.Near.{add_near-Gives}

fits_of_parts : (e : ℤ) → pos_part e ≤ 2 ^ 31 - 1 → leb_ℤ e i32_max ≡ true
fits_of_parts e h = ground arith

before_other : (d e : ℤ) → ltb_ℤ d e ≡ true → leb_ℤ d e ≡ true
before_other d e h = ground arith

not_before_other : (d e : ℤ) → ltb_ℤ d e ≡ false → leb_ℤ e d ≡ true
not_before_other d e h = ground arith

add_ordered-Gives :
    (a b : CustomFloat) (l h : ℕ)
    → Within l h a
    → Within l h b
    → IsFull a.mantissa
    → IsFull b.mantissa
    → leb_ℤ b.exponent a.exponent ≡ true
    → l + 31 < 2 ^ 31
    → l + h + 1 < 2 ^ 31 - 1
    → Gives (add_ordered a b) (l + 31) (h + 1)
unfolding add_ordered
add_ordered-Gives a b l h wa wb fa fb order low high =
    elim (Bool-cases (leb 64 (pos_part (a.exponent -ℤ b.exponent)))) [
      | inl far ↦ (a, rw (order, fits, far) refl, widen a wa (omega arith) (omega arith))
      | inr near ↦
          let (c, eq, w) = add_near-Gives a b (gap a b) l h wa wb fa fb low (omega arith) in
          (c, rw (order, fits, near) eq, w)
    ]
  where
    fits : leb_ℤ (a.exponent -ℤ b.exponent) i32_max ≡ true
    fits = fits_of_parts (a.exponent -ℤ b.exponent) (omega (int_laws, wa.below, wb.above))

-- For numbers that are 0 or have a full mantissa, with exponents from -l to h away from the ends
-- of 32 bits, no assert fails in the sum, and it is 0 or has a full mantissa again, with an
-- exponent from -(l + 31) to h + 1.
pub add-Gives :
    (a b : CustomFloat) (l h : ℕ)
    → Within l h a
    → Within l h b
    → l + 31 < 2 ^ 31
    → l + h + 1 < 2 ^ 31 - 1
    → Gives (add a b) (l + 31) (h + 1)
unfolding add
add-Gives a b l h wa wb low high = elim wa.normal [
  | inl za ↦ (b, rw (zero-is_zero a za) refl, widen b wb (omega arith) (omega arith))
  | inr fa ↦ elim wb.normal [
    | inl zb ↦
        (a, rw (full-is_zero a fa, zero-is_zero b zb) refl, widen a wa (omega arith) (omega arith))
    | inr fb ↦ elim (Bool-cases (ltb_ℤ a.exponent b.exponent)) [
      | inl before ↦
          let (c, eq, w) =
            add_ordered-Gives b a l h wb wa fb fa (before_other a.exponent b.exponent before) low
              high in
          (c, rw (full-is_zero a fa, full-is_zero b fb, before) eq, w)
      | inr after ↦
          let (c, eq, w) =
            add_ordered-Gives a b l h wa wb fa fb (not_before_other a.exponent b.exponent after) low
              high in
          (c, rw (full-is_zero a fa, full-is_zero b fb, after) eq, w)
    ]
  ]
]
