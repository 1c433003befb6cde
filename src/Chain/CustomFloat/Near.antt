-- ===== src/Chain/CustomFloat/Near.antt =====
-- src/shared/src/block/header/custom_float.hpp: the `assert`s of sums, for numbers with
-- exponents in a range.
use janusminer.Common.{
  ℕ, zero, suc, ◌+◌, ◌-◌, ◌*◌, ◌/◌, ◌^◌, ◌≡◌, ◌≤◌, ◌<◌, ◌⊎◌, inl, inr, refl, arith, Bool-cases,
}
use janusminer.Common.{true, false, some, ltb, ◌==◌}
use janusminer.Common.{pos, pos_part, neg_part, ◌-ℤ◌, int_laws, div-pow-suc}
use janusminer.Chain.CustomFloat.{CustomFloat, same_sign, add_near}
use janusminer.Chain.CustomFloat.Shift.{IsFull, shift_left_lem}
use janusminer.Chain.CustomFloat.Sum.{add_near_same_lem, add_near_other_lem}
use native.Mathlib.Nat.{div-le_self}
use janusminer.Chain.CustomFloat.Bounds.{Within, Gives, IsExponent-of_parts}

trichotomy : (m n : ℕ) → (m < n) ⊎ (m ≡ n) ⊎ (n < m)
trichotomy m n = omega arith

-- The branch in which the second number is the larger one, at the same exponent.
add_near-above :
    (a b : CustomFloat) (d l h : ℕ)
    → Within l h b
    → IsFull a.mantissa
    → IsFull b.mantissa
    → same_sign a.positive b.positive ≡ false
    → a.mantissa < b.mantissa / 2 ^ d
    → l + 31 < 2 ^ 31
    → h < 2 ^ 31 - 1
    → Gives (add_near a b d) (l + 31) h
unfolding add_near
add_near-above a b zero l h wb fa fb other more low high =
    let (r, few, full, eq) =
      shift_left_lem (record a { positive = b.positive }) b.exponent (b.mantissa / 1 - a.mantissa)
        (omega arith) (omega (arith, fb)) in
    (
      record {
        exponent = b.exponent -ℤ pos r;
        mantissa = (b.mantissa / 1 - a.mantissa) * 2 ^ r;
        positive = b.positive;
      },
      rw (other, apart, smaller)
          (eq (IsExponent-of_parts _ (omega (int_laws, wb.above)) (omega (int_laws, wb.below)))),
      record {
        normal = inr full;
        above = omega (int_laws, wb.above);
        below = omega (int_laws, wb.below);
      },
    )
  where
    apart : (b.mantissa / 1 == a.mantissa) ≡ false
    apart = ground arith

    smaller : ltb a.mantissa (b.mantissa / 1) ≡ true
    smaller = ground arith
add_near-above a b (suc d) l h wb fa fb other more low high = absurd (omega (arith, fa, fb, half))
  where
    half : b.mantissa / 2 ^ suc d ≤ b.mantissa / 2
    half = rw (div-pow-suc b.mantissa d) (div-le_self _ _)

add_near-cancel :
    (a b : CustomFloat) (d : ℕ)
    → same_sign a.positive b.positive ≡ false
    → a.mantissa ≡ b.mantissa / 2 ^ d
    → add_near a b d ≡ some (record a { mantissa = 0 })
unfolding add_near
add_near-cancel a b d other e = rw (other, equal) refl
  where
    equal : (b.mantissa / 2 ^ d == a.mantissa) ≡ true
    equal = ground arith

pub add_near-Gives :
    (a b : CustomFloat) (d l h : ℕ)
    → Within l h a
    → Within l h b
    → IsFull a.mantissa
    → IsFull b.mantissa
    → l + 31 < 2 ^ 31
    → h + 1 < 2 ^ 31 - 1
    → Gives (add_near a b d) (l + 31) (h + 1)
add_near-Gives a b d l h wa wb fa fb low high =
    elim (Bool-cases (same_sign a.positive b.positive)) [
      | inl same ↦
          let (c, eq, full, _, (k, ex, _, _, few)) =
            add_near_same_lem a b d fa fb same
              (IsExponent-of_parts _ (omega (arith, wa.above)) (omega (arith, wa.below)))
              (IsExponent-of_parts _ (omega (int_laws, wa.above)) (omega (int_laws, wa.below))) in
          (
            c,
            eq,
            within c full (rw ex (omega (int_laws, wa.above))) (rw ex (omega (int_laws, wa.below))),
          )
      | inr other ↦ elim (trichotomy a.mantissa (b.mantissa / 2 ^ d)) [
        | inl less ↦
            let (c, eq, w) = add_near-above a b d l h wb fa fb other less low (omega arith) in
            (c, eq, record { normal = w.normal; above = w.above; below = omega (arith, w.below) })
        | inr (inl e) ↦ (
          record a { mantissa = 0 },
          add_near-cancel a b d other e,
          record {
            normal = inl refl;
            above = omega (arith, wa.above);
            below = omega (arith, wa.below);
          },
        )
        | inr (inr more) ↦
            let (r, few, full, eq) = add_near_other_lem a b d fa other more in
            (
              record a {
                exponent = a.exponent -ℤ pos r;
                mantissa = (a.mantissa - b.mantissa / 2 ^ d) * 2 ^ r;
              },
              eq (IsExponent-of_parts _ (omega (int_laws, wa.above)) (omega (int_laws, wa.below))),
              within _ full (omega (int_laws, wa.above)) (omega (int_laws, wa.below)),
            )
      ]
    ]
  where
    within :
        (c : CustomFloat)
        → IsFull c.mantissa
        → neg_part c.exponent ≤ l + 31
        → pos_part c.exponent ≤ h + 1
        → Within (l + 31) (h + 1) c
    within c full lo hi = record { normal = inr full; above = lo; below = hi }
