-- ===== src/Chain/CustomFloat/Bounds.antt =====
-- src/shared/src/block/header/custom_float.hpp: the `assert`s of sums and products, for numbers
-- with exponents in a range.
use janusminer.Common.{ℕ, ◌+◌, ◌-◌, ◌^◌, ◌≡◌, ◌≤◌, ◌<◌, ◌⊎◌, inl, inr, refl, arith}
use janusminer.Common.{true, Option, Returns}
use janusminer.Common.{ℤ, pos_part, neg_part, int_laws}
use janusminer.Chain.CustomFloat.{CustomFloat, is_zero, multiply}
use janusminer.Chain.CustomFloat.Shift.{IsFull, IsExponent}
use janusminer.Chain.CustomFloat.Product.{multiply_lem}
use janusminer.Chain.CustomFloat.Sum.{full-is_zero}

-- Zero or a full mantissa, and an exponent from -`low` to `high`.
pub record Within (low high : ℕ) (f : CustomFloat) : Type 0 where
  pub normal : (f.mantissa ≡ 0) ⊎ IsFull f.mantissa
  pub above : neg_part f.exponent ≤ low
  pub below : pos_part f.exponent ≤ high

-- A result that is one, within bounds.
abbrev pub Gives : Option CustomFloat → ℕ → ℕ → Type 0
Gives o low high = Returns (Within low high) o

pub IsExponent-of_parts : (e : ℤ) → neg_part e < 2 ^ 31 → pos_part e < 2 ^ 31 - 1 → IsExponent e
IsExponent-of_parts e lo hi = (ground arith, ground arith)

pub multiply-Gives :
    (a b : CustomFloat) (l h l' h' : ℕ)
    → Within l h a
    → Within l' h' b
    → l + l' + 1 < 2 ^ 31
    → h + h' < 2 ^ 31 - 1
    → Gives (multiply a b) (l + l' + 1) (h + h')
unfolding multiply is_zero
multiply-Gives a b l h l' h' wa wb low high = elim wa.normal [
  | inl p ↦ (
    record a { mantissa = 0 },
    rw (zero_first p) refl,
    record { normal = inl refl; above = omega (arith, wa.above); below = omega (arith, wa.below) },
  )
  | inr fa ↦ elim wb.normal [
    | inl q ↦ (
      record a { mantissa = 0 },
      rw (full-is_zero a fa, zero_second q) refl,
      record {
        normal = inl refl;
        above = omega (arith, wa.above);
        below = omega (arith, wa.below);
      },
    )
    | inr fb ↦
        let (c, k, eq, full, few, ex, _, _, _) =
          multiply_lem a b fa fb
            (IsExponent-of_parts _ (omega (int_laws, wa.above, wb.above))
              (omega (int_laws, wa.below, wb.below)))
            (IsExponent-of_parts _ (omega (int_laws, wa.above, wb.above))
              (omega (int_laws, wa.below, wb.below))) in
        (
          c,
          eq,
          record {
            normal = inr full;
            above = rw ex (omega (int_laws, wa.above, wb.above));
            below = rw ex (omega (int_laws, wa.below, wb.below));
          },
        )
  ]
]
  where
    zero_first : a.mantissa ≡ 0 → is_zero a ≡ true
    zero_first p = ground arith

    zero_second : b.mantissa ≡ 0 → is_zero b ≡ true
    zero_second p = ground arith

pub widen : {l h l' h' : ℕ} (f : CustomFloat) → Within l h f → l ≤ l' → h ≤ h' → Within l' h' f
widen f w more higher = record {
  normal = w.normal;
  above = omega (arith, w.above);
  below = omega (arith, w.below);
}

pub zero-is_zero : (a : CustomFloat) → a.mantissa ≡ 0 → is_zero a ≡ true
unfolding is_zero
zero-is_zero a h = ground arith
