-- ===== src/Chain/Target/Digits.antt =====
-- The digits of a target under a ratio of two factors that are within a factor 2 of each other.
use janusminer.Common.{ℕ, ◌+◌, ◌-◌, ◌*◌, ◌/◌, ◌%◌, ◌^◌, ◌≡◌, ◌<◌, ◌≤◌, ◌⊎◌, inl, inr, arith}
use janusminer.Common.{false, ltb, leb, if◌then◌else◌, Bool-cases, ap, pow_pos}
use native.Mathlib.Nat.{div-add-mod, le-div_iff_mul-le, div-lt_iff_lt-mul, lt-div-mul-add}
use native.Mathlib.Nat.{
  div-mul-le_self, mul-le-mul_left, mul-le-mul_right, mul-lt-mul_of_pos_right, pow-suc,
}
use native.Mathlib.Numerals.{towards_suc}

-- With `harder ≤ easier < 2 * harder` the digits grow, and at most double.
pub quotient_bounds :
    (bits easier harder : ℕ)
    → harder ≤ easier
    → easier < 2 * harder
    → 0 < bits
    → (bits ≤ bits * easier / harder) × (bits * easier / harder < 2 * bits)
quotient_bounds bits easier harder lo hi pos = (
  (le-div_iff_mul-le {k = harder} {x = bits} (omega arith)).1 (grind arith),
  (div-lt_iff_lt-mul {k = harder} {y = 2 * bits} (omega arith)).1
      (omega (arith, mul-le-mul_left bits hi)),
)

half_bounds : (q h : ℕ) → (2 * (q / 2 * h) ≤ q * h) × (q * h ≤ 2 * (q / 2 * h) + h)
half_bounds q h =
    let low : q % 2 * h ≤ 1 * h = mul-le-mul_right h (omega arith) in
    omega (arith, low, ap (λ (t : ℕ). t * h) (div-add-mod q 2))

-- `(z', b')` is `(z, b)` with its threshold `b / 2 ^ z` multiplied by `e / h`, rounded down to a
-- digit.
abbrev pub Rounds : (z b e h z' b' : ℕ) → Type 0
Rounds z b e h z' b' =
    ((z' ≡ z + 1) × (b' * h ≤ 2 * (b * e)) × (2 * (b * e) < (b' + 1) * h))
    ⊎ ((z' ≡ z) × (b' * h ≤ b * e) × (b * e < (b' + 1) * h))
    ⊎ ((z ≡ z' + 1) × (2 * (b' * h) ≤ b * e) × (b * e < 2 * ((b' + 1) * h)))

-- The quotient of the code, by which factor was doubled first.
unfoldable pub quotient_of : (b e h : ℕ) → ℕ
quotient_of b e h = b * (if ltb e h then e * 2 else e) / h

module _ (d b e h : ℕ) (lo : d ≤ b) (hi : b < 2 * d) (pe : 0 < e) (p : h < 2 * e)
    (q : e < 2 * h) where
  pub quotient_range : (d ≤ quotient_of b e h) × (quotient_of b e h < 4 * d)
  unfolding quotient_of
  quotient_range = elim (Bool-cases (ltb e h)) [
    | inl first ↦ rw first (ground (arith, quotient_bounds b (e * 2) h))
    | inr first ↦ rw first (ground (arith, quotient_bounds b e h))
  ]

  pub quotient_Rounds :
      (z : ℕ)
      → let wide = leb (2 * d) (quotient_of b e h) in
        let z' = (if ltb e h then z + 1 else z) in
        0 < z ⊎ (wide ≡ false)
        → Rounds z b e h
            (if wide then z' - 1 else z')
            (if wide then quotient_of b e h / 2 else quotient_of b e h)
  unfolding quotient_of
  quotient_Rounds z big =
      let l1 = div-mul-le_self (b * (e * 2)) h in
      let l2 = lt-div-mul-add {a = b * (e * 2)} {b = h} (omega arith) in
      let l3 = div-mul-le_self (b * e) h in
      let l4 = lt-div-mul-add {a = b * e} {b = h} (omega arith) in
      elim (Bool-cases (ltb e h)) [
        | inl first ↦ rw first (elim (Bool-cases (leb (2 * d) (b * (e * 2) / h))) [
          | inl wide ↦ rw wide (
              inr (
                inl (
                  omega arith,
                  omega (arith, l1, half_bounds (b * (e * 2) / h) h),
                  omega (arith, l2, half_bounds (b * (e * 2) / h) h),
                )))
          | inr wide ↦ rw wide (inl (omega arith, omega (arith, l1), omega (arith, l2)))
        ])
        | inr first ↦ rw first (elim (Bool-cases (leb (2 * d) (b * e / h))) [
          | inl wide ↦ rw wide (
              inr (
                inr (
                  ground arith,
                  omega (arith, l3, half_bounds (b * e / h) h),
                  omega (arith, l4, half_bounds (b * e / h) h),
                )))
          | inr wide ↦ rw wide (inr (inl (omega arith, omega (arith, l3), omega (arith, l4))))
        ])
      ]

pub double_pow : (k m : ℕ) → m ≡ k + 1 → 2 ^ m ≡ 2 * 2 ^ k
double_pow k m e = rw e (simp towards_suc (rw pow-suc (omega arith)))

-- Both thresholds over the common denominator `2 ^ n`.
pub Rounds-threshold :
    (n z b e h z' b' : ℕ)
    → z ≤ n
    → z' ≤ n
    → Rounds z b e h z' b'
    → (b' * 2 ^ (n - z') * h ≤ b * 2 ^ (n - z) * e)
      × (b * 2 ^ (n - z) * e < (b' * 2 ^ (n - z') + 2 ^ (n - z')) * h)
Rounds-threshold n z b e h z' b' p p' (inl (eq, lo, hi)) =
    let u : ℕ = 2 ^ (n - z') in
    rw (double_pow (n - z') (n - z) (omega arith)) (
      omega (arith, mul-le-mul_right u lo),
      omega (arith, mul-lt-mul_of_pos_right {k = u} hi (pow_pos (n - z'))),
    )
Rounds-threshold n z b e h z' b' p p' (inr (inl (eq, lo, hi))) =
    let u : ℕ = 2 ^ (n - z) in
    rw eq (
      omega (arith, mul-le-mul_right u lo),
      omega (arith, mul-lt-mul_of_pos_right {k = u} hi (pow_pos (n - z))),
    )
Rounds-threshold n z b e h z' b' p p' (inr (inr (eq, lo, hi))) =
    let u : ℕ = 2 ^ (n - z) in
    rw (double_pow (n - z) (n - z') (omega arith)) (
      omega (arith, mul-le-mul_right u lo),
      omega (arith, mul-lt-mul_of_pos_right {k = u} hi (pow_pos (n - z))),
    )
