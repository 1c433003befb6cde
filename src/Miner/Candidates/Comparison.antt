-- ===== src/Miner/Candidates/Comparison.antt =====
-- The comparisons of src/miner/verusopt/verus_clhash_opt.cpp, against the numbers they stand for.
use janusminer.Common.{
  ℕ, ◌*◌, ◌%◌, ◌^◌, ◌≡◌, ◌≤◌, ◌<◌, ◌↔◌, inl, inr, refl, if◌then◌else◌, arith, Bool-cases,
}
use janusminer.Common.{Bool, true, false, some, u32, ltb, pow_pos}
use janusminer.Common.{ℤ, pos, pos_part, neg_part, leb_ℤ}
use mathlib.Core.Path.{subst}
use janusminer.Chain.Target.{TargetV2, zeros10, bits22}
use janusminer.Chain.CustomFloat.{CustomFloat}
use janusminer.Chain.CustomFloat.Shift.{IsFull}
use janusminer.Miner.Candidates.{below_target, below_bound}
use native.Mathlib.Nat.{
  mul-le-mul, mul-lt-mul_of_pos_right, lt_of_mul-lt-mul_right, pow-le-pow_right, pow-suc,
}

-- A mantissa with more zeros before it is the smaller number.
more_zeros : (m n a b : ℕ) → 2 ^ 31 ≤ m → n < 2 ^ 32 → a < b → n * 2 ^ a < m * 2 ^ b
more_zeros m n a b full small h =
    omega
      (arith, mul-lt-mul_of_pos_right {k = 2 ^ a} small (pow_pos a), places, mul-le-mul full twice)
  where
    twice : 2 ^ a * 2 ≤ 2 ^ b
    twice = rw (← pow-suc 2 a) (pow-le-pow_right {n = 2} (omega arith) h)

    places : 2 ^ 31 * (2 ^ a * 2) ≡ 2 ^ 32 * 2 ^ a
    places = omega arith

-- m / 2 ^ (32 + a) < n / 2 ^ (32 + b), without fractions.
abbrev pub Less : ℕ → ℕ → ℕ → ℕ → Type 0
Less m a n b = m * 2 ^ b < n * 2 ^ a

abbrev compared : ℕ → ℕ → ℕ → ℕ → Bool
compared m a n b = if ltb a b then false else if ltb b a then true else ltb m n

compared-Less : (m a n b : ℕ) → IsFull m → IsFull n → (compared m a n b ≡ true) ↔ Less m a n b
compared-Less m a n b fm fn = elim (Bool-cases (ltb a b)) [
  | inl fewer ↦
      rw fewer (
        λ e. absurd cc,
        λ less. absurd (omega (arith, more_zeros m n a b fm.0 fn.1 (ground arith))),
      )
  | inr not_fewer ↦ rw not_fewer (elim (Bool-cases (ltb b a)) [
    | inl more ↦ rw more (λ e. more_zeros n m b a fn.0 fm.1 (ground arith), λ less. refl)
    | inr not_more ↦ rw not_more (
      λ e. rw (same not_fewer not_more) (mul-lt-mul_of_pos_right (ground arith) (pow_pos b)),
      λ less. below (
          lt_of_mul-lt-mul_right (2 ^ b)
            (subst (λ k. m * 2 ^ b < n * 2 ^ k) (same not_fewer not_more) less)),
    )
  ])
]
  where
    same : ltb a b ≡ false → ltb b a ≡ false → a ≡ b
    same h h' = ground arith

    below : m < n → ltb m n ≡ true
    below h = ground arith

not_above : (e : ℤ) → pos_part e ≡ 0 → leb_ℤ e (pos 0) ≡ true
not_above e h = ground arith

compared-some :
    (m a n b : ℕ)
    → (if ltb a b then some false else if ltb b a then some true else some (ltb m n))
      ≡ some (compared m a n b)
compared-some m a n b = ground arith

-- Both comparisons are those of the numbers, if the mantissas are full.
pub below_bound_lem :
    (f bound : CustomFloat)
    → IsFull f.mantissa
    → IsFull bound.mantissa
    → f.positive ≡ true
    → bound.positive ≡ true
    → pos_part f.exponent ≡ 0
    → pos_part bound.exponent ≡ 0
    → (b : Bool) × (below_bound f bound ≡ some b)
      × ((b ≡ true)
          ↔ Less f.mantissa (neg_part f.exponent) bound.mantissa (neg_part bound.exponent))
unfolding below_bound
below_bound_lem f bound ff fb pf pb ef eb = (
  compared f.mantissa (neg_part f.exponent) bound.mantissa (neg_part bound.exponent),
  rw (pb, not_above bound.exponent eb, pf, not_above f.exponent ef)
      (compared-some f.mantissa (neg_part f.exponent) bound.mantissa (neg_part bound.exponent)),
  compared-Less f.mantissa (neg_part f.exponent) bound.mantissa (neg_part bound.exponent) ff fb,
)

-- For a positive number with a full mantissa and no positive exponent, and a target whose 22
-- digits start with 1, no assert of the comparison fails, and it answers whether the number is
-- less than the one that the target stands for.
pub below_target_lem :
    (f : CustomFloat) (t : TargetV2)
    → IsFull f.mantissa
    → 2 ^ 21 ≤ bits22 t
    → f.positive ≡ true
    → pos_part f.exponent ≡ 0
    → (b : Bool) × (below_target f t ≡ some b)
      × ((b ≡ true) ↔ Less f.mantissa (neg_part f.exponent) (bits22 t * 2 ^ 10) (zeros10 t))
unfolding below_target bits22
below_target_lem f t full digits pf ef = (
  compared f.mantissa (neg_part f.exponent) (bits22 t * 2 ^ 10) (zeros10 t),
  rw (pf, not_above f.exponent ef, fits)
      (compared-some f.mantissa (neg_part f.exponent) (bits22 t * 2 ^ 10) (zeros10 t)),
  compared-Less f.mantissa (neg_part f.exponent) (bits22 t * 2 ^ 10) (zeros10 t) full
      (omega arith, omega arith),
)
  where
    fits : bits22 t * 2 ^ 10 % u32 ≡ bits22 t * 2 ^ 10
    fits = omega arith
