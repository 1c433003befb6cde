-- ===== src/Chain/Digest/Bounds.antt =====
-- Proofs on `digest` (src/shared/src/block/header/hash_exponential_request.hpp).
use janusminer.Common.{ℕ, zero, suc, ◌+◌, ◌-◌, ◌*◌, ◌/◌, ◌%◌, ◌^◌, ◌≡◌, ◌<◌, ◌≤◌, ◌⊎◌, arith}
use janusminer.Common.{some, List, [], ◌∷◌, All, length, refl}
use janusminer.Common.{u32, u64, leb, ◌==◌, Bool-cases, inl, inr, pow-suc-mul, ◌∙◌}
use janusminer.Chain.Digest.{Digest, skip_zeros, four_bytes, normalize, multiply}
use janusminer.Chain.Digest.{digest, normalize_fuel}
use native.Mathlib.Nat.{mul-le-mul}

-- A digest is fresh or has a positive exponent.
pub record IsNormal (d : Digest) : Type 0 where
  pub started : (d.mantissa ≡ 2 ^ 31) ⊎ (0 < d.neg_exp)
  pub low : 2 ^ 31 ≤ d.mantissa
  pub high : d.mantissa < 2 ^ 32

abbrev pub Bytes : List ℕ → Type 0
Bytes = All (λ b. b < 256)

-- The first byte that is left is not 0, if there is one.
abbrev pub Leads : List ℕ → Type 0
Leads [] = Unit
Leads (b ∷ h) = 0 < b

skip_zeros-Leads :
    (n : ℕ) (h : List ℕ)
    → Bytes h
    → n + 8 * length h < u32
    → let (m, rest) = skip_zeros n h in
      Bytes rest × Leads rest × (m + 8 * length rest ≡ n + 8 * length h) × (length rest ≤ length h)
unfolding skip_zeros
skip_zeros-Leads n [] p q = (tt, tt, refl, omega arith)
skip_zeros-Leads n (b ∷ h) p q = elim (Bool-cases (b == 0)) [
  | inl c ↦
      let r = skip_zeros-Leads ((n + 8) % u32) h p.1 (omega arith) in
      rw c ((r.0, r.1, omega (arith, r.2), omega (arith, r.3)))
  | inr c ↦ rw c (p, ground arith, refl, omega arith)
]

pub four_bytes_bounds :
    (h : List ℕ) → Bytes h → Leads h → (2 ^ 24 ≤ four_bytes h) × (four_bytes h < 2 ^ 32)
unfolding four_bytes
four_bytes_bounds [] p q = omega arith
four_bytes_bounds (a ∷ []) p q = omega arith
four_bytes_bounds (a ∷ b ∷ []) p q = omega arith
four_bytes_bounds (a ∷ b ∷ c ∷ []) p q = omega arith
four_bytes_bounds (a ∷ b ∷ c ∷ d ∷ h) p q = omega arith

-- From a value of at least `2 ^ (31 - k)` the loop ends within `k` shifts, and multiplies by the
-- power that its count gives.
normalize_lem :
    (k fuel shifts n tmp : ℕ)
    → k < fuel
    → 2 ^ 31 ≤ 2 ^ k * tmp
    → tmp < 2 ^ 32
    → n + k < u32
    → (s : ℕ) × (normalize fuel shifts n tmp ≡ some (shifts + s, n + s, 2 ^ s * tmp))
      × (s ≤ k)
      × (2 ^ 31 ≤ 2 ^ s * tmp)
      × (2 ^ s * tmp < 2 ^ 32)
unfolding normalize
normalize_lem zero zero shifts n tmp p lo hi q = absurd (omega arith)
normalize_lem zero (suc fuel) shifts n tmp p lo hi q =
    (0, ground arith, omega arith, lo, omega arith)
normalize_lem (suc k) zero shifts n tmp p lo hi q = absurd (omega arith)
normalize_lem (suc k) (suc fuel) shifts n tmp p lo hi q =
    elim (Bool-cases (tmp / 2 ^ 31 % 2 == 0)) [
      | inr c ↦ rw c (0, ground arith, omega arith, ground arith, omega arith)
      | inl c ↦
          let small : tmp < 2 ^ 31 = ground arith in
          let same : tmp * 2 % u64 ≡ 2 * tmp = omega arith in
          let same' : (n + 1) % u32 ≡ n + 1 = omega arith in
          let (s, eq, le, l, u) =
            normalize_lem k fuel (shifts + 1) (n + 1) (2 * tmp) (omega arith)
              (omega (arith, pow-suc-mul k tmp)) (omega arith) (omega arith) in
          rw (c, same, same')
            (
              suc s,
              eq ∙ ground (arith, pow-suc-mul s tmp),
              omega arith,
              omega (arith, pow-suc-mul s tmp),
              omega (arith, pow-suc-mul s tmp),
            )
    ]

module _ (d : Digest) (n : IsNormal d) where
  -- The product of two normalized mantissas, back in 32 bits.
  multiply_lem :
      (shifts m tmp : ℕ)
      → shifts < 8
      → 2 ^ 31 ≤ tmp
      → tmp < 2 ^ 32
      → 0 < m
      → m < u32
      → (d' : Digest) × (multiply d shifts m tmp ≡ some d')
        × (2 ^ 31 ≤ d'.mantissa)
        × (d'.mantissa < 2 ^ 32)
        × (((d'.neg_exp ≡ m) × (d'.mantissa ≡ tmp * d.mantissa / 2 ^ 31))
            ⊎ ((d'.neg_exp + 1 ≡ m)
                × (d'.mantissa ≡ tmp * d.mantissa / 2 ^ 32)
                × (2 ^ 63 ≤ tmp * d.mantissa)))
  unfolding multiply
  multiply_lem shifts m tmp ps lo hi pm hm =
      let l : 2 ^ 31 * 2 ^ 31 ≤ tmp * d.mantissa = mul-le-mul lo n.low in
      let u : tmp * d.mantissa ≤ (2 ^ 32 - 1) * (2 ^ 32 - 1) =
        mul-le-mul {m₁ = d.mantissa} {n₂ = 2 ^ 32 - 1} {m₂ = 2 ^ 32 - 1} (omega arith)
          (omega (arith, n.high)) in
      elim (Bool-cases (leb (2 ^ 63) (tmp * d.mantissa))) [
        | inl c ↦ (
          record { neg_exp = m - 1; mantissa = tmp * d.mantissa / 2 ^ 32 },
          ground arith,
          ground arith,
          omega arith,
          inr (ground arith),
        )
        | inr c ↦ (
          record { neg_exp = m; mantissa = tmp * d.mantissa / 2 ^ 31 },
          ground arith,
          omega arith,
          ground arith,
          inl (ground arith),
        )
      ]

exponent_bounds :
    (d d' : Digest) (k w n : ℕ)
    → (d.mantissa ≡ 2 ^ 31) ⊎ (0 < d.neg_exp)
    → w < 2 ^ 32
    → d.neg_exp + 1 ≤ k
    → k ≤ d.neg_exp + n + 8
    → ((d'.neg_exp ≡ k) × (d'.mantissa ≡ w * d.mantissa / 2 ^ 31))
      ⊎ ((d'.neg_exp + 1 ≡ k) × (d'.mantissa ≡ w * d.mantissa / 2 ^ 32) × (2 ^ 63 ≤ w * d.mantissa))
    → (0 < d'.neg_exp) × (d.neg_exp ≤ d'.neg_exp) × (d'.neg_exp ≤ d.neg_exp + n + 8)
exponent_bounds d d' k w n s u lo hi (inl e) = omega arith
exponent_bounds d d' k w n (inr s) u lo hi (inr e) = omega arith
exponent_bounds d d' k w n (inl s) u lo hi (inr e) = absurd (omega (arith, rw s at (e.2)))

-- On a normal digest and a hash of bytes, with the exponent away from the end of a 32-bit word, no
-- assert of digest fails; the result is normal, and its exponent is positive, does not fall and
-- grows by 8 for each byte and 8 more at most.
pub digest_total :
    (d : Digest) (h : List ℕ)
    → IsNormal d
    → Bytes h
    → d.neg_exp + 8 * length h + 8 < u32
    → (d' : Digest) × (digest d h ≡ some d')
      × IsNormal d'
      × (0 < d'.neg_exp)
      × (d.neg_exp ≤ d'.neg_exp)
      × (d'.neg_exp ≤ d.neg_exp + 8 * length h + 8)
unfolding digest
digest_total d h n p q =
    let start : ℕ = (d.neg_exp + 1) % u32 in
    let r = skip_zeros-Leads start h p (omega arith) in
    let m = (skip_zeros start h).0 in
    let rest = (skip_zeros start h).1 in
    let (lo, hi) = four_bytes_bounds rest r.0 r.1 in
    let (s, eq, le, l, u) =
      normalize_lem 7 normalize_fuel 0 m (four_bytes rest) (omega arith) (omega arith) hi
        (omega (arith, r.2)) in
    let (d', eq', lo', hi', exps) =
      multiply_lem d n (0 + s) (m + s) (2 ^ s * four_bytes rest) (omega arith) l u
        (omega (arith, r.2, r.3)) (omega (arith, r.2)) in
    let bounds : (0 < d'.neg_exp)
        × (d.neg_exp ≤ d'.neg_exp)
        × (d'.neg_exp ≤ d.neg_exp + 8 * length h + 8) =
      exponent_bounds d d' (m + s) (2 ^ s * four_bytes rest) (8 * length h) n.started u
        (omega (arith, r.2, r.3)) (omega (arith, r.2, r.3)) exps in
    (
      d',
      rw (eq, eq'),
      record { started = inr bounds.0; low = lo'; high = hi' },
      bounds.0,
      bounds.1,
      bounds.2,
    )
