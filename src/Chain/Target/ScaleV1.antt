-- ===== src/Chain/Target/ScaleV1.antt =====
-- Proofs on `TargetV1::scale` (src/shared/src/block/header/difficulty.hpp).
use janusminer.Common.{ℕ, ◌+◌, ◌-◌, ◌*◌, ◌/◌, ◌%◌, ◌^◌, ◌≡◌, ◌≢◌, ◌<◌, ◌≤◌, ◌⊎◌, inl, inr, arith}
use janusminer.Common.{ltb, leb, ◌==◌, if◌then◌else◌, Bool-cases, refl}
use janusminer.Common.{Option, some, u32, u64}
use janusminer.Chain.Target.{TargetV1, zeros8, bits24, cap_factor, checks_v1, rescale_v1}
use janusminer.Chain.Target.{scale_v1, genesis_difficulty_exponent}
use janusminer.Chain.Target.Digits.{
  Rounds, quotient_of, quotient_range, quotient_Rounds, Rounds-threshold, double_pow,
}
use native.Mathlib.Nat.{mul-le-mul}

-- The leading one of the 24 digits is there.
pub record IsNormal (t : TargetV1) : Type 0 where
  pub word : t.bits < u32
  pub leading : 2 ^ 23 ≤ bits24 t

pub checks_v1-IsNormal :
    (z b : ℕ)
    → 2 ^ 23 ≤ b
    → b < 2 ^ 24
    → IsNormal (checks_v1 z b) × (genesis_difficulty_exponent ≤ zeros8 (checks_v1 z b))
unfolding checks_v1 zeros8 bits24
checks_v1-IsNormal z b lo hi = ground arith

pub checks_v1-inside :
    (z b : ℕ)
    → genesis_difficulty_exponent ≤ z
    → z < 255
    → b < 2 ^ 24
    → (zeros8 (checks_v1 z b) ≡ z) × (bits24 (checks_v1 z b) ≡ b)
unfolding checks_v1 zeros8 bits24
checks_v1-inside z b lo hi hb = ground arith

module _ (z b e h : ℕ) (lo : 2 ^ 23 ≤ b) (hi : b < 2 ^ 24) (pe : 0 < e) (be : e < 2 ^ 31)
    (bh : h < 2 ^ 31) (p : h < 2 * e) (q : e < 2 * h) where
  -- No product wraps: the code's quotient is the plain one.
  plain_quotient : b * (if ltb e h then e * 2 % u32 else e) % u64 / h ≡ quotient_of b e h
  unfolding quotient_of
  plain_quotient =
      let b1 : b * (e * 2) ≤ 2 ^ 24 * 2 ^ 32 =
        mul-le-mul {m₁ = e * 2} {n₂ = 2 ^ 24} {m₂ = 2 ^ 32} (omega arith) (omega arith) in
      let b2 : b * e ≤ 2 ^ 24 * 2 ^ 32 =
        mul-le-mul {m₁ = e} {n₂ = 2 ^ 24} {m₂ = 2 ^ 32} (omega arith) (omega arith) in
      ground arith

  rescale_v1_lem :
      (z' : ℕ) × (b' : ℕ) × (rescale_v1 z b e h ≡ some (checks_v1 z' b'))
      × (2 ^ 23 ≤ b')
      × (b' < 2 ^ 24)
      × (0 < z → Rounds z b e h z' b')
  unfolding rescale_v1
  rescale_v1_lem =
      let r = quotient_range (2 ^ 23) b e h lo (omega arith) pe p q in
      let z' : ℕ = (if ltb e h then z + 1 else z) in
      let wide = leb (2 * 2 ^ 23) (quotient_of b e h) in
      (
        (if wide then z' - 1 else z'),
        (if wide then quotient_of b e h / 2 else quotient_of b e h),
        rw plain_quotient (ground (arith, r)),
        ground (arith, r),
        ground (arith, r),
        λ pz. quotient_Rounds (2 ^ 23) b e h lo (omega arith) pe p q z (inl pz),
      )

-- What `scale` does before `checks`, by how far its factors are apart.
record Scaled (t : TargetV1) (e h : ℕ) (o : Option TargetV1) : Type 0 where
  zeros : ℕ
  digits : ℕ
  result : o ≡ some (checks_v1 zeros digits)
  leading : 2 ^ 23 ≤ digits
  below : digits < 2 ^ 24
  harder_cap : 2 * e ≤ h → (zeros ≡ zeros8 t + 1) × (digits ≡ bits24 t)
  easier_cap : 2 * h ≤ e → 0 < zeros8 t → (zeros + 1 ≡ zeros8 t) × (digits ≡ bits24 t)
  between : h < 2 * e → e < 2 * h → 0 < zeros8 t → Rounds (zeros8 t) (bits24 t) e h zeros digits

cap_factor_bounds : (f : ℕ) → f ≢ 0 → (0 < cap_factor f) × (cap_factor f < 2 ^ 31)
cap_factor_bounds f h = ground arith

bits24-lt : (t : TargetV1) → bits24 t < 2 ^ 24
unfolding bits24
bits24-lt t = omega arith

scale_v1-Scaled :
    (t : TargetV1) (ef hf : ℕ)
    → IsNormal t
    → ef ≢ 0
    → hf ≢ 0
    → Scaled t (cap_factor ef) (cap_factor hf) (scale_v1 t ef hf)
unfolding scale_v1
scale_v1-Scaled t ef hf n pe ph =
    let (e1, e2) = cap_factor_bounds ef pe in
    let (h1, h2) = cap_factor_bounds hf ph in
    let e : ℕ = cap_factor ef in
    let h : ℕ = cap_factor hf in
    elim (Bool-cases (ef == 0)) [
      | inl z ↦ absurd (ground arith)
      | inr z1 ↦ elim (Bool-cases (hf == 0)) [
        | inl z ↦ absurd (ground arith)
        | inr z2 ↦
            rw (z1, z2)
              (elim (Bool-cases (leb (2 * e % u32) h)) [
                | inl c1 ↦ rw c1 (record {
                  zeros = zeros8 t + 1;
                  digits = bits24 t;
                  result = refl;
                  leading = n.leading;
                  below = bits24-lt t;
                  harder_cap = λ _. (refl, refl);
                  easier_cap = λ p _. absurd (ground arith);
                  between = λ p _ _. absurd (ground arith);
                })
                | inr c1 ↦ rw c1 (elim (Bool-cases (leb (2 * h % u32) e)) [
                  | inl c2 ↦ rw c2 (record {
                    zeros = zeros8 t - 1;
                    digits = bits24 t;
                    result = refl;
                    leading = n.leading;
                    below = bits24-lt t;
                    harder_cap = λ p. absurd (ground arith);
                    easier_cap = λ _ p. (omega arith, refl);
                    between = λ _ p _. absurd (ground arith);
                  })
                  | inr c2 ↦
                      let (z', b', r, l, u, near) =
                        rescale_v1_lem (zeros8 t) (bits24 t) e h n.leading (bits24-lt t) e1 e2 h2
                          (ground arith) (ground arith) in
                      rw c2 (record {
                        zeros = z';
                        digits = b';
                        result = r;
                        leading = l;
                        below = u;
                        harder_cap = λ p. absurd (ground arith);
                        easier_cap = λ p _. absurd (ground arith);
                        between = λ _ _. near;
                      })
                ])
              ])
      ]
    ]

-- On a normal target of the first encoding and factors that are not 0 no assert of scale fails,
-- and the result is normal and not easier than the genesis exponent.
pub scale_v1_total :
    (t : TargetV1) (ef hf : ℕ)
    → IsNormal t
    → ef ≢ 0
    → hf ≢ 0
    → (t' : TargetV1) × (scale_v1 t ef hf ≡ some t')
      × IsNormal t'
      × (genesis_difficulty_exponent ≤ zeros8 t')
scale_v1_total t ef hf n pe ph =
    let s = scale_v1-Scaled t ef hf n pe ph in
    let (n', g) = checks_v1-IsNormal s.zeros s.digits s.leading s.below in
    (checks_v1 s.zeros s.digits, s.result, n', g)

-- The number that a target stands for, its digits times 2 ^ -(zeros + 24), in units of 2 ^ -279.
unfoldable pub threshold : TargetV1 → ℕ
threshold t = bits24 t * 2 ^ (255 - zeros8 t)

unfoldable pub unit : TargetV1 → ℕ
unit t = 2 ^ (255 - zeros8 t)

Rounds-near : (z b e h z' b' : ℕ) → Rounds z b e h z' b' → (z ≤ z' + 1) × (z' ≤ z + 1)
Rounds-near z b e h z' b' (inl r) = omega arith
Rounds-near z b e h z' b' (inr (inl r)) = omega arith
Rounds-near z b e h z' b' (inr (inr r)) = omega arith

-- For a normal target of the first encoding between the genesis exponent and the hardest and
-- factors that are not 0, scale halves or doubles the threshold where the capped factors are a
-- factor 2 apart or more, and else multiplies it by their ratio, rounded down by less than a unit
-- of the last digit.
pub scale_v1-threshold :
    (t : TargetV1) (ef hf : ℕ) {t' : TargetV1}
    → IsNormal t
    → ef ≢ 0
    → hf ≢ 0
    → genesis_difficulty_exponent < zeros8 t
    → zeros8 t < 254
    → scale_v1 t ef hf ≡ some t'
    → ((2 * cap_factor ef ≤ cap_factor hf) × (threshold t' * 2 ≡ threshold t))
      ⊎ ((2 * cap_factor hf ≤ cap_factor ef) × (threshold t' ≡ threshold t * 2))
      ⊎ ((cap_factor hf < 2 * cap_factor ef)
          × (cap_factor ef < 2 * cap_factor hf)
          × (threshold t' * cap_factor hf ≤ threshold t * cap_factor ef)
          × (threshold t * cap_factor ef < (threshold t' + unit t') * cap_factor hf))
unfolding threshold unit
scale_v1-threshold t ef hf {t'} n pe ph lo hi eq =
    let e : ℕ = cap_factor ef in
    let h : ℕ = cap_factor hf in
    let s = scale_v1-Scaled t ef hf n pe ph in
    let same : checks_v1 s.zeros s.digits ≡ t' = cc (s.result) in
    let z = s.zeros in
    let inside : (genesis_difficulty_exponent ≤ z)
        → z < 255
        → (zeros8 t' ≡ z) × (bits24 t' ≡ s.digits) =
      λ p q. rw (← same) (checks_v1-inside z s.digits p q s.below) in
    elim (Bool-cases (leb (2 * e) h)) [
      | inl c1 ↦ inl (
        ground arith,
        let (e1, e2) = s.harder_cap (ground arith) in
            let (i1, i2) = inside (omega arith) (omega arith) in
            rw (i1, i2, e2, double_pow (255 - z) (255 - zeros8 t) (omega arith)) (omega arith),
      )
      | inr c1 ↦ elim (Bool-cases (leb (2 * h) e)) [
        | inl c2 ↦ inr (
            inl (
              ground arith,
              let (e1, e2) = s.easier_cap (ground arith) (omega arith) in
                  let (i1, i2) = inside (omega arith) (omega arith) in
                  rw (i1, i2, e2, double_pow (255 - zeros8 t) (255 - z) (omega arith))
                    (omega arith),
            ))
        | inr c2 ↦ inr (
            inr (
              let near = s.between (ground arith) (ground arith) (omega arith) in
              let steps = Rounds-near _ _ _ _ _ _ near in
              let (i1, i2) = inside (omega (arith, steps)) (omega (arith, steps)) in
              let ratio : (threshold t' * h ≤ threshold t * e)
                  × (threshold t * e < (threshold t' + unit t') * h) =
                rw (i1, i2)
                  (Rounds-threshold 255 (zeros8 t) (bits24 t) e h z s.digits (omega arith)
                    (omega arith) near) in
              (ground arith, ground arith, ratio.0, ratio.1)))
      ]
    ]
