-- ===== src/Chain/Target/ScaleV2.antt =====
-- Proofs on `TargetV2::scale` (src/shared/src/block/header/difficulty.hpp).
use janusminer.Common.{ℕ, ◌+◌, ◌-◌, ◌*◌, ◌/◌, ◌%◌, ◌^◌, ◌≡◌, ◌≢◌, ◌<◌, ◌≤◌, ◌⊎◌, inl, inr, arith}
use janusminer.Common.{Bool, ltb, leb, ◌==◌, if◌then◌else◌, Bool-cases, refl}
use janusminer.Common.{Option, some, u32, u64}
use janusminer.Chain.Target.{TargetV2, zeros10, bits22, cap_factor, checks_v2, rescale_v2}
use janusminer.Chain.Target.{scale_v2, min_diff_exponent, max_target_host, decrement32}
use janusminer.Chain.Target.Digits.{
  Rounds, quotient_of, quotient_range, quotient_Rounds, Rounds-threshold, double_pow,
}
use native.Mathlib.Nat.{mul-le-mul}

-- The leading one of the 22 digits is there.
pub record IsNormal (t : TargetV2) : Type 0 where
  pub word : t.bits < u32
  pub leading : 2 ^ 21 ≤ bits22 t

pub checks_v2-IsNormal :
    (z b : ℕ)
    → 2 ^ 21 ≤ b
    → b < 2 ^ 22
    → ((checks_v2 z b).bits ≡ max_target_host)
      ⊎ (IsNormal (checks_v2 z b) × (min_diff_exponent ≤ zeros10 (checks_v2 z b)))
unfolding checks_v2 zeros10 bits22
checks_v2-IsNormal z b lo hi = elim (Bool-cases (ltb z 768)) [
  | inl c ↦ inr (ground arith)
  | inr c ↦ inl (ground arith)
]

pub checks_v2-inside :
    (z b : ℕ)
    → min_diff_exponent ≤ z
    → z < 768
    → b < 2 ^ 22
    → (zeros10 (checks_v2 z b) ≡ z) × (bits22 (checks_v2 z b) ≡ b)
unfolding checks_v2 zeros10 bits22
checks_v2-inside z b lo hi hb = ground arith

module _ (z b e h : ℕ) (bz : z < 1024) (lo : 2 ^ 21 ≤ b) (hi : b < 2 ^ 22) (pe : 0 < e)
    (be : e < 2 ^ 31) (bh : h < 2 ^ 31) (p : h < 2 * e) (q : e < 2 * h) where
  -- No product wraps: the code's quotient is the plain one.
  plain_quotient : b * (if ltb e h then e * 2 % u32 else e) % u64 / h ≡ quotient_of b e h
  unfolding quotient_of
  plain_quotient =
      let b1 : b * (e * 2) ≤ 2 ^ 22 * 2 ^ 32 =
        mul-le-mul {m₁ = e * 2} {n₂ = 2 ^ 22} {m₂ = 2 ^ 32} (omega arith) (omega arith) in
      let b2 : b * e ≤ 2 ^ 22 * 2 ^ 32 =
        mul-le-mul {m₁ = e} {n₂ = 2 ^ 22} {m₂ = 2 ^ 32} (omega arith) (omega arith) in
      ground arith

  -- No exponent wraps, from a positive one.
  plain_zeros :
      (wide : Bool)
      → 0 < z
      → (if wide
          then decrement32 (if ltb e h then (z + 1) % u32 else z)
          else if ltb e h
          then (z + 1) % u32
          else z)
        ≡ (if wide then (if ltb e h then z + 1 else z) - 1 else if ltb e h then z + 1 else z)
  plain_zeros wide pz = ground arith

  rescale_v2_lem :
      (z' : ℕ) × (b' : ℕ) × (rescale_v2 z b e h ≡ some (checks_v2 z' b'))
      × (2 ^ 21 ≤ b')
      × (b' < 2 ^ 22)
      × (0 < z → Rounds z b e h z' b')
  unfolding rescale_v2
  rescale_v2_lem =
      let r = quotient_range (2 ^ 21) b e h lo (omega arith) pe p q in
      let z' : ℕ = (if ltb e h then (z + 1) % u32 else z) in
      let wide = leb (2 * 2 ^ 21) (quotient_of b e h) in
      (
        (if wide then decrement32 z' else z'),
        (if wide then quotient_of b e h / 2 else quotient_of b e h),
        rw plain_quotient (ground (arith, r)),
        ground (arith, r),
        ground (arith, r),
        λ pz.
            rw (plain_zeros wide pz)
              (quotient_Rounds (2 ^ 21) b e h lo (omega arith) pe p q z (inl pz)),
      )

-- What `scale` does before `checks`, by how far its factors are apart.
pub record Scaled (t : TargetV2) (e h : ℕ) (o : Option TargetV2) : Type 0 where
  pub zeros : ℕ
  pub digits : ℕ
  pub result : o ≡ some (checks_v2 zeros digits)
  pub leading : 2 ^ 21 ≤ digits
  pub below : digits < 2 ^ 22
  pub harder_cap : 2 * e ≤ h → (zeros ≡ zeros10 t + 1) × (digits ≡ bits22 t)
  pub easier_cap : 2 * h ≤ e → 0 < zeros10 t → (zeros + 1 ≡ zeros10 t) × (digits ≡ bits22 t)
  pub between :
      h < 2 * e → e < 2 * h → 0 < zeros10 t → Rounds (zeros10 t) (bits22 t) e h zeros digits

pub cap_factor_bounds : (f : ℕ) → f ≢ 0 → (0 < cap_factor f) × (cap_factor f < 2 ^ 31)
cap_factor_bounds f h = ground arith

zeros10-lt : (t : TargetV2) → IsNormal t → zeros10 t < 1024
unfolding zeros10
zeros10-lt t n = omega (arith, n.word)

bits22-lt : (t : TargetV2) → bits22 t < 2 ^ 22
unfolding bits22
bits22-lt t = omega arith

pub scale_v2-Scaled :
    (t : TargetV2) (ef hf : ℕ)
    → IsNormal t
    → ef ≢ 0
    → hf ≢ 0
    → Scaled t (cap_factor ef) (cap_factor hf) (scale_v2 t ef hf)
unfolding scale_v2
scale_v2-Scaled t ef hf n pe ph =
    let (e1, e2) = cap_factor_bounds ef pe in
    let (h1, h2) = cap_factor_bounds hf ph in
    let e : ℕ = cap_factor ef in
    let h : ℕ = cap_factor hf in
    elim (Bool-cases (ef == 0)) [
      | inl z ↦ absurd (ground arith)
      | inr z1 ↦ elim (Bool-cases (hf == 0)) [
        | inl z ↦ absurd (ground arith)
        | inr z2 ↦
            rw (z1, z2)
              (elim (Bool-cases (leb (2 * e % u32) h)) [
                | inl c1 ↦ rw c1 (record {
                  zeros = (zeros10 t + 1) % u32;
                  digits = bits22 t;
                  result = refl;
                  leading = n.leading;
                  below = bits22-lt t;
                  harder_cap = λ _. (omega (arith, zeros10-lt t n), refl);
                  easier_cap = λ p _. absurd (ground arith);
                  between = λ p _ _. absurd (ground arith);
                })
                | inr c1 ↦ rw c1 (elim (Bool-cases (leb (2 * h % u32) e)) [
                  | inl c2 ↦ rw c2 (record {
                    zeros = decrement32 (zeros10 t);
                    digits = bits22 t;
                    result = refl;
                    leading = n.leading;
                    below = bits22-lt t;
                    harder_cap = λ p. absurd (ground arith);
                    easier_cap = λ _ p. (omega (arith, zeros10-lt t n), refl);
                    between = λ _ p _. absurd (ground arith);
                  })
                  | inr c2 ↦
                      let (z', b', r, l, u, near) =
                        rescale_v2_lem (zeros10 t) (bits22 t) e h (zeros10-lt t n) n.leading
                          (bits22-lt t) e1 e2 h2 (ground arith) (ground arith) in
                      rw c2 (record {
                        zeros = z';
                        digits = b';
                        result = r;
                        leading = l;
                        below = u;
                        harder_cap = λ p. absurd (ground arith);
                        easier_cap = λ p _. absurd (ground arith);
                        between = λ _ _. near;
                      })
                ])
              ])
      ]
    ]

-- On a normal target and factors that are not 0 no assert of scale fails, and the result is the
-- maximal target, or is normal with the minimal exponent at least.
pub scale_v2_total :
    (t : TargetV2) (ef hf : ℕ)
    → IsNormal t
    → ef ≢ 0
    → hf ≢ 0
    → (t' : TargetV2) × (scale_v2 t ef hf ≡ some t')
      × ((t'.bits ≡ max_target_host) ⊎ (IsNormal t' × (min_diff_exponent ≤ zeros10 t')))
scale_v2_total t ef hf n pe ph =
    let s = scale_v2-Scaled t ef hf n pe ph in
    (checks_v2 s.zeros s.digits, s.result, checks_v2-IsNormal s.zeros s.digits s.leading s.below)

-- The number that a target stands for, its digits times 2 ^ -(zeros + 22), in units of 2 ^ -1045.
unfoldable pub threshold : TargetV2 → ℕ
threshold t = bits22 t * 2 ^ (1023 - zeros10 t)

unfoldable pub unit : TargetV2 → ℕ
unit t = 2 ^ (1023 - zeros10 t)

Rounds-near : (z b e h z' b' : ℕ) → Rounds z b e h z' b' → (z ≤ z' + 1) × (z' ≤ z + 1)
Rounds-near z b e h z' b' (inl r) = omega arith
Rounds-near z b e h z' b' (inr (inl r)) = omega arith
Rounds-near z b e h z' b' (inr (inr r)) = omega arith

-- For a normal target between the minimal and the maximal exponent and factors that are not 0,
-- scale halves or doubles the threshold where the capped factors are a factor 2 apart or more, and
-- else multiplies it by their ratio, rounded down by less than a unit of the last digit.
pub scale_v2-threshold :
    (t : TargetV2) (ef hf : ℕ) {t' : TargetV2}
    → IsNormal t
    → ef ≢ 0
    → hf ≢ 0
    → min_diff_exponent < zeros10 t
    → zeros10 t < 767
    → scale_v2 t ef hf ≡ some t'
    → ((2 * cap_factor ef ≤ cap_factor hf) × (threshold t' * 2 ≡ threshold t))
      ⊎ ((2 * cap_factor hf ≤ cap_factor ef) × (threshold t' ≡ threshold t * 2))
      ⊎ ((cap_factor hf < 2 * cap_factor ef)
          × (cap_factor ef < 2 * cap_factor hf)
          × (threshold t' * cap_factor hf ≤ threshold t * cap_factor ef)
          × (threshold t * cap_factor ef < (threshold t' + unit t') * cap_factor hf))
unfolding threshold unit
scale_v2-threshold t ef hf {t'} n pe ph lo hi eq =
    let e : ℕ = cap_factor ef in
    let h : ℕ = cap_factor hf in
    let s = scale_v2-Scaled t ef hf n pe ph in
    let same : checks_v2 s.zeros s.digits ≡ t' = cc (s.result) in
    let z = s.zeros in
    let inside : (min_diff_exponent ≤ z) → z < 768 → (zeros10 t' ≡ z) × (bits22 t' ≡ s.digits) =
      λ p q. rw (← same) (checks_v2-inside z s.digits p q s.below) in
    elim (Bool-cases (leb (2 * e) h)) [
      | inl c1 ↦ inl (
        ground arith,
        let (e1, e2) = s.harder_cap (ground arith) in
            let (i1, i2) = inside (omega arith) (omega arith) in
            rw (i1, i2, e2, double_pow (1023 - z) (1023 - zeros10 t) (omega arith)) (omega arith),
      )
      | inr c1 ↦ elim (Bool-cases (leb (2 * h) e)) [
        | inl c2 ↦ inr (
            inl (
              ground arith,
              let (e1, e2) = s.easier_cap (ground arith) (omega arith) in
                  let (i1, i2) = inside (omega arith) (omega arith) in
                  rw (i1, i2, e2, double_pow (1023 - zeros10 t) (1023 - z) (omega arith))
                    (omega arith),
            ))
        | inr c2 ↦ inr (
            inr (
              let near = s.between (ground arith) (ground arith) (omega arith) in
              let steps = Rounds-near _ _ _ _ _ _ near in
              let (i1, i2) = inside (omega (arith, steps)) (omega (arith, steps)) in
              let ratio : (threshold t' * h ≤ threshold t * e)
                  × (threshold t * e < (threshold t' + unit t') * h) =
                rw (i1, i2)
                  (Rounds-threshold 1023 (zeros10 t) (bits22 t) e h z s.digits (omega arith)
                    (omega arith) near) in
              (ground arith, ground arith, ratio.0, ratio.1)))
      ]
    ]
