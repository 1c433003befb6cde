-- ===== src/Chain/Target/LimitsV2.antt =====
-- Proofs on `TargetV2::scale` (src/shared/src/block/header/difficulty.hpp) at the ends of its range.
use janusminer.Common.{ℕ, ◌-◌, ◌*◌, ◌^◌, ◌≡◌, ◌≢◌, ◌<◌, ◌≤◌, arith}
use janusminer.Common.{none, some}
use janusminer.Chain.Target.{TargetV2, zeros10, bits22, cap_factor, checks_v2}
use janusminer.Chain.Target.{scale_v2, min_diff_exponent, max_target_host}
use janusminer.Chain.Target.Digits.{quotient_of, quotient_range, quotient_bounds}
use janusminer.Chain.Target.ScaleV2.{IsNormal, scale_v2-Scaled, cap_factor_bounds}

-- A normal target at the minimal exponent that is to become easier by a factor 2 or more comes
-- back with 88 leading zeros, since the minimum is encoded with a shift by 24 where the type has
-- 22.
pub scale_v2-below_min :
    (t : TargetV2) (ef hf : ℕ)
    → IsNormal t
    → ef ≢ 0
    → hf ≢ 0
    → zeros10 t ≡ min_diff_exponent
    → 2 * cap_factor hf ≤ cap_factor ef
    → (t' : TargetV2) × (scale_v2 t ef hf ≡ some t') × (zeros10 t' ≡ 88) × (bits22 t' ≡ 2 ^ 22 - 1)
unfolding checks_v2 zeros10 bits22
scale_v2-below_min t ef hf n pe ph z c =
    let s = scale_v2-Scaled t ef hf n pe ph in
    let e = s.easier_cap c (omega arith) in
    (checks_v2 s.zeros s.digits, s.result, ground (arith, e), ground (arith, e))

-- From the maximal target, scale by factors that are not 0 and less than a factor 2 apart fails an
-- assert, since the constant lacks its leading digit.
pub scale_v2-at_max :
    (ef hf : ℕ)
    → ef ≢ 0
    → hf ≢ 0
    → cap_factor hf < 2 * cap_factor ef
    → cap_factor ef < 2 * cap_factor hf
    → scale_v2 (record { bits = max_target_host }) ef hf ≡ none
unfolding scale_v2 quotient_of
scale_v2-at_max ef hf pe ph p q =
    let (e1, e2) = cap_factor_bounds ef pe in
    let (h1, h2) = cap_factor_bounds hf ph in
    let e : ℕ = cap_factor ef in
    let h : ℕ = cap_factor hf in
    let r = quotient_range (2 ^ 20 - 1) (2 ^ 20 - 1) e h (omega arith) (omega arith) e1 p q in
    let r1 = quotient_bounds (2 ^ 20 - 1) (e * 2) h in
    let r2 = quotient_bounds (2 ^ 20 - 1) e h in ground (arith, r1, r2)
