-- ===== src/General/CompactUint/Precision.antt =====
-- Proofs on `CompactUInt::compact` and `uncompact` (src/shared/src/general/compact_uint.{hpp,cpp}).
use janusminer.Common.{
  ℕ, zero, suc, ◌+◌, ◌-◌, ◌*◌, ◌/◌, ◌%◌, ◌^◌, ◌≡◌, ◌≢◌, ◌<◌, ◌≤◌, arith, refl, ◌⊎◌,
}
use janusminer.Common.{true, false, u16, u64, ltb, ◌==◌, if◌then◌else◌, Bool-cases, inl, inr}
use janusminer.Common.{pow-suc-mul, pow_pos, div-pow-suc, ◌∙◌}
use native.Mathlib.Nat.{mul-div_right, div-mul-le_self, lt-div-mul-add, mul-le-mul_right, div-one}
use janusminer.General.Funds.{Funds, is_zero}
use janusminer.General.CompactUint.{shift_down, shift_up, down_fuel, up_fuel, compact}
use janusminer.General.CompactUint.{uncompact}

lower : (v s : ℕ) → 2 ^ 11 ≤ v → (s ≡ 0) ⊎ (2 ^ 10 ≤ v / 2 / 2 ^ s) → 2 ^ 10 ≤ v / 2 ^ suc s
lower v s h (inl e) = rw (div-pow-suc v s, e) (omega arith)
lower v s h (inr l) = rw (div-pow-suc v s) l

-- The first loop ends within `k` rounds on a value below `2 ^ (11 + k)`, with the value's upper digits.
shift_down_lem :
    (k fuel e v : ℕ)
    → k < fuel
    → v < 2 ^ k * 2 ^ 11
    → e + k < u16
    → (s : ℕ) × (shift_down fuel e v ≡ (e + s, v / 2 ^ s))
      × (s ≤ k)
      × (v / 2 ^ s < 2 ^ 11)
      × ((s ≡ 0) ⊎ (2 ^ 10 ≤ v / 2 ^ s))
unfolding shift_down
shift_down_lem zero zero e v p h q = absurd (omega arith)
shift_down_lem zero (suc fuel) e v p h q = (0, ground arith, omega arith, omega arith, inl refl)
shift_down_lem (suc k) zero e v p h q = absurd (omega arith)
shift_down_lem (suc k) (suc fuel) e v p h q = elim (Bool-cases (ltb 0x07FF v)) [
  | inr c ↦ rw c (0, ground arith, omega arith, ground arith, inl refl)
  | inl c ↦
      let same : (e + 1) % u16 ≡ e + 1 = omega arith in
      let (s, eq, le, lt, lo) =
        shift_down_lem k fuel (e + 1) (v / 2) (omega arith) (omega (arith, pow-suc-mul k (2 ^ 11)))
          (omega arith) in
      rw (c, same)
        (
          suc s,
          eq ∙ ground (arith, div-pow-suc v s),
          omega arith,
          omega (arith, div-pow-suc v s, lt),
          inr (lower v s (ground arith) lo),
        )
]

-- The second loop ends within `k` rounds on a value that `2 ^ k` brings to 2 ^ 10 at least.
shift_up_lem :
    (k fuel e v : ℕ)
    → k < fuel
    → 2 ^ 10 ≤ 2 ^ k * v
    → v < 2 ^ 11
    → k ≤ e
    → e < u16
    → (s : ℕ) × (s ≤ k)
      × (shift_up fuel e v ≡ (e - s, 2 ^ s * v))
      × (2 ^ 10 ≤ 2 ^ s * v)
      × (2 ^ s * v < 2 ^ 11)
unfolding shift_up
shift_up_lem k zero e v p h lt q u = absurd (omega arith)
shift_up_lem zero (suc fuel) e v p h lt q u =
    (0, omega arith, ground arith, omega arith, omega arith)
shift_up_lem (suc k) (suc fuel) e v p h lt q u = elim (Bool-cases (ltb v 0x0400)) [
  | inr c ↦ rw c (0, omega arith, ground arith, ground arith, omega arith)
  | inl c ↦
      let same : (e + u16 - 1) % u16 ≡ e - 1 = omega arith in
      let same' : v * 2 % u64 ≡ 2 * v = ground arith in
      let (s, le, eq, lo, hi) =
        shift_up_lem k fuel (e - 1) (2 * v) (omega arith) (omega (arith, pow-suc-mul k v))
          (ground arith) (omega arith) (omega arith) in
      rw (c, same, same')
        (
          suc s,
          omega arith,
          eq ∙ ground (arith, pow-suc-mul s v),
          omega (arith, pow-suc-mul s v),
          omega (arith, pow-suc-mul s v),
        )
]

uncompact_fields :
    (e m : ℕ)
    → e < 64
    → 2 ^ 10 ≤ m
    → m < 2 ^ 11
    → (uncompact (record { val = e * 2 ^ 10 % u16 + m % u16 % 2 ^ 10 })).e8
      ≡ (if ltb e 10 then m / 2 ^ (10 - e) else m * 2 ^ (e - 10) % u64)
unfolding uncompact
uncompact_fields e m he lo hi =
    let e1 : (e * 2 ^ 10 % u16 + m % u16 % 2 ^ 10) / 2 ^ 10 % 2 ^ 6 ≡ e = omega arith in
    let e2 : (e * 2 ^ 10 % u16 + m % u16 % 2 ^ 10) % 2 ^ 10 + 0x0400 ≡ m = omega arith in
    rw (e1, e2) (elim (Bool-cases (ltb e 10)) [ inl c ↦ rw c | inr c ↦ rw c ])

div-mul_cancel : (s v : ℕ) → 2 ^ s * v / 2 ^ s ≡ v
div-mul_cancel s v = mul-div_right v (pow_pos s)

-- What the value loses when `s` of its digits are shifted out.
shift_bounds : (v s : ℕ) → (v / 2 ^ s * 2 ^ s ≤ v) × (v < v / 2 ^ s * 2 ^ s + 2 ^ s)
shift_bounds v s = (div-mul-le_self v (2 ^ s), lt-div-mul-add (pow_pos s))

-- The fields that `compact` packs, and what they stand for.
record Packs (v e m : ℕ) : Type 0 where
  range : e < 64
  lo : 2 ^ 10 ≤ m
  hi : m < 2 ^ 11
  at_most : (if ltb e 10 then m / 2 ^ (10 - e) else m * 2 ^ (e - 10) % u64) ≤ v
  error : 1024 * v < 1025 * (if ltb e 10 then m / 2 ^ (10 - e) else m * 2 ^ (e - 10) % u64)

Packs-up :
    (v s : ℕ)
    → 0 < v
    → s ≤ 10
    → 2 ^ 10 ≤ 2 ^ s * v
    → 2 ^ s * v < 2 ^ 11
    → Packs v (10 - s) (2 ^ s * v)
Packs-up v zero p h lo hi = record {
  range = omega arith;
  lo = lo;
  hi = hi;
  at_most = omega arith;
  error = omega arith;
}
Packs-up v (suc s) p h lo hi =
    let c : ltb (10 - suc s) 10 ≡ true = ground arith in
    let e : 10 - (10 - suc s) ≡ suc s = omega arith in
    record {
      range = omega arith;
      lo = lo;
      hi = hi;
      at_most = rw (c, e, div-mul_cancel (suc s) v) (omega arith);
      error = rw (c, e, div-mul_cancel (suc s) v) (omega arith);
    }

Packs-down :
    (v s : ℕ)
    → s ≤ 53
    → v < u64
    → 2 ^ 10 ≤ v / 2 ^ s
    → v / 2 ^ s < 2 ^ 11
    → Packs v (10 + s) (v / 2 ^ s)
Packs-down v s h u lo hi =
    let c : ltb (10 + s) 10 ≡ false = ground arith in
    let e : 10 + s - 10 ≡ s = omega arith in
    let (b1, b2) = shift_bounds v s in
    let b3 : 2 ^ 10 * 2 ^ s ≤ v / 2 ^ s * 2 ^ s = mul-le-mul_right (2 ^ s) lo in
    record {
      range = omega arith;
      lo = lo;
      hi = hi;
      at_most = rw (c, e) (omega arith);
      error = rw (c, e) (omega arith);
    }

compact_loops :
    (v : ℕ)
    → 0 < v
    → v < u64
    → let (e, w) = shift_down down_fuel 10 v in let (e', w') = shift_up up_fuel e w in Packs v e' w'
compact_loops v p h =
    let (s, eq, le, lt, lo) =
      shift_down_lem 53 down_fuel 10 v (omega arith) (omega arith) (omega arith) in
    rw eq (go s le lo lt)
  where
    go :
        (s : ℕ)
        → s ≤ 53
        → (s ≡ 0) ⊎ (2 ^ 10 ≤ v / 2 ^ s)
        → v / 2 ^ s < 2 ^ 11
        → let (e', w') = shift_up up_fuel (10 + s) (v / 2 ^ s) in Packs v e' w'
    go s le (inl z) lt =
        let (t, tle, eq, lo, hi) =
          shift_up_lem 10 up_fuel 10 v (omega arith) (omega arith) (omega (arith, rw z at lt))
            (omega arith) (omega arith) in
        rw (z, div-one, eq) (Packs-up v t p tle lo hi)
    go s le (inr l) lt =
        let (t, tle, eq, lo, hi) =
          shift_up_lem 0 up_fuel (10 + s) (v / 2 ^ s) (omega arith) (omega arith) lt (omega arith)
            (omega arith) in
        let e1 : 10 + s - t ≡ 10 + s = omega arith in
        let e2 : 2 ^ t * (v / 2 ^ s) ≡ v / 2 ^ s =
          let z : t ≡ 0 = omega arith in rw z (omega arith) in
        rw (eq, e1, e2) (Packs-down v s le h l lt)

-- A 64-bit amount that is not 0 comes back from its compact form rounded down by less than one
-- part in 1024.
pub uncompact-compact :
    (f : Funds)
    → f.e8 ≢ 0
    → f.e8 < u64
    → ((uncompact (compact f)).e8 ≤ f.e8) × (1024 * f.e8 < 1025 * (uncompact (compact f)).e8)
unfolding compact
uncompact-compact f ne h =
    let p = compact_loops f.e8 (omega arith) h in
    let c : f.e8 == 0 ≡ false = ground arith in
    rw (is_zero, c, uncompact_fields _ _ p.range p.lo p.hi) (p.at_most, p.error)

-- An amount of 0 comes back from its compact form as 1.
pub uncompact-compact_zero : (f : Funds) → f.e8 ≡ 0 → (uncompact (compact f)).e8 ≡ 1
unfolding compact is_zero uncompact
uncompact-compact_zero f z = ground arith
