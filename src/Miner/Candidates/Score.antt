-- ===== src/Miner/Candidates/Score.antt =====
-- The product of hashes in `mine_job` (src/miner/verusopt/verus_clhash_opt.cpp), from hashes to the
-- power of a number (src/shared/src/block/header/custom_float.hpp).
use janusminer.Common.{ℕ, ◌+◌, ◌*◌, ◌^◌, ◌≡◌, ◌≤◌, inl, inr, refl, arith, Bool-cases, ◌==◌}
use janusminer.Common.{true, List, [], ◌∷◌, length}
use janusminer.Common.{Returns, bind-Returns, ℤ, pos, pos_part, neg_part, ◌-ℤ◌, int_laws}
use janusminer.Chain.Digest.{four_bytes}
use janusminer.Chain.Digest.Bounds.{Bytes, Leads, four_bytes_bounds}
use janusminer.Chain.CustomFloat.{CustomFloat, empty, make, skip_zero_bytes, from_hash}
use janusminer.Chain.CustomFloat.Power.{pow}
use janusminer.Chain.CustomFloat.Shift.{IsFull, shift_left_lem, make_lem}
use janusminer.Chain.CustomFloat.Bounds.{Gives, IsExponent-of_parts, multiply-Gives}
use janusminer.Chain.CustomFloat.PowerTotal.{pow-Gives, bound}
use janusminer.Miner.Candidates.{sha256t_hash, janushash}

-- A number between 0 and 1 with an exponent from -`low`.
pub record IsFraction (low : ℕ) (f : CustomFloat) : Type 0 where
  pub full : IsFull f.mantissa
  pub plus : f.positive ≡ true
  pub above : neg_part f.exponent ≤ low
  pub below : pos_part f.exponent ≡ 0

skip_zero_bytes_lem :
    (h : List ℕ) (e : ℤ)
    → Bytes h
    → pos_part e ≡ 0
    → let (e', rest) = skip_zero_bytes e h in
      Bytes rest × Leads rest × (pos_part e' ≡ 0) × (neg_part e' ≤ neg_part e + 8 * length h)
unfolding skip_zero_bytes
skip_zero_bytes_lem [] e p z = (tt, tt, z, omega arith)
skip_zero_bytes_lem (b ∷ h) e p z = elim (Bool-cases (b == 0)) [
  | inl c ↦
      let (bytes, leads, below, above) = skip_zero_bytes_lem h (e -ℤ pos 8) p.1 (omega int_laws) in
      rw c (bytes, leads, below, omega int_laws)
  | inr c ↦ rw c (p, ground arith, z, omega arith)
]

-- Every hash is a number between 0 and 1.
pub from_hash-IsFraction :
    (h : List ℕ) → Bytes h → length h ≤ 32 → Returns (IsFraction 287) (from_hash h)
unfolding from_hash
from_hash-IsFraction h bytes short =
    let (bytes', leads, below, above) = skip_zero_bytes_lem h (pos 0) bytes refl in
    let (lo, hi) = four_bytes_bounds (skip_zero_bytes (pos 0) h).1 bytes' leads in
    let (r, few, full, eq) =
      shift_left_lem empty (skip_zero_bytes (pos 0) h).0 (four_bytes (skip_zero_bytes (pos 0) h).1)
        (omega arith) hi in
    (
      record {
        exponent = (skip_zero_bytes (pos 0) h).0 -ℤ pos r;
        mantissa = four_bytes (skip_zero_bytes (pos 0) h).1 * 2 ^ r;
        positive = true;
      },
      eq (IsExponent-of_parts _ (omega int_laws) (omega int_laws)),
      record { full = full; plus = refl; above = omega int_laws; below = omega int_laws },
    )

sha256t_hash-Bytes : (start : ℕ) → Bytes (sha256t_hash start) × (length (sha256t_hash start) ≤ 32)
unfolding sha256t_hash
sha256t_hash-Bytes start = ground arith

-- For a hash of at most 32 bytes and any first word of a triple SHA-256, no assert fails in the
-- product of the one with the power of the other, and the exponent stays in bounds.
pub janushash-Gives :
    (h : List ℕ) (start : ℕ)
    → Bytes h
    → length h ≤ 32
    → Gives (janushash h start) (287 + bound + 1) bound
unfolding janushash
janushash-Gives h start bytes short =
    let (bytes', short') = sha256t_hash-Bytes start in
    bind-Returns (from_hash h) _ (from_hash-IsFraction h bytes short) (λ v fv.
      bind-Returns (from_hash (sha256t_hash start)) _
        (from_hash-IsFraction (sha256t_hash start) bytes' short')
        (λ s fs. bind-Returns (make (pos 0) 3006477107 true) _ factor_Gives (λ f wf.
          bind-Returns (pow s f) _
            (pow-Gives s f fs.full fs.plus (omega (arith, fs.above)) (omega (arith, fs.below)) wf)
            (λ p wp.
              multiply-Gives v p 287 0 bound bound
                (record { normal = inr fv.full; above = fv.above; below = omega (arith, fv.below) })
                wp (omega arith) (omega arith)))))
  where
    factor_Gives : Gives (make (pos 0) 3006477107 true) (2 ^ 16) 0
    factor_Gives = (
      record { exponent = pos 0; mantissa = 3006477107; positive = true },
      make_lem (pos 0) 3006477107 true (omega arith, omega arith) (refl, refl),
      record { normal = inr (omega arith, omega arith); above = omega arith; below = omega arith },
    )
