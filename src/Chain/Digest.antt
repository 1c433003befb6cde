-- ===== src/Chain/Digest.antt =====
-- src/shared/src/block/header/hash_exponential_request.hpp: the product of hashes, read as numbers
-- in (0, 1), as a mantissa and a negative exponent; and `TargetV2::compatible` of difficulty.hpp.
pub mod Bounds
use janusminer.Common.{ℕ, zero, suc, ◌+◌, ◌-◌, ◌*◌, ◌/◌, ◌%◌, ◌^◌, ◌≡◌, ◌<◌}
use janusminer.Common.{Bool, true, false, Option, none, some, List, [], ◌∷◌}
use janusminer.Common.{u32, u64, ltb, leb, ◌==◌, ◌&&◌, if◌then◌else◌, guard, ◌>>=◌, ◌>>◌}
use janusminer.Chain.Target.{TargetV2, zeros10, bits22}

-- `negExp` and `data`.
pub record Digest : Type 0 where
  pub neg_exp : ℕ
  pub mantissa : ℕ

unfoldable pub fresh : Digest
fresh = record { neg_exp = 0; mantissa = 0x80000000 }

-- The loop over leading zero bytes: what it adds to `negExp`, and the bytes from `h[i]` on.
unfoldable pub skip_zeros : ℕ → List ℕ → ℕ × List ℕ
skip_zeros neg_exp [] = (neg_exp, [])
skip_zeros neg_exp (b ∷ h) =
    let rest = skip_zeros ((neg_exp + 8) % u32) h in if b == 0 then rest else (neg_exp, b ∷ h)

-- `h[i++]`, or 0xFF past the end.
abbrev pub next_byte : List ℕ → ℕ × List ℕ
next_byte [] = (0xFF, [])
next_byte (b ∷ h) = (b, h)

-- Four bytes into `tmpData`. The `|` is with a value shifted by 8.
unfoldable pub four_bytes : List ℕ → ℕ
four_bytes h =
    let (a, h1) = next_byte h in
    let (b, h2) = next_byte h1 in
    let (c, h3) = next_byte h2 in
    let (d, h4) = next_byte h3 in ((a * 2 ^ 8 + b) * 2 ^ 8 + c) * 2 ^ 8 + d

-- The loop that shifts until bit 31 is set, with the count of its rounds. `none`: no bit 31 comes up
-- within the fuel.
unfoldable pub normalize : ℕ → ℕ → ℕ → ℕ → Option (ℕ × ℕ × ℕ)
normalize zero shifts neg_exp tmp = none
normalize (suc fuel) shifts neg_exp tmp =
    let rest = normalize fuel (shifts + 1) ((neg_exp + 1) % u32) (tmp * 2 % u64) in
    if tmp / 2 ^ 31 % 2 == 0 then rest else some (shifts, neg_exp, tmp)

abbrev pub normalize_fuel : ℕ
normalize_fuel = 32

-- From the product on; `none` is a failed `assert`.
unfoldable pub multiply : Digest → ℕ → ℕ → ℕ → Option Digest
multiply d shifts neg_exp tmp = do
  guard (ltb shifts 8)
  guard (tmp / 2 ^ 32 == 0)
  let product = tmp * d.mantissa % u64
  let large = leb (2 ^ 63) product
  let product' = if large then product / 2 else product
  let neg_exp' = if large then (neg_exp + u32 - 1) % u32 else neg_exp
  let result = product' / 2 ^ 31
  guard (ltb result (2 ^ 32))
  guard (leb (2 ^ 31) result)
  some (record { neg_exp = neg_exp'; mantissa = result % u32 })

unfoldable pub digest : Digest → List ℕ → Option Digest
digest d h = do
  let (neg_exp, rest) = skip_zeros ((d.neg_exp + 1) % u32) h
  (shifts, neg_exp', tmp) ← normalize normalize_fuel 0 neg_exp (four_bytes rest)
  multiply d shifts neg_exp' tmp

-- `TargetV2::compatible`. `none` is its failed `assert`.
unfoldable pub compatible_v2 : TargetV2 → Digest → Option Bool
unfolding zeros10 bits22
compatible_v2 t d = do
  guard (ltb 0 d.neg_exp)
  let zeros_digest = d.neg_exp - 1
  if ltb (zeros10 t) zeros_digest
      then some true
      else if ltb zeros_digest (zeros10 t)
      then some false
      else some (ltb d.mantissa (bits22 t * 2 ^ 10 % u32))
