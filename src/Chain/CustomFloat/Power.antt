-- ===== src/Chain/CustomFloat/Power.antt =====
-- src/shared/src/block/header/custom_float.hpp: logarithm and powers.
use janusminer.Common.{ℕ, zero, suc, ◌-◌, ◌*◌, ◌/◌, ◌%◌, ◌^◌}
use janusminer.Common.{true, false, not, Option}
use janusminer.Common.{u32, ltb, ◌==◌, if◌then◌else◌, guard, ◌>>=◌, ◌>>◌}
use janusminer.Common.{ℤ, pos, negsuc, pos_part, ◌+ℤ◌, ◌-ℤ◌, ltb_ℤ, leb_ℤ, i32_max, i32_min}
use janusminer.Chain.CustomFloat.{
  CustomFloat, make, set_exponent, new_shift_left, is_zero, add, subtract, multiply,
}

unfoldable pub from_exponent : ℤ → Option CustomFloat
from_exponent e = do
  guard (ltb_ℤ e (i32_max -ℤ pos 1))
  guard (ltb_ℤ (i32_min -ℤ pos 1) e)
  make (e +ℤ pos 1) 0x80000000 true

unfoldable pub add_exponent : CustomFloat → ℤ → Option CustomFloat
add_exponent f e = set_exponent f (f.exponent +ℤ e)

unfoldable pub negate_exponent : CustomFloat → Option CustomFloat
negate_exponent f = set_exponent f (pos 0 -ℤ f.exponent)

-- The argument is a number of 32 bits; the negative of the least one overflows.
unfoldable pub from_int : ℤ → Option CustomFloat
from_int (pos zero) = make (pos 0) 0 true
from_int (pos (suc n)) = new_shift_left (pos 32) (suc n) true
from_int (negsuc n) = do guard (ltb n (2 ^ 31 - 1)); new_shift_left (pos 32) (suc n) false

-- c3 + x * (c2 + x * (c1 + x * c0)), the form of both polynomials.
unfoldable pub cubic :
    Option CustomFloat
    → Option CustomFloat
    → Option CustomFloat
    → Option CustomFloat
    → CustomFloat
    → Option CustomFloat
cubic c0 c1 c2 c3 x = do
  k0 ← c0
  k1 ← c1
  k2 ← c2
  k3 ← c3
  p0 ← multiply x k0
  s1 ← add k1 p0
  p1 ← multiply x s1
  s2 ← add k2 p1
  p2 ← multiply x s2
  add k3 p2

-- The polynomial of `log2`.
unfoldable pub log2_polynomial : CustomFloat → Option CustomFloat
log2_polynomial x =
    cubic (make (pos 1) 2872373668 true) (make (pos 3) 2377545675 false)
      (make (pos 3) 3384280813 true) (make (pos 2) 3451338727 false) x

unfoldable pub log2 : CustomFloat → Option CustomFloat
log2 x = do
  guard (not (is_zero x))
  guard x.positive
  x' ← set_exponent x (pos 0)
  d ← log2_polynomial x'
  e ← from_int x.exponent
  add e d

unfoldable pub pow2_fraction : CustomFloat → Option CustomFloat
pow2_fraction f =
    cubic (make (negsuc 2) 3207796260 true) (make (negsuc 1) 3510493713 true)
      (make (pos 0) 3014961390 true) (make (pos 1) 2147933481 true) f

-- `pow2` for an exponent from 1 to 31, the number of bits of the whole part.
unfoldable pub pow2_whole : CustomFloat → ℕ → Option CustomFloat
pow2_whole x k = do
  let e = x.mantissa / 2 ^ (32 - k)
  let m_frac = x.mantissa * 2 ^ k % u32
  if m_frac == 0
      then (if x.positive
          then from_exponent (pos e)
          else do p ← from_exponent (pos e); n ← negate_exponent p; add_exponent n (pos 2))
      else (do
        frac ← new_shift_left (pos 0) m_frac true
        if x.positive then (do p ← pow2_fraction frac; add_exponent p (pos e)) else (do
          one ← from_int (pos 1)
          r ← subtract one frac
          p ← pow2_fraction r
          p' ← add_exponent p (pos e -ℤ pos 1)
          negate_exponent p'))

-- `pow2` for an exponent up to 0.
unfoldable pub pow2_part : CustomFloat → Option CustomFloat
pow2_part x = if x.positive then pow2_fraction x else do
  one ← from_int (pos 1)
  s ← add one x
  p ← pow2_fraction s
  n ← negate_exponent p
  add_exponent n (pos 1)

-- The `assert` leaves out the branch of exponent 32.
unfoldable pub pow2 : CustomFloat → Option CustomFloat
pow2 x = if is_zero x then from_int (pos 1) else do
  guard (leb_ℤ x.exponent (pos 31))
  if ltb_ℤ (pos 0) x.exponent then pow2_whole x (pos_part x.exponent) else pow2_part x

unfoldable pub pow : CustomFloat → CustomFloat → Option CustomFloat
pow base exponent = do l ← log2 base; p ← multiply exponent l; pow2 p
