-- ===== src/General/CompactUint.antt =====
-- src/shared/src/general/compact_uint.{hpp,cpp}: amounts as 16-bit floats, 6 bits of exponent over 10
-- of mantissa.
pub mod Precision
use janusminer.Common.{ℕ, zero, suc, ◌+◌, ◌-◌, ◌*◌, ◌/◌, ◌%◌, ◌^◌, ◌≡◌, ◌<◌}
use janusminer.Common.{Bool, true, false, u16, u64, ltb, leb, ◌==◌, if◌then◌else◌}
use janusminer.General.Funds.{Funds, is_zero}

pub record CompactUint : Type 0 where
  pub val : ℕ

-- The loops `while (e8 > threshold)` and `while (e8 < 0x400)`, on fuel; they leave `(e, e8)`.
unfoldable pub shift_down : ℕ → ℕ → ℕ → ℕ × ℕ
shift_down zero e e8 = (e, e8)
shift_down (suc fuel) e e8 =
    let rest = shift_down fuel ((e + 1) % u16) (e8 / 2) in if ltb 0x07FF e8 then rest else (e, e8)

unfoldable pub shift_up : ℕ → ℕ → ℕ → ℕ × ℕ
shift_up zero e e8 = (e, e8)
shift_up (suc fuel) e e8 =
    let rest = shift_up fuel ((e + u16 - 1) % u16) (e8 * 2 % u64) in
    if ltb e8 0x0400 then rest else (e, e8)

abbrev pub down_fuel : ℕ
down_fuel = 64

abbrev pub up_fuel : ℕ
up_fuel = 16

unfoldable pub compact : Funds → CompactUint
unfolding is_zero
compact f =
    let (e, e8) = shift_down down_fuel 10 f.e8 in
    let (e', e8') = shift_up up_fuel e e8 in
    if is_zero f
    then record { val = 0 }
    else record { val = e' * 2 ^ 10 % u16 + e8' % u16 % 2 ^ 10 }

unfoldable pub uncompact : CompactUint → Funds
uncompact c =
    let e = c.val / 2 ^ 10 % 2 ^ 6 in
    let m = c.val % 2 ^ 10 + 0x0400 in
    if ltb e 10 then record { e8 = m / 2 ^ (10 - e) } else record { e8 = m * 2 ^ (e - 10) % u64 }
