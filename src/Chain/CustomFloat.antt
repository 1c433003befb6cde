-- ===== src/Chain/CustomFloat.antt =====
-- src/shared/src/block/header/custom_float.hpp: the floating point numbers of the proof of work, with
-- a sign, a mantissa of 32 bits and an exponent of 32 bits. A number stands for ± m * 2 ^ (e - 32).
-- `none` is a failed `assert`, or an overflow of a signed integer.
pub mod Power
pub mod Shift
pub mod Product
pub mod Sum
pub mod Bounds
pub mod Near
pub mod Total
pub mod Polynomial
pub mod PowerTotal
pub mod Whole
mod Tests
use janusminer.Common.{ℕ, zero, suc, ◌+◌, ◌-◌, ◌*◌, ◌/◌, ◌^◌, ◌≡◌}
use janusminer.Common.{Bool, true, false, not, ◌||◌, Option, none, some, List, [], ◌∷◌}
use janusminer.Common.{ltb, leb, ◌==◌, if◌then◌else◌, guard, ◌>>=◌, ◌>>◌}
use janusminer.Common.{ℤ, pos, negsuc, pos_part, ◌+ℤ◌, ◌-ℤ◌, ltb_ℤ, leb_ℤ, i32_max, i32_min}
use janusminer.Chain.Digest.{four_bytes}

-- `CustomFloat` with its `Internal`.
pub record CustomFloat : Type 0 where
  pub exponent : ℤ
  pub mantissa : ℕ
  pub positive : Bool

unfoldable pub empty : CustomFloat
empty = record { exponent = pos 0; mantissa = 0; positive = true }

unfoldable pub set_exponent : CustomFloat → ℤ → Option CustomFloat
set_exponent f e = do
  guard (ltb_ℤ e i32_max)
  guard (ltb_ℤ i32_min e)
  some (record f { exponent = e })

unfoldable pub set_nonzero_mantissa : CustomFloat → ℕ → Option CustomFloat
set_nonzero_mantissa f m = do
  guard (ltb m (2 ^ 32))
  guard (leb (2 ^ 31) m)
  some (record f { mantissa = m })

unfoldable pub set_assert : CustomFloat → ℤ → ℕ → Option CustomFloat
unfolding set_exponent set_nonzero_mantissa
set_assert f e m = do
  f' ← set_exponent f e
  if m == 0 then some (record f' { mantissa = 0 }) else set_nonzero_mantissa f' m

-- The constructor from an exponent, a mantissa and a sign.
unfoldable pub make : ℤ → ℕ → Bool → Option CustomFloat
unfolding set_assert empty
make e m p = do f ← set_assert empty e m; some (record f { positive = p })

-- The loop of `shift_right`. `none`: the fuel is out.
unfoldable pub shift_right_loop : ℕ → ℤ → ℕ → Option (ℤ × ℕ)
shift_right_loop zero e m = none
shift_right_loop (suc fuel) e m =
    let rest = shift_right_loop fuel (e +ℤ pos 1) (m / 2) in
    if leb (2 ^ 32) m then rest else some (e, m)

-- A number of 64 bits is below 2 ^ 32 after 32 rounds.
unfoldable pub shift_right : CustomFloat → ℤ → ℕ → Option CustomFloat
unfolding set_assert
shift_right f e m = do
  guard (leb (2 ^ 31) m)
  (e', m') ← shift_right_loop 33 e m
  set_assert f e' m'

-- The loop of `shift_left`. An exponent below 32 bits fails the `assert` after the loop.
unfoldable pub shift_left_loop : ℕ → ℤ → ℕ → Option (ℤ × ℕ)
shift_left_loop zero e m = none
shift_left_loop (suc fuel) e m =
    let rest = shift_left_loop fuel (e -ℤ pos 1) (m * 2) in
    if ltb m (2 ^ 31) then rest else some (e, m)

unfoldable pub shift_left : CustomFloat → ℤ → ℕ → Option CustomFloat
unfolding set_assert
shift_left f e m = do
  guard (ltb m (2 ^ 32))
  guard (not (m == 0))
  (e', m') ← shift_left_loop 32 e m
  set_assert f e' m'

unfoldable pub new_shift_left : ℤ → ℕ → Bool → Option CustomFloat
unfolding shift_left empty
new_shift_left e m p = do f ← shift_left empty e m; some (record f { positive = p })

-- The constructor from a hash: the loop over its leading zero bytes, and the rest of the bytes.
unfoldable pub skip_zero_bytes : ℤ → List ℕ → ℤ × List ℕ
skip_zero_bytes e [] = (e, [])
skip_zero_bytes e (b ∷ h) =
    let rest = skip_zero_bytes (e -ℤ pos 8) h in if b == 0 then rest else (e, b ∷ h)

unfoldable pub from_hash : List ℕ → Option CustomFloat
unfolding shift_left empty
from_hash h = let (e, rest) = skip_zero_bytes (pos 0) h in shift_left empty e (four_bytes rest)

unfoldable pub is_zero : CustomFloat → Bool
is_zero f = f.mantissa == 0

unfoldable pub negate : CustomFloat → CustomFloat
negate f = record f { positive = not f.positive }

abbrev pub same_sign : Bool → Bool → Bool
same_sign true b = b
same_sign false b = not b

-- `operator+=` from the first exponent on, which is `d` more than the second one, less than 64.
unfoldable pub add_near : CustomFloat → CustomFloat → ℕ → Option CustomFloat
unfolding shift_right shift_left
add_near a b d =
    let tmp = a.mantissa in
    let operand = b.mantissa / 2 ^ d in
    if same_sign a.positive b.positive
    then (do guard (leb (tmp + operand) (2 ^ 33)); shift_right a a.exponent (tmp + operand))
    else if operand == tmp
    then some (record a { mantissa = 0 })
    else if ltb tmp operand
    then (do
      guard (d == 0)
      shift_left (record a { positive = b.positive }) b.exponent (operand - tmp))
    else shift_left a a.exponent (tmp - operand)

-- `operator+=` once the first exponent is not the smaller one.
unfoldable pub add_ordered : CustomFloat → CustomFloat → Option CustomFloat
unfolding add_near
add_ordered a b = do
  let d = a.exponent -ℤ b.exponent
  guard (leb_ℤ b.exponent a.exponent)
  guard (leb_ℤ d i32_max)
  if leb 64 (pos_part d) then some a else add_near a b (pos_part d)

-- `operator+=`: after the swap neither operand is zero and the first exponent is the larger one.
unfoldable pub add : CustomFloat → CustomFloat → Option CustomFloat
unfolding add_ordered is_zero
add a b =
    if is_zero a
    then some b
    else if is_zero b
    then some a
    else if ltb_ℤ a.exponent b.exponent
    then add_ordered b a
    else add_ordered a b

-- `operator-=`.
unfoldable pub subtract : CustomFloat → CustomFloat → Option CustomFloat
unfolding add negate
subtract a b = add a (negate b)

-- `operator*=`.
unfoldable pub multiply : CustomFloat → CustomFloat → Option CustomFloat
unfolding set_assert is_zero
multiply a b = if is_zero a || is_zero b then some (record a { mantissa = 0 }) else do
  let tmp = a.mantissa * b.mantissa
  let e = a.exponent +ℤ b.exponent
  guard (ltb tmp 0xFFFFFFFF00000000)
  guard (leb (2 ^ 62) tmp)
  let small = ltb tmp (2 ^ 63)
  set_assert (record a { positive = same_sign a.positive b.positive })
      (if small then e -ℤ pos 1 else e) ((if small then tmp * 2 else tmp) / 2 ^ 32)
