-- ===== src/Chain/Height.antt =====
-- src/shared/src/block/chain/height.{hpp,cpp} and the consensus parameters of general/params.hpp.
-- A height is the `uint32_t` of its class; `none` is a failed `assert` or a thrown `Error`.
pub mod Supply
pub mod Retarget
use janusminer.Common.{ℕ, zero, suc, ◌+◌, ◌-◌, ◌*◌, ◌/◌, ◌%◌, ◌^◌, ◌≡◌, ◌<◌}
use janusminer.Common.{Bool, true, false, not, Option, none, some, List, [], ◌∷◌}
use janusminer.Common.{u32, ltb, leb, ◌==◌, if◌then◌else◌, guard, ◌>>=◌, ◌>>◌}

abbrev pub coinunit : ℕ
coinunit = 100000000

abbrev pub genesis_block_reward : ℕ
genesis_block_reward = 3 * coinunit

abbrev pub blocktime : ℕ
blocktime = 20

abbrev pub header_batch_size : ℕ
header_batch_size = 8640

abbrev pub halving_interval : ℕ
halving_interval = 2 * 365 * 24 * 60 * 60 / blocktime

abbrev pub max_supply : ℕ
max_supply = genesis_block_reward * halving_interval * 2

abbrev pub four_hours : ℕ
four_hours = 4 * 60 * 60 / blocktime

abbrev pub five_months : ℕ
five_months = 5 * 30 * 24 * 60 * 60 / blocktime

unfoldable pub retarget_floor : ℕ → ℕ
retarget_floor height =
    if ltb height five_months
    then if height / four_hours * four_hours == 0 then 1 else height / four_hours * four_hours
    else height / header_batch_size * header_batch_size

abbrev pub janus_retarget_start : ℕ
unfolding retarget_floor
janus_retarget_start = retarget_floor 720

-- `*this == retarget_floor()`
unfoldable pub is_retarget_height : ℕ → Bool
unfolding retarget_floor
is_retarget_height h = h == retarget_floor h

-- `NonzeroHeight(v)`, `nonzero_assert`, `nonzero_throw`; and `one_if_zero`.
unfoldable pub nonzero : ℕ → Option ℕ
nonzero v = if v == 0 then none else some v

unfoldable pub one_if_zero : ℕ → ℕ
one_if_zero v = if v == 0 then 1 else v

-- `Height::operator--` and `Height::operator-=`; those of `NonzeroHeight`; `operator++`.
unfoldable pub decrement : ℕ → Option ℕ
decrement h = if ltb 0 h then some (h - 1) else none

unfoldable pub subtract : ℕ → ℕ → Option ℕ
subtract h v = if leb v h then some (h - v) else none

unfoldable pub decrement_nonzero : ℕ → Option ℕ
decrement_nonzero h = if ltb 1 h then some (h - 1) else none

unfoldable pub subtract_nonzero : ℕ → ℕ → Option ℕ
subtract_nonzero h v = if leb ((v + 1) % u32) h then some ((h + u32 - v) % u32) else none

unfoldable pub increment : ℕ → ℕ
increment h = (h + 1) % u32

-- `h1 - h2` and `h1 - r` wrap.
unfoldable pub difference : ℕ → ℕ → ℕ
difference a b = (a + u32 - b) % u32

unfoldable pub complete_batches : ℕ → ℕ
complete_batches h = h / header_batch_size

unfoldable pub incomplete_batch_size : ℕ → ℕ
incomplete_batch_size h = h % header_batch_size

-- `none`: a shift of a `uint64_t` by 64 or more, which C++ does not define.
unfoldable pub reward : ℕ → Option ℕ
reward h =
    let halvings = (h + u32 - 1) % u32 / halving_interval in
    if ltb halvings 64 then some (genesis_block_reward / 2 ^ halvings) else none

unfoldable pub pin_bgin : ℕ → ℕ
pin_bgin h = let shifted = h / 2 ^ 5 in if ltb shifted 255 then 0 else (shifted - 255) * 2 ^ 5 % u32

-- `(val & 0x1F) == 0`
unfoldable pub is_pin_height : ℕ → Bool
is_pin_height h = h % 2 ^ 5 == 0

unfoldable pub pin_height : ℕ → Option ℕ
unfolding is_pin_height
pin_height h = if not (is_pin_height h) then none else some h

-- `PinFloor(Height)`
unfoldable pub pin_floor : ℕ → ℕ
pin_floor h = h / 2 ^ 5 * 2 ^ 5
