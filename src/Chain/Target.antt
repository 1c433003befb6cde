-- ===== src/Chain/Target.antt =====
-- src/shared/src/block/header/difficulty{_declaration,}.hpp: the compact targets of a block header.
-- TargetV1 has 8 bits of leading zeros over 24 digits, TargetV2 has 10 over 22.
pub mod Digits
pub mod ScaleV1
pub mod ScaleV2
pub mod LimitsV2
use janusminer.Common.{ℕ, ◌+◌, ◌-◌, ◌*◌, ◌/◌, ◌%◌, ◌^◌, ◌≡◌, ◌<◌}
use janusminer.Common.{Bool, true, false, not, ◌&&◌, Option, none, some}
use janusminer.Common.{u32, u64, ltb, leb, ◌==◌, if◌then◌else◌, guard, ◌>>=◌, ◌>>◌}
use janusminer.General.ByteOrder.{hton32}

abbrev pub genesis_difficulty_exponent : ℕ
genesis_difficulty_exponent = 32

-- `HARDESTTARGET_HOST`, `GENESISTARGET_HOST`, `MaxTargetHost`, `MinDiffExponent`, `MinTargetHost`.
-- The `|` is of disjoint bits.
abbrev pub hardest_target_host : ℕ
hardest_target_host = 0xFF800000

abbrev pub genesis_target_host : ℕ
genesis_target_host = genesis_difficulty_exponent * 2 ^ 24 + 0x00FFFFFF

abbrev pub max_target_host : ℕ
max_target_host = 0xe00fffff

abbrev pub min_diff_exponent : ℕ
min_diff_exponent = 22

abbrev pub min_target_host : ℕ
min_target_host = min_diff_exponent * 2 ^ 24 + 0x003FFFFF

-- The `uint32_t data` of a target.
pub record TargetV1 : Type 0 where
  pub bits : ℕ

pub record TargetV2 : Type 0 where
  pub bits : ℕ

-- The constructors from a `uint32_t` swap its bytes.
unfoldable pub make_v1 : ℕ → TargetV1
make_v1 bits = record { bits = hton32 bits }

unfoldable pub make_v2 : ℕ → TargetV2
make_v2 bits = record { bits = hton32 bits }

unfoldable pub genesis : TargetV1
unfolding make_v1
genesis = make_v1 (hton32 genesis_target_host)

unfoldable pub min_target : TargetV2
unfolding make_v2
min_target = make_v2 (hton32 min_target_host)

unfoldable pub zeros8 : TargetV1 → ℕ
zeros8 t = t.bits / 2 ^ 24

unfoldable pub bits24 : TargetV1 → ℕ
bits24 t = t.bits % 2 ^ 24

unfoldable pub zeros10 : TargetV2 → ℕ
zeros10 t = t.bits / 2 ^ 22

unfoldable pub bits22 : TargetV2 → ℕ
bits22 t = t.bits % 2 ^ 22

-- `set`: every caller keeps `bytes` below the digits' bound, so `|` is `+`.
unfoldable pub set_v1 : ℕ → ℕ → TargetV1
set_v1 zeros bytes = record { bits = zeros * 2 ^ 24 % u32 + bytes }

unfoldable pub set_v2 : ℕ → ℕ → TargetV2
set_v2 zeros bytes = record { bits = zeros * 2 ^ 22 % u32 + bytes }

-- "prevent overflow"
abbrev pub cap_factor : ℕ → ℕ
cap_factor f = if leb 0x80000000 f then 0x7FFFFFFF else f

-- After the label `checks`. `zeros` is an `int`; what would be -1 stands as 0, and both are below
-- the genesis exponent.
unfoldable pub checks_v1 : ℕ → ℕ → TargetV1
unfolding set_v1
checks_v1 zeros bits64 =
    if ltb zeros genesis_difficulty_exponent
    then record { bits = genesis_target_host }
    else if leb 255 zeros
    then record { bits = hardest_target_host }
    else set_v1 zeros bits64

-- The body of `scale` for factors within a factor 2 of each other, up to its asserts.
unfoldable pub rescale_v1 : ℕ → ℕ → ℕ → ℕ → Option TargetV1
unfolding checks_v1
rescale_v1 zeros bits64 easier harder =
    let harder_first = ltb easier harder in
    let easier' = if harder_first then easier * 2 % u32 else easier in
    let zeros' = if harder_first then zeros + 1 else zeros in
    let quotient = bits64 * easier' % u64 / harder in
    let too_wide = ltb 0x00FFFFFF quotient in
    let bits' = if too_wide then quotient / 2 else quotient in
    let zeros'' = if too_wide then zeros' - 1 else zeros' in
    if leb bits' 0x00FFFFFF && (bits' / 2 ^ 23 % 2 == 1)
    then some (checks_v1 zeros'' bits')
    else none

-- `none` is a failed `assert`.
unfoldable pub scale_v1 : TargetV1 → ℕ → ℕ → Option TargetV1
unfolding rescale_v1 zeros8 bits24
scale_v1 t easierfactor harderfactor = do
  guard (not (easierfactor == 0))
  guard (not (harderfactor == 0))
  let easier = cap_factor easierfactor
  let harder = cap_factor harderfactor
  if leb (2 * easier % u32) harder
      then some (checks_v1 (zeros8 t + 1) (bits24 t))
      else if leb (2 * harder % u32) easier
      then some (checks_v1 (zeros8 t - 1) (bits24 t))
      else rescale_v1 (zeros8 t) (bits24 t) easier harder

unfoldable pub checks_v2 : ℕ → ℕ → TargetV2
unfolding set_v2
checks_v2 zeros bits64 =
    if ltb zeros min_diff_exponent
    then record { bits = min_target_host }
    else if leb (256 * 3) zeros
    then record { bits = max_target_host }
    else set_v2 zeros bits64

-- Here `zeros` is a `uint32_t`, and `zeros -= 1` wraps at 0.
abbrev pub decrement32 : ℕ → ℕ
decrement32 zeros = (zeros + u32 - 1) % u32

unfoldable pub rescale_v2 : ℕ → ℕ → ℕ → ℕ → Option TargetV2
unfolding checks_v2
rescale_v2 zeros bits64 easier harder =
    let harder_first = ltb easier harder in
    let easier' = if harder_first then easier * 2 % u32 else easier in
    let zeros' = if harder_first then (zeros + 1) % u32 else zeros in
    let quotient = bits64 * easier' % u64 / harder in
    let too_wide = ltb 0x003FFFFF quotient in
    let bits' = if too_wide then quotient / 2 else quotient in
    let zeros'' = if too_wide then decrement32 zeros' else zeros' in
    if leb bits' 0x003FFFFF && (bits' / 2 ^ 21 % 2 == 1)
    then some (checks_v2 zeros'' bits')
    else none

unfoldable pub scale_v2 : TargetV2 → ℕ → ℕ → Option TargetV2
unfolding rescale_v2 zeros10 bits22
scale_v2 t easierfactor harderfactor = do
  guard (not (easierfactor == 0))
  guard (not (harderfactor == 0))
  let easier = cap_factor easierfactor
  let harder = cap_factor harderfactor
  if leb (2 * easier % u32) harder
      then some (checks_v2 ((zeros10 t + 1) % u32) (bits22 t))
      else if leb (2 * harder % u32) easier
      then some (checks_v2 (decrement32 (zeros10 t)) (bits22 t))
      else rescale_v2 (zeros10 t) (bits22 t) easier harder
