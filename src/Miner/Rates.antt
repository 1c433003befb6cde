-- ===== src/Miner/Rates.antt =====
-- The hash rates of the CPU side: src/miner/cpu/efficiency_estimator.hpp (`PerSecond`,
-- the sums on `size_t` and `uint64_t`, which wrap around at 2 ^ 64, and the width of the windows).
pub mod Average
pub mod Efficiency
pub mod AllCount
pub mod Window
pub mod Samples
pub mod Reports
use janusminer.Common.{ℕ, zero, suc, ◌+◌, ◌-◌, ◌*◌, ◌/◌, ◌%◌, ◌^◌, ◌≡◌}
use janusminer.Common.{
  Bool, true, false, Option, none, some, List, [], ◌∷◌, ◌++◌, u64, ◌==◌, ltb, if◌then◌else◌, length,
  get_elem?, set, replicate,
}

unfoldable pub add64 : ℕ → ℕ → ℕ
add64 a x = (a + x) % u64

unfoldable pub sub64 : ℕ → ℕ → ℕ
sub64 a x = (a + (u64 - x % u64)) % u64

abbrev pub window_width : ℕ
window_width = 10

pub record PerSecond : Type 0 where
  pub total : ℕ
  pub considered : ℕ
