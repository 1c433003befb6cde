-- ===== src/Miner/GpuRunner/Threshold.antt =====
-- `KernelRunner::threshold` (src/miner/gpu/opencl_hasher.hpp).
use janusminer.Common.{
  ℕ, ◌+◌, ◌-◌, ◌*◌, ◌/◌, ◌%◌, ◌≡◌, ◌≤◌, ◌<◌, refl, arith, false, some, u32, u64, ◌==◌,
}
use janusminer.Miner.GpuRunner.{lowest, threshold}
use native.Mathlib.Nat.{div-le_of_le-mul, mul-le-mul_right, div-mul-le_self, lt-div-mul-add}

-- With no more results than tries the threshold is a number of 32 bits, the share of the results of
-- the range above the constant, rounded down.
pub threshold_lem :
    (results tries : ℕ)
    → 0 < tries
    → results ≤ tries
    → tries < u32
    → (q : ℕ) × (threshold results tries ≡ some (lowest + q))
      × (lowest + q < u32)
      × (q * tries ≤ results * (0xFFFFFFFF - lowest))
      × (results * (0xFFFFFFFF - lowest) < q * tries + tries)
unfolding threshold
threshold_lem results tries some_tries few small = (
  results * (0xFFFFFFFF - lowest) / tries,
  rw (nonzero, no_wrap, fits) refl,
  omega (arith, bounded),
  div-mul-le_self _ _,
  lt-div-mul-add some_tries,
)
  where
    nonzero : (tries == 0) ≡ false
    nonzero = ground arith

    no_wrap : results * (0xFFFFFFFF - lowest) % u64 ≡ results * (0xFFFFFFFF - lowest)
    no_wrap = omega arith

    bounded : results * (0xFFFFFFFF - lowest) / tries ≤ 0xFFFFFFFF - lowest
    bounded = div-le_of_le-mul tries (mul-le-mul_right (0xFFFFFFFF - lowest) few)

    fits :
        (lowest + results * (0xFFFFFFFF - lowest) / tries) % u32
        ≡ lowest + results * (0xFFFFFFFF - lowest) / tries
    fits = omega (arith, bounded)
