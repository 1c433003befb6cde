-- ===== src/Miner/GpuRunner/Locks.antt =====
-- `JobLock` (src/miner/gpu/opencl_hasher.hpp): its counter against the lockers that exist.
use janusminer.Common.{
  ℕ, zero, suc, ◌+◌, ◌≡◌, ◌<◌, refl, arith, Option, none, some, List, [], ◌∷◌, length, u64, ltb,
}
use mathlib.Core.Path.{subst}
use janusminer.Miner.GpuRunner.{JobLock, new_lock, lock, unlock, Call, acquires, destroys, run}

-- The counter is the number of lockers, and the mutex is held while there is one.
pub record IsCounting (lockers : ℕ) (l : JobLock) : Type 0 where
  pub counted : l.locks ≡ lockers
  pub held : l.held ≡ ltb 0 lockers

lock-IsCounting : (n : ℕ) (l : JobLock) → IsCounting n l → suc n < u64 → IsCounting (suc n) (lock l)
unfolding lock
lock-IsCounting n l c room = record {
  counted = omega (arith, c.counted);
  held = ground (arith, c.counted, c.held);
}

unlock-IsCounting :
    (n : ℕ) (l : JobLock) → IsCounting (suc n) l → suc n < u64 → IsCounting n (unlock l)
unfolding unlock
unlock-IsCounting n l c room = record {
  counted = omega (arith, c.counted);
  held = ground (arith, c.counted, c.held);
}

abbrev Counts : Option (ℕ × JobLock) → Type 0
Counts none = Unit
Counts (some (n, l)) = IsCounting n l

run-Counts :
    (cs : List Call) (n : ℕ) (l : JobLock)
    → IsCounting n l
    → n + length cs < u64
    → Counts (run n l cs)
unfolding run
run-Counts [] n l c room = c
run-Counts (acquires ∷ cs) n l c room =
    run-Counts cs (suc n) (lock l) (lock-IsCounting n l c (omega arith)) (omega arith)
run-Counts (destroys ∷ cs) zero l c room = tt
run-Counts (destroys ∷ cs) (suc n) l c room =
    run-Counts cs n (unlock l) (unlock-IsCounting n l c (omega arith)) (omega arith)

-- Whatever lockers are made and destroyed, the mutex is held as long as one of them exists.
pub locks_lem :
    (cs : List Call) (n : ℕ) (l : JobLock)
    → length cs < u64
    → run 0 new_lock cs ≡ some (n, l)
    → IsCounting n l
locks_lem cs n l room reached = subst Counts reached (
    run-Counts cs 0 new_lock (unfold new_lock in record { counted = refl; held = refl })
      (omega arith))
