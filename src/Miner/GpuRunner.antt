-- ===== src/Miner/GpuRunner.antt =====
-- src/miner/gpu/opencl_hasher.{hpp,cpp}: the threshold of a kernel (`KernelRunner`) and the lock that
-- a device holds while it has a job (`JobLock`). `cyclicQueue` and OpenCL are not part of it.
pub mod Threshold
pub mod Locks
use janusminer.Common.{ℕ, zero, suc, ◌+◌, ◌-◌, ◌*◌, ◌/◌, ◌%◌, ◌≡◌, ◌<◌}
use janusminer.Common.{Bool, true, false, not, Option, none, some, List, [], ◌∷◌}
use janusminer.Common.{u32, u64, ◌==◌, if◌then◌else◌, guard, ◌>>=◌, ◌>>◌}

-- The constant of `threshold`.
abbrev pub lowest : ℕ
lowest = 0x00FFFFFF

-- `KernelRunner::threshold`, of `M` and `N`. `none` is a division by 0.
unfoldable pub threshold : ℕ → ℕ → Option ℕ
threshold results tries = do
  guard (not (tries == 0))
  some ((lowest + results * (0xFFFFFFFF - lowest) % u64 / tries) % u32)

-- `JobLock`: the number of lockers that exist, and whether `ol` holds `m`.
pub record JobLock : Type 0 where
  pub locks : ℕ
  pub held : Bool

unfoldable pub new_lock : JobLock
new_lock = record { locks = 0; held = false }

unfoldable pub lock : JobLock → JobLock
lock l = let n = (l.locks + 1) % u64 in record { locks = n; held = if n == 1 then true else l.held }

unfoldable pub unlock : JobLock → JobLock
unlock l =
    let n = (l.locks + (u64 - 1)) % u64 in
    record { locks = n; held = if n == 0 then false else l.held }

-- A `Locker` is made by `acquire`, and destroyed once.
pub data Call : Type 0 where
  acquires : Call
  destroys : Call

-- A run of calls with the number of lockers; `none` where there is none to destroy.
unfoldable pub run : ℕ → JobLock → List Call → Option (ℕ × JobLock)
unfolding lock unlock
run lockers l [] = some (lockers, l)
run lockers l (acquires ∷ cs) = run (suc lockers) (lock l) cs
run zero l (destroys ∷ cs) = none
run (suc lockers) l (destroys ∷ cs) = run lockers (unlock l) cs
