-- ===== src/Miner/GpuRates.antt =====
-- src/miner/gpu/opencl_hasher.{hpp,cpp} and `HashrateWatcher` of src/miner/hashrate.hpp: the hash
-- rates of the devices and their total. A time is a number of nanoseconds of the steady clock;
-- the calls of the clock within one operation give one time.
pub mod Watcher
pub mod Total
pub mod Stop
mod Tests
use janusminer.Common.{ℕ, zero, suc, ◌+◌, ◌-◌, ◌*◌, ◌/◌, ◌%◌, ◌≡◌, ◌<◌}
use janusminer.Common.{
  Bool, true, false, not, Option, none, some, List, [], ◌∷◌, ◌++◌, length, get_elem?, set,
}
use janusminer.Common.{u64, ltb, leb, ◌==◌, if◌then◌else◌, guard, ◌>>=◌, ◌>>◌}
use janusminer.Common.{ℤ, pos, negsuc, ◌+ℤ◌, ◌-ℤ◌}

-- `HashrateWatcher::Snapshot`.
pub record Snapshot : Type 0 where
  pub time : ℕ
  pub hashes : ℕ

pub record HashrateWatcher : Type 0 where
  pub snapshots : List Snapshot
  pub total_without_first : ℕ

unfoldable pub empty : HashrateWatcher
empty = record { snapshots = []; total_without_first = 0 }

-- The loop of `prune`, over the snapshots: `before` is `discardBefore`.
unfoldable pub prune_loop : ℕ → List Snapshot → ℕ → HashrateWatcher
prune_loop before [] total = record { snapshots = []; total_without_first = total }
prune_loop before (s ∷ []) total =
    if ltb s.time before
    then record { snapshots = []; total_without_first = total }
    else record { snapshots = s ∷ []; total_without_first = total }
prune_loop before (s ∷ s' ∷ ss) total =
    let rest = prune_loop before (s' ∷ ss) ((total + (u64 - s'.hashes)) % u64) in
    if ltb s.time before
    then rest
    else record { snapshots = s ∷ s' ∷ ss; total_without_first = total }

unfoldable pub prune : ℕ → HashrateWatcher → HashrateWatcher
prune now w = prune_loop (now - 2000000000) w.snapshots w.total_without_first

-- `Hashrate(N, d)`: `N * 1s / d`. `none` is a division by 0.
unfoldable pub rate : ℕ → ℕ → Option ℕ
rate n d = do guard (not (d == 0)); some (n * 1000000000 % u64 / d)

-- `HashrateWatcher::hashrate`. `none` is its failed `assert`, or a division by 0.
unfoldable pub watcher_rate : ℕ → HashrateWatcher → Option (ℕ × HashrateWatcher)
unfolding prune rate
watcher_rate now w =
    let w' = prune now w in
    elim (w'.snapshots) [
      | s ∷ s' ∷ ss ↦ do r ← rate w'.total_without_first (now - s.time); some (r, w')
      | _ ↦ do guard (w'.total_without_first == 0); some (0, w')
    ]

unfoldable pub register_hashes : ℕ → ℕ → HashrateWatcher → HashrateWatcher
register_hashes now n w = record w {
  snapshots = w.snapshots ++ record { time = now; hashes = n } ∷ [];
  total_without_first = elim (w.snapshots) [
    | [] ↦ w.total_without_first
    | s ∷ ss ↦ (w.total_without_first + n) % u64
  ];
}

-- What a `Sha256tGPUHasher` keeps of its rate: `N`, `active`, `hashrateWatcher`, `prevHashrate`.
-- Rates are below 2 ^ 63.
pub record Device : Type 0 where
  pub tries : ℕ
  pub active : Bool
  pub watcher : HashrateWatcher
  pub prev_hashrate : ℤ

unfoldable pub new_device : Device
unfolding empty
new_device = record { tries = 10000000; active = false; watcher = empty; prev_hashrate = pos 0 }

-- `hashrate()`: the rate, and how much it has changed.
unfoldable pub device_rate : ℕ → Device → Option (ℕ × ℤ × Device)
unfolding watcher_rate
device_rate now d = do
  (r, w) ← watcher_rate now d.watcher
  some (r, pos r -ℤ d.prev_hashrate, record d { watcher = w; prev_hashrate = pos r })

-- `handle_finished_job`, up to the call of the parent: the change of the rate.
unfoldable pub finish_job : ℕ → Device → Option (ℤ × Device)
unfolding device_rate register_hashes
finish_job now d = do
  (r, delta, d') ← device_rate now (record d { watcher = register_hashes now d.tries d.watcher })
  some (delta, record d' { tries = if ltb (r / 20) 1000 then 1000 else r / 20 })

unfoldable pub stop_device : Device → ℤ × Device
unfolding empty
stop_device d =
    (d.prev_hashrate, record d { watcher = empty; active = false; prev_hashrate = pos 0 })

unfoldable pub set_zero : Device → ℤ × Device
set_zero d = (pos 0 -ℤ d.prev_hashrate, record d { prev_hashrate = pos 0 })

-- `totalHashrate` and `hashers` of a `Sha256tOpenclHasher`.
pub record Hasher : Type 0 where
  pub total : ℤ
  pub devices : List Device

-- Device `i` has finished a job.
unfoldable pub handle_finished_job : ℕ → ℕ → Hasher → Option Hasher
handle_finished_job now i h = do
  d ← get_elem? h.devices i
  (delta, d') ← finish_job now d
  some (record h { total = h.total +ℤ delta; devices = set h.devices i d' })

-- The loop of `hashrates`, each device with the time of its call.
unfoldable pub hashrates_loop : (ℕ → ℕ) → ℤ → List Device → Option (List ℕ × ℤ × List Device)
hashrates_loop clock total [] = some ([], total, [])
hashrates_loop clock total (d ∷ ds) = do
  (r, delta, d') ← device_rate (clock (length ds)) d
  (rs, total', ds') ← hashrates_loop clock (total +ℤ delta) ds
  some (r ∷ rs, total', d' ∷ ds')

unfoldable pub hashrates : (ℕ → ℕ) → Hasher → Option (ℤ × List ℕ × Hasher)
hashrates clock h = do
  (rs, total, ds) ← hashrates_loop clock h.total h.devices
  some (total, rs, record { total = total; devices = ds })

-- The loop of `stop_mining`.
unfoldable pub stop_loop : ℤ → List Device → ℤ × List Device
stop_loop total [] = (total, [])
stop_loop total (d ∷ ds) =
    let (delta, d') = stop_device d in
    let (total', ds') = stop_loop (total +ℤ delta) ds in (total', d' ∷ ds')

-- The `assert` behind the loop.
unfoldable pub check_zero : ℤ → List Device → Option Hasher
check_zero (pos zero) ds = some (record { total = pos 0; devices = ds })
check_zero (pos (suc n)) ds = none
check_zero (negsuc n) ds = none

unfoldable pub stop_mining : Hasher → Option Hasher
unfolding stop_loop check_zero
stop_mining h = let (total, ds) = stop_loop h.total h.devices in check_zero total ds
