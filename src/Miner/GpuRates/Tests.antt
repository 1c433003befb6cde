-- ===== src/Miner/GpuRates/Tests.antt =====
-- Runs of the devices.
use janusminer.Common.{◌≡◌, refl, arith, none, [], ◌∷◌, pos, Returns, false, ◌+ℤ◌, ◌-ℤ◌}
use janusminer.Miner.GpuRates.{
  HashrateWatcher, Hasher, register_hashes, watcher_rate, stop_mining, new_device,
  handle_finished_job, finish_job, prune_loop,
}
use janusminer.Miner.GpuRates.Stop.{finishes, call, run, stop_mining_lem}
use janusminer.Miner.GpuRates.Total.{IsBalanced}
use janusminer.Miner.GpuRates.Watcher.{IsCounting, CountsOn, watcher_lem}

abbrev watcher : HashrateWatcher
watcher = record {
  snapshots = record { time = 1000; hashes = 5 } ∷ record { time = 2000; hashes = 7 } ∷ [];
  total_without_first = 7;
}

watcher_lem_example :
    IsCounting (register_hashes 3000 9 watcher) × Returns CountsOn (watcher_rate 4000 watcher)
watcher_lem_example =
    watcher_lem watcher 3000 9 4000 (record { total = refl; small = omega arith }) (omega arith)
      (omega arith) (omega arith, (omega arith, tt))

-- A device after two jobs of ten million and a thousand hashes, a second apart.
abbrev mining_hasher : Hasher
mining_hasher = record {
  total = pos 2000;
  devices =
      record {
        tries = 1000;
        active = false;
        watcher = record {
          snapshots =
              record { time = 1000000000; hashes = 10000000 }
              ∷ record { time = 1500000000; hashes = 1000 }
              ∷ [];
          total_without_first = 1000;
        };
        prev_hashrate = pos 2000;
      }
      ∷ [];
}

stop_mining_lem_example : IsBalanced mining_hasher × (stop_mining mining_hasher ≡ none)
stop_mining_lem_example =
    stop_mining_lem 1 (finishes 1000000000 0 ∷ finishes 1500000000 0 ∷ []) mining_hasher 1999
      (unfold run call new_device handle_finished_job finish_job prune_loop ◌+ℤ◌ ◌-ℤ◌ in refl)
      (unfold ◌+ℤ◌ in refl)
