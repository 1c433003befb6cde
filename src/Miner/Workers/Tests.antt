-- ===== src/Miner/Workers/Tests.antt =====
-- Runs of a pool of workers.
use janusminer.Common.{ℕ, ◌≡◌, ◌≤◌, refl, arith, none, some, false, List, [], ◌∷◌, length, take}
use janusminer.Miner.JobQueue.{Job, initial, push}
use janusminer.Miner.Workers.{
  Worker, Timing, Pool, pushes, wakes, new_worker, new_pool, wake_up, push_event, adjust_batch_size,
  step, run,
}
use janusminer.Miner.Workers.Turns.{rounds, woken_worker_drains}

abbrev processed_of : Timing → ℕ
processed_of t = t.processed

abbrev job : Job
job = record { label = 0; clean_index = 0; size = 3 }

-- The pool of two workers after a job is pushed and both are woken.
abbrev woken_worker : Worker
woken_worker = wake_up new_worker

abbrev pushed_pool : Pool
pushed_pool = record {
  workers = woken_worker ∷ woken_worker ∷ [];
  queue = record {
    fresh = false;
    hashrate = none;
    clean_index = 0;
    cursor = 0;
    queue = job ∷ [];
    watermark = 3;
  };
  next = 2;
  events = [];
}

abbrev measures : List (Timing × ℕ)
measures =
    (record { duration = 50; total = 3; processed = 3 }, 0)
    ∷ (record { duration = 50; total = 3; processed = 3 }, 1)
    ∷ (record { duration = 50; total = 3; processed = 3 }, 2)
    ∷ []

woken_worker_drains_example :
    (k : ℕ) × (p' : Pool) × (k ≤ length measures)
    × (run processed_of pushed_pool (rounds 1 (take k measures)) ≡ some p')
    × (p'.queue.watermark ≡ 0)
woken_worker_drains_example =
    woken_worker_drains processed_of 2 (pushes job ∷ wakes ∷ wakes ∷ []) pushed_pool 1 woken_worker
      measures (omega arith)
      (unfold run new_pool initial step push wake_up new_worker push_event in refl) (omega arith)
      refl (unfold wake_up new_worker push_event in refl)
      (unfold wake_up new_worker push_event in refl)
      (unfold wake_up new_worker push_event adjust_batch_size in
        (omega arith, omega arith, (omega arith, omega arith, (omega arith, omega arith, tt))))
      (omega arith)
