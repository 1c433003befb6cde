-- ===== src/Miner/Workers/Drain.antt =====
-- src/miner/cpu/verus_worker.cpp: the rounds of the loop of `work`, taken by one worker.
use janusminer.Common.{ℕ, zero, suc, ◌≡◌, ◌<◌, refl, arith, ltb, ◌==◌}
use janusminer.Common.{
  true, false, ◌||◌, Option, none, some, List, [], ◌∷◌, ◌++◌, length, get_elem?, set,
}
use mathlib.Core.Path.{subst}
use janusminer.Miner.JobQueue.{JobQueue, WorkerJob, pop}
use janusminer.Miner.JobQueue.Pop.{pop_lem, Popping}
use janusminer.Miner.Workers.{
  Event, waiting, handling, mining, Worker, Timing, Pool, leaves_wait, handles, mines, has_work,
  leave_wait, finish_try, count_hashes, adjust_batch_size, pop_job, try_mining, step, change,
  trace_verus,
}
use janusminer.Miner.Workers.Alert.{Sound, SoundPhase, Waking, settled, handle_events-settled}
use janusminer.Miner.Workers.Steps.{IsReady}

pub get-set {ℓ} :
    {A : Type ℓ} (xs : List A) (i : ℕ) (x v : A)
    → get_elem? xs i ≡ some x
    → get_elem? (set xs i v) i ≡ some v
get-set [] i x v h = absurd cc
get-set (y ∷ ys) zero x v h = refl
get-set (y ∷ ys) (suc i) x v h = get-set ys i x v h

-- Worker `i` is at the condition variable, and has something to go on with.
pub record CanGoOn (p : Pool) (i : ℕ) (w : Worker) : Type 0 where
  pub here : get_elem? p.workers i ≡ some w
  pub at_wait : w.phase ≡ waiting
  pub running : w.shutdown ≡ false
  pub goes_on : (w.continue_mining || ltb 0 (length w.events)) ≡ true

abbrev pub left_wait : Worker → Worker
left_wait w = record w { events = []; phase = handling w.events }

module _ (scaled : Timing → ℕ) (p : Pool) (i : ℕ) (w : Worker) (can : CanGoOn p i w) where
  pub leaves_wait_lem : step scaled p (leaves_wait i) ≡ some (change p i (left_wait w))
  unfolding step leave_wait has_work
  leaves_wait_lem = rw (can.here, can.at_wait, can.running, can.goes_on) refl

-- The next steps of a worker that handles events, and mines then.
module _ (scaled : Timing → ℕ) (p : Pool) (i : ℕ) (w : Worker) (es : List Event)
    (here : get_elem? p.workers i ≡ some w) (at_events : w.phase ≡ handling es) (sound : Sound w)
    (goes_on : (w.continue_mining || ltb 0 (length es)) ≡ true) where
  pub handles_lem : step scaled p (handles i) ≡ some (change p i (settled w true))
  unfolding step
  handles_lem = rw (here, at_events, handle_events-settled es w waking, goes_on) refl
    where
      waking : Waking es
      waking = subst (λ ph. SoundPhase ph w.continue_mining) at_events sound.1

abbrev pub mined_worker : (Timing → ℕ) → Worker → Timing → ℕ → Worker
mined_worker scaled w t now = record w {
  phase = waiting;
  continue_mining = true;
  hashrate_state = some (count_hashes w.hashrate_state now t.processed);
  batch_size = adjust_batch_size scaled w.batch_size t;
}

-- `try_mining` while candidates wait.
module _ (scaled : Timing → ℕ) (v : ℕ) (p : Pool) (i : ℕ) (w : Worker)
    (here : get_elem? p.workers i ≡ some w) (at_mining : w.phase ≡ mining) (ready : IsReady v p)
    (asks : 0 < w.batch_size) (some_wait : 0 < p.queue.watermark) (t : Timing) (now : ℕ)
    (tried : 0 < t.total) where
  pub mines_lem :
      (p' : Pool) × (step scaled p (mines i t now) ≡ some p')
      × (p'.queue.watermark < p.queue.watermark)
      × (p'.workers ≡ set p.workers i (mined_worker scaled w t now))
  unfolding step try_mining pop_job finish_try
  mines_lem =
      let (r, q, eq, popping) = pop_lem p.queue w.batch_size ready.valid asks in
      popped r q eq popping
    where
      counted_total : (t.total == 0) ≡ false
      counted_total = ground arith

      popped :
          (r : Option WorkerJob) (q : JobQueue)
          → pop p.queue w.batch_size ≡ some (r, q)
          → Popping p.queue w.batch_size r q
          → (p' : Pool) × (step scaled p (mines i t now) ≡ some p')
            × (p'.queue.watermark < p.queue.watermark)
            × (p'.workers ≡ set p.workers i (mined_worker scaled w t now))
      popped none q eq popping = absurd (omega (arith, popping.size))
      popped (some j) q eq popping = (
        record p {
          workers = set p.workers i (mined_worker scaled w t now);
          queue = q;
          events = p.events ++ trace_verus t i ∷ [];
        },
        rw (here, at_mining, eq, counted_total) refl,
        omega (arith, popping.left),
        refl,
      )
