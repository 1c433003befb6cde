-- ===== src/Miner/Workers.antt =====
-- src/miner/cpu/verus_worker.{hpp,cpp} and src/miner/verus_pool.{hpp,cpp}: the threads that take jobs
-- from the queue, and the pool that fills it and wakes them. What a thread does under a lock, or to
-- variables of its own, is one step; the result of `miner.mine` with its duration comes with the step.
pub mod Alert
pub mod Steps
pub mod Runs
pub mod Drain
pub mod Turns
mod Tests
use janusminer.Common.{ℕ, zero, suc, ◌+◌, ◌-◌, ◌*◌, ◌%◌, ◌≡◌, ◌<◌}
use janusminer.Common.{Bool, true, false, not, ◌&&◌, ◌||◌, Option, none, some, List, [], ◌∷◌, ◌++◌}
use janusminer.Common.{u64, ltb, leb, ◌==◌, if◌then◌else◌, guard, ◌>>=◌, ◌>>◌}
use janusminer.Common.{length, get_elem?, set, replicate}
use janusminer.Miner.JobQueue.{Job, JobQueue, WorkerJob, initial, pop, push}

-- `PauseMining`, `ContinueMining`.
pub data Event : Type 0 where
  pause_event : Event
  continue_event : Event

-- Where a thread is in `work`: at the condition variable, with `tmpEvents` to handle, before
-- `try_mining`, or behind the loop.
pub data Phase : Type 0 where
  waiting : Phase
  handling : List Event → Phase
  mining : Phase
  returned : Phase

-- `HashrateState`, times by the clock.
pub record HashrateState : Type 0 where
  pub hashes : ℕ
  pub begin_time : ℕ
  pub end_time : ℕ

pub record Worker : Type 0 where
  pub phase : Phase
  pub events : List Event
  pub continue_mining : Bool
  pub shutdown : Bool
  pub batch_size : ℕ
  pub hashrate_state : Option HashrateState

unfoldable pub new_worker : Worker
new_worker = record {
  phase = waiting;
  events = [];
  continue_mining = false;
  shutdown = false;
  batch_size = 1000;
  hashrate_state = none;
}

unfoldable pub has_work : Worker → Bool
has_work w = w.shutdown || ltb 0 (length w.events)

unfoldable pub push_event : Worker → Event → Worker
push_event w e = record w { events = w.events ++ e ∷ [] }

unfoldable pub wake_up : Worker → Worker
wake_up w = push_event w continue_event

-- The destructor, up to the end of the thread.
unfoldable pub shut_down : Worker → Worker
shut_down w = record w { shutdown = true }

-- `cv.wait` and the rest of its block; `none` as long as the thread has to wait.
unfoldable pub leave_wait : Worker → Option Worker
leave_wait w =
    if w.continue_mining || has_work w
    then some (record w { events = []; phase = if w.shutdown then returned else handling w.events })
    else none

unfoldable pub handle_event : Worker → Event → Worker
handle_event w pause_event = record w { continue_mining = false }
handle_event w continue_event = record w { continue_mining = true }

unfoldable pub handle_events : Worker → List Event → Worker
handle_events w [] = record w { phase = if w.continue_mining then mining else waiting }
handle_events w (e ∷ es) = handle_events (handle_event w e) es

-- `VerusTiming`, with what `mine` returns; durations in milliseconds.
pub record Timing : Type 0 where
  pub duration : ℕ
  pub total : ℕ
  pub processed : ℕ

pub data PoolEvent : Type 0 where
  trace_verus : Timing → ℕ → PoolEvent
  no_verus_input : PoolEvent

-- `scaled t` is `t.processed * (100.0ms / t.duration)` as `size_t`.
module _ (scaled : Timing → ℕ) where
  unfoldable pub adjust_batch_size : ℕ → Timing → ℕ
  adjust_batch_size batch_size t =
      if ltb t.processed 100 && ltb t.duration 10 then batch_size * 100 % u64 else scaled t

unfoldable pub count_hashes : Option HashrateState → ℕ → ℕ → HashrateState
count_hashes none now n = record { hashes = n; begin_time = now; end_time = now }
count_hashes (some h) now n = record h { hashes = (h.hashes + n) % u64; end_time = now }

-- `Worker::hashrate`: the hashes and the time of a new rate, or a rate of 0.
unfoldable pub hashrate : Worker → Option (ℕ × ℕ) × Worker
hashrate w = elim (w.hashrate_state) [
  | none ↦ (none, w)
  | some h ↦
      if h.end_time - h.begin_time == 0
      then (none, w)
      else (some (h.hashes, h.end_time - h.begin_time), record w { hashrate_state = none })
]

-- `VerusPool::pop_job`: the job, the queue and the events of the pool. `none` is a failed `assert`.
unfoldable pub pop_job :
    JobQueue → List PoolEvent → ℕ → Option (Option WorkerJob × JobQueue × List PoolEvent)
pop_job q events n = do
  (job, q') ← pop q n
  elim job [
    | some j ↦ some (some j, q', events)
    | none ↦ some (none, q', if q'.fresh then events else events ++ no_verus_input ∷ [])
  ]

-- The pool with its workers. `next` is the first worker that `push_job` has still to wake.
pub record Pool : Type 0 where
  pub workers : List Worker
  pub queue : JobQueue
  pub next : ℕ
  pub events : List PoolEvent

-- The constructor of the pool.
unfoldable pub new_pool : ℕ → Pool
unfolding initial new_worker
new_pool n = record { workers = replicate n new_worker; queue = initial; next = n; events = [] }

pub data Action : Type 0 where
  pushes : Job → Action
  wakes : Action
  leaves_wait : ℕ → Action
  handles : ℕ → Action
  mines : ℕ → Timing → ℕ → Action
  shuts_down : ℕ → Action

unfoldable pub finish_try : Worker → Bool → Worker
finish_try w goes_on = record w { continue_mining = goes_on; phase = waiting }

-- Worker `i` does one thing.
abbrev pub change : Pool → ℕ → Worker → Pool
change p i w = record p { workers = set p.workers i w }

module _ (scaled : Timing → ℕ) where
  -- `try_mining`, with what `mine` measured and the time. `none` is a failed `assert`.
  unfoldable pub try_mining : Pool → ℕ → Worker → Timing → ℕ → Option Pool
  try_mining p i w t now = do
    (job, q, events) ← pop_job p.queue p.events w.batch_size
    elim job [
      | none ↦
          some (record p {
            workers = set p.workers i (finish_try w false);
            queue = q;
            events = events;
          })
      | some j ↦ do
        guard (not (t.total == 0))
        let w' = record w {
          hashrate_state = some (count_hashes w.hashrate_state now t.processed);
          batch_size = adjust_batch_size scaled w.batch_size t;
        }
        some (record p {
          workers = set p.workers i (finish_try w' true);
          queue = q;
          events = events ++ trace_verus t i ∷ [];
        })
    ]

  -- A step of a thread; `none` where it cannot be taken, or fails an `assert`.
  unfoldable pub step : Pool → Action → Option Pool
  step p (pushes j) = do
    guard (leb (length p.workers) p.next)
    some (record p { queue = push p.queue j; next = 0 })
  step p wakes = do
    w ← get_elem? p.workers p.next
    some (record p { workers = set p.workers p.next (wake_up w); next = suc p.next })
  step p (leaves_wait i) = do
    w ← get_elem? p.workers i
    elim w.phase [ waiting ↦ do w' ← leave_wait w; some (change p i w') | _ ↦ none ]
  step p (handles i) = do
    w ← get_elem? p.workers i
    elim w.phase [ handling es ↦ some (change p i (handle_events w es)) | _ ↦ none ]
  step p (mines i t now) = do
    w ← get_elem? p.workers i
    elim w.phase [ mining ↦ try_mining p i w t now | _ ↦ none ]
  step p (shuts_down i) = do w ← get_elem? p.workers i; some (change p i (shut_down w))

  unfoldable pub run : Pool → List Action → Option Pool
  run p [] = some p
  run p (a ∷ later) = do p' ← step p a; run p' later
