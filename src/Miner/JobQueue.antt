-- ===== src/Miner/JobQueue.antt =====
-- src/miner/cpu/verus_job.{hpp,cpp}: the jobs that wait for the CPU, and how a worker takes a number
-- of candidates from them.
pub mod Fifo
pub mod Pop
pub mod Push
pub mod Level
use janusminer.Common.{ℕ, zero, suc, ◌+◌, ◌-◌, ◌*◌, ◌%◌, ◌≡◌, ◌<◌, min}
use janusminer.Common.{Bool, true, false, Option, none, some, List, [], ◌∷◌, ◌++◌, length}
use janusminer.Common.{u64, ltb, leb, ◌==◌, if◌then◌else◌, guard, ◌>>=◌, ◌>>◌}

-- `QueuedJob`: `mined` by a label, its clean index and the number of its candidates.
pub record Job : Type 0 where
  pub label : ℕ
  pub clean_index : ℕ
  pub size : ℕ

pub record CandidateBatch : Type 0 where
  pub shared : Job
  pub offset : ℕ
  pub len : ℕ

-- `mineProportion`: 1, or the quotient of two numbers as `double`.
pub data Proportion : Type 0 where
  one : Proportion
  quotient : ℕ → ℕ → Proportion

pub record WorkerJob : Type 0 where
  pub batches : List CandidateBatch
  pub mine_proportion : Proportion
  pub total : ℕ
  pub clean_index : ℕ

pub record JobQueue : Type 0 where
  pub fresh : Bool
  pub hashrate : Option ℕ
  pub clean_index : ℕ
  pub cursor : ℕ
  pub queue : List Job
  pub watermark : ℕ

unfoldable pub initial : JobQueue
initial = record {
  fresh = true;
  hashrate = none;
  clean_index = 0;
  cursor = 0;
  queue = [];
  watermark = 0;
}

unfoldable pub clear : JobQueue → ℕ → JobQueue
unfolding initial
clear q new_clean_index = record initial { clean_index = new_clean_index }

unfoldable pub push : JobQueue → Job → JobQueue
push q j = if ltb j.clean_index q.clean_index then q else if j.size == 0 then q else record q {
  fresh = false;
  watermark = (q.watermark + j.size) % u64;
  queue = q.queue ++ j ∷ [];
}

unfoldable pub set_hashrate : JobQueue → ℕ → JobQueue
set_hashrate q hr = record q { hashrate = some hr }

unfoldable pub mine_proportion : JobQueue → Proportion
mine_proportion q = elim (q.hashrate) [
  | none ↦ one
  | some b ↦ if ltb (q.watermark * 10 % u64) b then one else quotient b (q.watermark * 10 % u64)
]

-- The state of the loop of `pop`.
pub record Popped : Type 0 where
  pub total : ℕ
  pub res : List CandidateBatch
  pub rest : JobQueue

-- One round on the front job: `none` is a failed `assert`. The flag says whether the loop goes on.
unfoldable pub pop_step : ℕ → Popped → Job → List Job → Option (Bool × Popped)
pop_step n s j js = do
  let q = s.rest
  let m = min (n - s.total) (j.size - q.cursor)
  guard (ltb q.cursor j.size)
  guard (ltb 0 m)
  guard (leb m q.watermark)
  let done = q.cursor + m == j.size
  let s' : Popped = record {
    total = s.total + m;
    res = s.res ++ record { shared = j; offset = q.cursor; len = m } ∷ [];
    rest = record q {
      cursor = if done then 0 else q.cursor + m;
      watermark = q.watermark - m;
      queue = if done then js else j ∷ js;
    };
  }
  guard (leb s'.total n)
  some (ltb s'.total n, s')

-- The loop, on fuel; `none` is a failed `assert`, or no fuel.
unfoldable pub pop_loop : ℕ → ℕ → Popped → Option Popped
unfolding pop_step
pop_loop zero n s = none
pop_loop (suc fuel) n s = elim (s.rest.queue) [
  | [] ↦ some s
  | j ∷ js ↦ elim (pop_step n s j js) [
    | none ↦ none
    | some (more, s') ↦ elim more [ true ↦ pop_loop fuel n s' | false ↦ some s' ]
  ]
]

-- A round takes a job from the queue or is the last.
unfoldable pub pop : JobQueue → ℕ → Option (Option WorkerJob × JobQueue)
pop q n = do
  s ← pop_loop (suc (length q.queue)) n (record { total = 0; res = []; rest = q })
  elim (s.res) [
    | [] ↦ some (none, s.rest)
    | b ∷ bs ↦ do
      guard (ltb 0 s.total)
      some (
        some (record {
          batches = s.res;
          mine_proportion = mine_proportion s.rest;
          total = s.total;
          clean_index = s.rest.clean_index;
        }),
        s.rest,
      )
  ]
