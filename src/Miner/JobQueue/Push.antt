-- ===== src/Miner/JobQueue/Push.antt =====
-- Proofs on `JobQueue::push` and on runs of the calls of a queue (src/miner/cpu/verus_job.cpp).
use janusminer.Common.{ℕ, ◌+◌, ◌-◌, ◌≡◌, ◌<◌, ◌≤◌, arith, refl, sym, ap, ◌∙◌}
use janusminer.Common.{Option, some, List, [], ◌∷◌, ◌++◌, All, All-append, append_assoc, append-nil}
use janusminer.Common.{u64, ltb, ◌==◌, if◌then◌else◌, Bool-cases, inl, inr, ==_iff, ◌>>=◌}
use native.Mathlib.Nat.{sub-zero}
use janusminer.Miner.JobQueue.{Job, JobQueue, WorkerJob, pop, push}
use janusminer.Miner.JobQueue.Fifo.{candidates, waiting, pending, total_size, IsValid, InFront}
use janusminer.Miner.JobQueue.{initial}
use janusminer.Miner.JobQueue.Pop.{Popping, handed, pop_lem}

first_InFront : (js : List Job) → All (λ j. 0 < j.size) js → InFront 0 js
first_InFront [] a = refl
first_InFront (j ∷ js) a = a.0

waiting-append :
    (c : ℕ) (js : List Job) (j : Job)
    → All (λ j. 0 < j.size) js
    → InFront c js
    → waiting c (js ++ j ∷ []) ≡ waiting c js ++ candidates j 0 j.size
unfolding waiting
waiting-append c [] j a f = rw (f, sub-zero) (append-nil (candidates j 0 j.size))
waiting-append c (k ∷ js) j a f =
    ap (λ l. candidates k c (k.size - c) ++ l) (waiting-append 0 js j a.1 (first_InFront js a.1))
    ∙ sym (append_assoc (candidates k c (k.size - c)) (waiting 0 js) (candidates j 0 j.size))

-- What `push` adds: nothing of a job from before the last clean one.
abbrev pub accepted : JobQueue → Job → List (Job × ℕ)
accepted q j = if ltb j.clean_index q.clean_index then [] else candidates j 0 j.size

total_size-append : (js : List Job) (j : Job) → total_size (js ++ j ∷ []) ≡ total_size js + j.size
unfolding total_size
total_size-append [] j = omega arith
total_size-append (k ∷ js) j = omega (arith, total_size-append js j)

InFront-append :
    (c : ℕ) (js : List Job) (j : Job) → 0 < j.size → InFront c js → InFront c (js ++ j ∷ [])
InFront-append c [] j p f = omega arith
InFront-append c (k ∷ js) j p f = f

no_candidates :
    (q : JobQueue) (j : Job) → j.size ≡ 0 → pending q ≡ pending q ++ candidates j 0 j.size
unfolding candidates
no_candidates q j z = rw z (sym (append-nil (pending q)))

-- If the watermark does not overflow, push keeps a valid queue valid and puts the candidates of a
-- job that is not outdated behind those that wait.
pub push_lem :
    (q : JobQueue) (j : Job)
    → IsValid q
    → q.watermark + j.size < u64
    → IsValid (push q j) × (pending (push q j) ≡ pending q ++ accepted q j)
unfolding push
push_lem q j v h = elim (Bool-cases (ltb j.clean_index q.clean_index)) [
  | inl old ↦ rw old (v, sym (append-nil (pending q)))
  | inr new ↦ elim (Bool-cases (j.size == 0)) [
    | inl z ↦ rw (new, z) (v, no_candidates q j ((==_iff j.size 0).0 z))
    | inr nz ↦
        rw (new, nz)
          (
            record {
              sizes = All-append (λ j. 0 < j.size) q.queue (j ∷ []) v.sizes (ground arith, tt);
              front = InFront-append q.cursor q.queue j (ground arith) v.front;
              level = omega (arith, v.level, total_size-append q.queue j);
            },
            waiting-append q.cursor q.queue j v.sizes v.front,
          )
  ]
]

-- A caller of the queue: `push` by the coordinator, `pop` by a worker.
pub data Call : Type 0 where
  pushes : Job → Call
  pops : ℕ → Call

-- A run of calls, with the candidates that were taken in and those that were handed out; `none` is a
-- failed `assert`.
pub record Ledger : Type 0 where
  pub taken_in : List (Job × ℕ)
  pub handed_out : List (Job × ℕ)
  pub queue : JobQueue

unfoldable pub step : Ledger → Call → Option Ledger
step l (pushes j) =
    some (record l { taken_in = l.taken_in ++ accepted l.queue j; queue = push l.queue j })
step l (pops n) = do
  (r, q) ← pop l.queue n
  some (record l { handed_out = l.handed_out ++ handed r; queue = q })

unfoldable pub run : Ledger → List Call → Option Ledger
unfolding step
run l [] = some l
run l (c ∷ cs) = do l' ← step l c; run l' cs

-- What is handed out and what waits is what was taken in, in order.
pub record IsBalanced (l : Ledger) : Type 0 where
  pub valid : IsValid l.queue
  pub balance : l.handed_out ++ pending l.queue ≡ l.taken_in

-- Every `pop` asks for a candidate at least.
abbrev pub Asks : List Call → Type 0
Asks [] = Unit
Asks (pushes j ∷ cs) = Asks cs
Asks (pops n ∷ cs) = (0 < n) × Asks cs

-- The candidates of all jobs that are pushed.
abbrev pub volume : List Call → ℕ
volume [] = 0
volume (pushes j ∷ cs) = j.size + volume cs
volume (pops n ∷ cs) = volume cs

push-IsBalanced :
    (l : Ledger) (j : Job)
    → IsBalanced l
    → l.queue.watermark + j.size < u64
    → IsBalanced (record l { taken_in = l.taken_in ++ accepted l.queue j; queue = push l.queue j })
push-IsBalanced l j b h =
    let (v, e) = push_lem l.queue j b.valid h in
    record {
      valid = v;
      balance = rw e (
          sym (append_assoc l.handed_out (pending l.queue) (accepted l.queue j))
          ∙ ap (λ x. x ++ accepted l.queue j) b.balance);
    }

pop-IsBalanced :
    (l : Ledger) (n : ℕ) (r : Option WorkerJob) (q : JobQueue)
    → IsBalanced l
    → Popping l.queue n r q
    → IsBalanced (record l { handed_out = l.handed_out ++ handed r; queue = q })
pop-IsBalanced l n r q b p = record {
  valid = p.valid;
  balance =
      append_assoc l.handed_out (handed r) (pending q)
      ∙ ap (λ x. l.handed_out ++ x) p.order
      ∙ b.balance;
}

push_watermark :
    (q : JobQueue) (j : Job)
    → q.watermark + j.size < u64
    → (push q j).watermark ≤ q.watermark + j.size
unfolding push
push_watermark q j h = ground arith

-- From a balanced ledger, a run of pushes and of pops that ask for a candidate at least fails no
-- assert, if the candidates pushed do not overflow the watermark, and the ledger stays balanced:
-- each candidate taken in has been handed out once and in order, or waits.
pub run-IsBalanced :
    (l : Ledger) (cs : List Call)
    → IsBalanced l
    → Asks cs
    → l.queue.watermark + volume cs < u64
    → (l' : Ledger) × (run l cs ≡ some l') × IsBalanced l'
unfolding run
run-IsBalanced l [] b a h = (l, refl, b)
run-IsBalanced l (pushes j ∷ cs) b a h =
    run-IsBalanced
      (record l { taken_in = l.taken_in ++ accepted l.queue j; queue = push l.queue j }) cs
      (push-IsBalanced l j b (omega arith)) a
      (omega (arith, push_watermark l.queue j (omega arith)))
run-IsBalanced l (pops n ∷ cs) b a h =
    let (r, q, e, p) = pop_lem l.queue n b.valid a.0 in
    let l' : Ledger = record l { handed_out = l.handed_out ++ handed r; queue = q } in
    let (u, e', b') =
      run-IsBalanced l' cs (pop-IsBalanced l n r q b p) a.1 (omega (arith, p.left)) in
    (u, rw e e', b')

-- The ledger at the start.
abbrev pub opening : Ledger
opening = record { taken_in = []; handed_out = []; queue = initial }

pub opening-IsBalanced : IsBalanced opening
unfolding initial waiting total_size
opening-IsBalanced = record {
  valid = record { sizes = tt; front = refl; level = refl };
  balance = refl;
}
