-- ===== src/Miner/JobQueue/Level.antt =====
-- The number of candidates that wait in a `JobQueue` (src/miner/cpu/verus_job.cpp).
use janusminer.Common.{
  ℕ, ◌+◌, ◌-◌, ◌≡◌, ◌≤◌, ◌<◌, min, refl, arith, Bool-cases, ltb, dec_lt, inl, inr,
}
use janusminer.Common.{false, Option, none, some, List, [], ◌∷◌}
use janusminer.Miner.JobQueue.{Job, JobQueue, WorkerJob, pop, pop_loop, pop_step, push}
use janusminer.Miner.JobQueue.Fifo.{IsValid}
use janusminer.Miner.JobQueue.Pop.{pop_lem, Popping, pop_idle, empty_watermark}

abbrev pub PopPost : JobQueue → Option (Option WorkerJob × JobQueue) → Type 0
PopPost q none = Unit
PopPost q (some (r, q')) = IsValid q' × (q'.watermark ≤ q.watermark) × (r ≡ none → q'.watermark ≡ 0)

-- A pop for no candidate fails an `assert`, unless no job waits.
pop_no_candidate : (q : JobQueue) (j : Job) (js : List Job) → q.queue ≡ j ∷ js → pop q 0 ≡ none
unfolding pop pop_loop pop_step
pop_no_candidate q j js e = elim (Bool-cases (ltb q.cursor j.size)) [
  | inl c ↦ rw e (rw c (rw (nothing (j.size - q.cursor)) refl))
  | inr c ↦ rw e (rw c refl)
]
  where
    nothing : (k : ℕ) → ltb 0 (min (0 - 0) k) ≡ false
    nothing k = ground arith

pub pop-PopPost : (q : JobQueue) (n : ℕ) → IsValid q → PopPost q (pop q n)
pop-PopPost q n v = elim (dec_lt 0 n) [
  | yes some_asked ↦
      let (r, q', eq, popping) = pop_lem q n v some_asked in
      rw eq (popping.valid, omega (arith, popping.left), drained r q' some_asked popping)
  | no none_asked ↦ none_waiting (omega arith) q.queue refl
]
  where
    drained :
        (r : Option WorkerJob) (q' : JobQueue)
        → 0 < n
        → Popping q n r q'
        → r ≡ none
        → q'.watermark ≡ 0
    drained none q' asked popping e = omega (arith, popping.left, popping.size)
    drained (some w) q' asked popping e = absurd cc

    none_waiting : n ≡ 0 → (js : List Job) → q.queue ≡ js → PopPost q (pop q n)
    none_waiting z [] e = rw (pop_idle q n e) (v, omega arith, λ _. empty_watermark q v e)
    none_waiting z (j ∷ js) e = rw (z, pop_no_candidate q j js e) tt

pub push-watermark : (q : JobQueue) (j : Job) → (push q j).watermark ≤ q.watermark + j.size
unfolding push
push-watermark q j = ground arith
