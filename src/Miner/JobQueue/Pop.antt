-- ===== src/Miner/JobQueue/Pop.antt =====
-- Proofs on `JobQueue::pop` (src/miner/cpu/verus_job.cpp).
use janusminer.Common.{ℕ, zero, suc, ◌+◌, ◌-◌, ◌≡◌, ◌<◌, ◌≤◌, min, arith, refl, sym, ap, ◌∙◌}
use janusminer.Common.{◌⊎◌, true, Option, none, some, List, [], ◌∷◌, ◌++◌, length, All}
use janusminer.Common.{ltb, Bool-cases, inl, inr, dec_lt, length-append}
use janusminer.Miner.JobQueue.{
  Job, CandidateBatch, JobQueue, Popped, WorkerJob, pop_loop, pop, mine_proportion,
}
use janusminer.Miner.JobQueue.Fifo.{
  candidates, waiting, pending, given, total_size, IsValid, InFront, Drained,
}
use janusminer.Miner.JobQueue.Fifo.{whole_job, part_of_job, length-candidates}

Drained-refl : (s : Popped) → IsValid s.rest → Drained s s
Drained-refl s v = record {
  valid = v;
  order = refl;
  moved = refl;
  same_index = refl;
  same_rate = refl;
  grows = omega arith;
}

Drained-trans : {s t u : Popped} → Drained s t → Drained t u → Drained s u
Drained-trans d e = record {
  valid = e.valid;
  order = e.order ∙ d.order;
  moved = e.moved ∙ d.moved;
  same_index = e.same_index ∙ d.same_index;
  same_rate = e.same_rate ∙ d.same_rate;
  grows = omega (arith, d.grows, e.grows);
}

-- With more fuel than jobs the loop ends with all that was asked for, or with an empty queue.
pop_loop_lem :
    (fuel n : ℕ) (s : Popped) (js : List Job)
    → s.rest.queue ≡ js
    → length js < fuel
    → s.total < n
    → IsValid s.rest
    → (s' : Popped) × (pop_loop fuel n s ≡ some s')
      × Drained s s'
      × (s'.total ≤ n)
      × ((s'.total ≡ n) ⊎ (s'.rest.queue ≡ []))
unfolding pop_loop
pop_loop_lem zero n s js e f h v = absurd (omega arith)
pop_loop_lem (suc fuel) n s [] e f h v =
    (s, simp (pop_loop, e), Drained-refl s v, omega arith, inr e)
pop_loop_lem (suc fuel) n s (j ∷ js) e f h v =
    elim (dec_lt (n - s.total) (j.size - s.rest.cursor)) [
      | yes less ↦
          let (s', eq, d, full) = part_of_job n s j js e v h less in
          (s', simp (pop_loop, e, eq), d, omega arith, inl full)
      | no fits ↦
          let (s', eq, d, le, rest) = whole_job n s j js e v h (omega arith) in
          elim (Bool-cases (ltb s'.total n)) [
            | inr c ↦ (s', simp (pop_loop, e, eq, c), d, le, inl (ground arith))
            | inl c ↦
                let (u, eq', d', le', end) =
                  pop_loop_lem fuel n s' js rest (omega arith) (ground arith) d.valid in
                (u, simp (pop_loop, e, eq, c) eq', Drained-trans d d', le', end)
          ]
    ]

length-waiting :
    (c : ℕ) (js : List Job)
    → All (λ j. 0 < j.size) js
    → InFront c js
    → length (waiting c js) + c ≡ total_size js
unfolding waiting total_size
length-waiting c [] a f = omega arith
length-waiting c (j ∷ []) a f = omega (
  arith,
  length-append (candidates j c (j.size - c)) (waiting 0 []),
  length-candidates j c (j.size - c),
)
length-waiting c (j ∷ k ∷ js) a f = omega (
  arith,
  length-append (candidates j c (j.size - c)) (waiting 0 (k ∷ js)),
  length-candidates j c (j.size - c),
  length-waiting 0 (k ∷ js) a.1 a.1.0,
)

-- The watermark counts the candidates that wait.
pub length-pending : (q : JobQueue) → IsValid q → length (pending q) ≡ q.watermark
length-pending q v = omega (arith, length-waiting q.cursor q.queue v.sizes v.front, v.level)

-- What a call hands out, and how much it says that is.
abbrev pub handed : Option WorkerJob → List (Job × ℕ)
handed none = []
handed (some w) = given w.batches

abbrev pub counted : Option WorkerJob → ℕ
counted none = 0
counted (some w) = w.total

-- What a call of `pop` for `n` candidates has done.
pub record Popping (q : JobQueue) (n : ℕ) (r : Option WorkerJob) (q' : JobQueue) : Type 0 where
  pub valid : IsValid q'
  pub order : handed r ++ pending q' ≡ pending q
  pub size : length (handed r) ≡ min n q.watermark
  pub total : counted r ≡ min n q.watermark
  pub left : q'.watermark + min n q.watermark ≡ q.watermark

pub empty_watermark : (q : JobQueue) → IsValid q → q.queue ≡ [] → q.watermark ≡ 0
unfolding total_size
empty_watermark q v e = let l : q.watermark + q.cursor ≡ 0 = rw e at (v.level) in omega arith

Popping-Drained :
    (q : JobQueue) (n : ℕ) (s : Popped) (r : Option WorkerJob)
    → IsValid q
    → Drained (record { total = 0; res = []; rest = q }) s
    → s.total ≤ n
    → (s.total ≡ n) ⊎ (s.rest.queue ≡ [])
    → handed r ≡ given s.res
    → (counted r ≡ s.total) ⊎ (counted r ≡ length (handed r))
    → Popping q n r s.rest
unfolding given
Popping-Drained q n s r v d le end h c =
    let order : handed r ++ pending s.rest ≡ pending q = rw h (d.order) in
    let lengths : length (handed r) + length (pending s.rest) ≡ length (pending q) =
      sym (length-append (handed r) (pending s.rest)) ∙ ap length order in
    let taken : s.total ≡ min n q.watermark = elim end [
      | inl full ↦ omega (arith, d.moved)
      | inr out ↦ omega (arith, d.moved, empty_watermark s.rest d.valid out)
    ] in
    let size : length (handed r) ≡ min n q.watermark =
      omega (arith, taken, d.moved, lengths, length-pending q v, length-pending s.rest d.valid) in
    record {
      valid = d.valid;
      order = order;
      size = size;
      total = omega (arith, taken, size, c);
      left = omega (arith, taken, d.moved);
    }

-- A queue with nothing left in it has no job.
idle_queue : (q : JobQueue) → IsValid q → q.watermark ≡ 0 → q.queue ≡ []
unfolding total_size
idle_queue q v z = go q.queue v.front v.level
  where
    go : (js : List Job) → InFront q.cursor js → q.watermark + q.cursor ≡ total_size js → js ≡ []
    go [] f l = refl
    go (j ∷ js) f l = absurd (omega arith)

pub pop_idle : (q : JobQueue) (n : ℕ) → q.queue ≡ [] → pop q n ≡ some (none, q)
unfolding pop pop_loop
pop_idle q n e = simp (e)

-- On a valid queue pop of a candidate at least fails no assert; it hands out the first n
-- candidates that wait, or all if there are fewer, in order, and the rest stay with the watermark
-- counting them.
pub pop_lem :
    (q : JobQueue) (n : ℕ)
    → IsValid q
    → 0 < n
    → (r : Option WorkerJob) × (q' : JobQueue) × (pop q n ≡ some (r, q')) × Popping q n r q'
pop_lem q n v p = elim (dec_lt 0 q.watermark) [
  | no idle ↦
      let e = idle_queue q v (omega arith) in
      let start : Popped = record { total = 0; res = []; rest = q } in
      (
        none,
        q,
        pop_idle q n e,
        Popping-Drained q n start none v (Drained-refl start v) (omega arith) (inr e)
            (unfold given in refl) (inl refl),
      )
  | yes some_left ↦
      let (s, eq, d, le, end) =
        pop_loop_lem (suc (length q.queue)) n (record { total = 0; res = []; rest = q }) q.queue
          refl (omega arith) p v in
      go some_left s eq d le end s.res refl
]
  where
    go :
        0 < q.watermark
        → (s : Popped)
        → pop_loop (suc (length q.queue)) n (record { total = 0; res = []; rest = q }) ≡ some s
        → Drained (record { total = 0; res = []; rest = q }) s
        → s.total ≤ n
        → (s.total ≡ n) ⊎ (s.rest.queue ≡ [])
        → (l : List CandidateBatch) → s.res ≡ l
        → (r : Option WorkerJob) × (q' : JobQueue) × (pop q n ≡ some (r, q')) × Popping q n r q'
    go l s eq d le end [] e = (
      none,
      s.rest,
      unfold pop in simp (eq, e),
      Popping-Drained q n s none v d le end (rw e (unfold given in refl)) (inr refl),
    )
    go l s eq d le end (b ∷ bs) e =
        let w : WorkerJob = record {
          batches = s.res;
          mine_proportion = mine_proportion s.rest;
          total = s.total;
          clean_index = s.rest.clean_index;
        } in
        let c : ltb 0 s.total ≡ true =
          ground (arith, d.moved, end, empty_watermark s.rest d.valid) in
        (
          some w,
          s.rest,
          unfold pop in simp (eq, e, c),
          Popping-Drained q n s (some w) v d le end refl (inl refl),
        )
