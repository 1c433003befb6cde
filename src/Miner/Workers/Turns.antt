-- ===== src/Miner/Workers/Turns.antt =====
-- src/miner/cpu/verus_worker.cpp: the loop of `work`, round after round.
use janusminer.Common.{
  ℕ, suc, ◌≡◌, ◌≤◌, ◌<◌, refl, ◌∙◌, arith, ltb, dec_lt, Bool, true, false, ◌||◌, some, List, [],
  ◌∷◌, length, get_elem?, take, take-all, All, All-replicate, u64, inl, inr,
}
use mathlib.Core.Path.{subst, sym}
use janusminer.Miner.Workers.{
  waiting, Worker, Timing, Pool, Action, leaves_wait, handles, mines, adjust_batch_size, new_worker,
  new_pool, run, change,
}
use janusminer.Miner.Workers.Alert.{Sound, Awake, is_alert, All-get, settled}
use janusminer.Miner.JobQueue.{initial}
use janusminer.Miner.JobQueue.Fifo.{total_size}
use janusminer.Miner.Workers.Runs.{volume, run-IsReady}
use janusminer.Miner.Workers.Steps.{IsReady, AfterStep, left, handled, mined}
use janusminer.Miner.Workers.Drain.{
  CanGoOn, get-set, left_wait, leaves_wait_lem, handles_lem, mined_worker, mines_lem,
}

-- The rounds of worker `i`, with what each measures and the time.
abbrev pub rounds : ℕ → List (Timing × ℕ) → List Action
rounds i [] = []
rounds i ((t, now) ∷ os) = leaves_wait i ∷ handles i ∷ mines i t now ∷ rounds i os

-- What a round leads to.
abbrev Round : (Timing → ℕ) → Pool → ℕ → Worker → Timing → ℕ → Type 0
Round scaled p i w t now =
    (p' : Pool) × (w' : Worker) × ((os : List (Timing × ℕ))
      → run scaled p (rounds i ((t, now) ∷ os)) ≡ run scaled p' (rounds i os))
    × (p'.queue.watermark < p.queue.watermark)
    × IsReady 0 p'
    × CanGoOn p' i w'
    × (w'.batch_size ≡ adjust_batch_size scaled w.batch_size t)

round_lem :
    (scaled : Timing → ℕ) (p : Pool) (i : ℕ) (w : Worker) (t : Timing) (now : ℕ)
    → IsReady 0 p
    → CanGoOn p i w
    → 0 < w.batch_size
    → 0 < p.queue.watermark
    → 0 < t.total
    → Round scaled p i w t now
unfolding run
round_lem scaled p i w t now ready can asks some_wait tried =
    let sound = All-get Sound p.workers i w ready.sound can.here in
    let p1 = change p i (left_wait w) in
    let here1 = get-set p.workers i w (left_wait w) can.here in
    let eq1 = leaves_wait_lem scaled p i w can in
    let ready1 : IsReady 0 p1 = subst (AfterStep scaled 0) eq1 (left scaled 0 p i ready) in
    let w2 = settled (left_wait w) true in
    let p2 = change p1 i w2 in
    let here2 = get-set p1.workers i (left_wait w) w2 here1 in
    let eq2 = handles_lem scaled p1 i (left_wait w) w.events here1 refl (tt, sound.0) can.goes_on in
    let ready2 : IsReady 0 p2 = subst (AfterStep scaled 0) eq2 (handled scaled 0 p1 i ready1) in
    let (p3, eq3, less, workers) =
      mines_lem scaled 0 p2 i w2 here2 refl ready2 asks some_wait t now tried in
    let w3 = mined_worker scaled w2 t now in
    (
      p3,
      w3,
      λ os. rw (eq1, eq2, eq3) refl,
      less,
      subst (AfterStep scaled 0) eq3 (mined scaled 0 p2 i t now ready2),
      record {
        here =
            subst (λ ws. get_elem? ws i ≡ some w3) (sym workers) (get-set p2.workers i w2 w3 here2);
        at_wait = refl;
        running = can.running;
        goes_on = refl;
      },
      refl,
    )

-- What a worker measures: a candidate at least each time, and no batch size comes to 0.
abbrev pub Asking : (Timing → ℕ) → ℕ → List (Timing × ℕ) → Type 0
Asking scaled batch_size [] = Unit
Asking scaled batch_size ((t, now) ∷ os) =
    (0 < batch_size) × (0 < t.total) × Asking scaled (adjust_batch_size scaled batch_size t) os

-- A worker that goes on takes what waits, round after round, until nothing does.
pub rounds_drain :
    (scaled : Timing → ℕ) (os : List (Timing × ℕ)) (p : Pool) (i : ℕ) (w : Worker)
    → IsReady 0 p
    → CanGoOn p i w
    → Asking scaled w.batch_size os
    → p.queue.watermark ≤ length os
    → (k : ℕ) × (p' : Pool) × (k ≤ length os)
      × (run scaled p (rounds i (take k os)) ≡ some p')
      × (p'.queue.watermark ≡ 0)
unfolding run
rounds_drain scaled [] p i w ready can asking enough = (0, p, omega arith, refl, omega arith)
rounds_drain scaled ((t, now) ∷ os) p i w ready can (asks, tried, asking) enough =
    elim (dec_lt 0 p.queue.watermark) [
      | no idle ↦ (0, p, omega arith, refl, omega arith)
      | yes some_wait ↦
          let (p', w', eq, less, ready', can', size) =
            round_lem scaled p i w t now ready can asks some_wait tried in
          let (k, p'', few, eq', drained) =
            rounds_drain scaled os p' i w' ready' can'
              (subst (λ b. Asking scaled b os) (sym size) asking) (omega (arith, enough, less)) in
          (suc k, p'', omega (arith, few), eq (take k os) ∙ eq', drained)
    ]

new_pool-IsReady : (n v : ℕ) → v < u64 → IsReady v (new_pool n)
unfolding new_pool new_worker initial
new_pool-IsReady n v small = record {
  sound = All-replicate Sound n new_worker (tt, tt);
  valid = record { sizes = tt; front = refl; level = unfold total_size in refl };
  room = omega arith;
  alert = inl refl;
}

skip_false : (a b : Bool) → (a || false || b) ≡ true → (a || b) ≡ true
skip_false true b h = refl
skip_false false b h = h

-- A worker that no lock or thread holds up, in a pool whose `push_job` has ended.
CanGoOn-of_alert :
    (p : Pool) (i : ℕ) (w : Worker)
    → All Awake (take p.next p.workers)
    → length p.workers ≤ p.next
    → get_elem? p.workers i ≡ some w
    → w.phase ≡ waiting
    → w.shutdown ≡ false
    → CanGoOn p i w
CanGoOn-of_alert p i w alert quiet here at_wait running = record {
  here = here;
  at_wait = at_wait;
  running = running;
  goes_on = awake_waiting at_wait running (All-get Awake p.workers i w all here);
}
  where
    all : All Awake p.workers
    all = subst (All Awake) (take-all p.next p.workers quiet) alert

    awake_waiting :
        w.phase ≡ waiting
        → w.shutdown ≡ false
        → Awake w
        → (w.continue_mining || ltb 0 (length w.events)) ≡ true
    awake_waiting e f awake = skip_false w.continue_mining (ltb 0 (length w.events)) (
        subst (λ b. (w.continue_mining || b || ltb 0 (length w.events)) ≡ true) f
          (subst (λ ph. is_alert ph w.continue_mining w.shutdown (length w.events) ≡ true) e awake))

-- Whatever the threads of a new pool have done, with less than 2 ^ 64 candidates pushed: if
-- push_job has woken every worker, a worker that is at its condition variable and not shut down
-- can go on alone, and takes every candidate that waits in at most as many rounds as measures are
-- given, if these are at least as many as the candidates and no batch size comes to 0.
pub woken_worker_drains :
    (scaled : Timing → ℕ) (n : ℕ) (later : List Action) (p : Pool) (i : ℕ) (w : Worker)
    (os : List (Timing × ℕ))
    → volume later < u64
    → run scaled (new_pool n) later ≡ some p
    → length p.workers ≤ p.next
    → get_elem? p.workers i ≡ some w
    → w.phase ≡ waiting
    → w.shutdown ≡ false
    → Asking scaled w.batch_size os
    → p.queue.watermark ≤ length os
    → (k : ℕ) × (p' : Pool) × (k ≤ length os)
      × (run scaled p (rounds i (take k os)) ≡ some p')
      × (p'.queue.watermark ≡ 0)
woken_worker_drains scaled n later p i w os small reached quiet here at_wait running asking enough =
    let ready =
      run-IsReady scaled later (new_pool n) p (new_pool-IsReady n (volume later) small) reached in
    elim ready.alert [
      | inl idle ↦ (0, p, omega arith, unfold run in refl, idle)
      | inr alert ↦
          rounds_drain scaled os p i w ready
            (CanGoOn-of_alert p i w alert quiet here at_wait running) asking enough
    ]
