-- ===== src/Miner/Workers/Steps.antt =====
-- src/miner/verus_pool.{hpp,cpp} and src/miner/cpu/verus_worker.cpp: what each step of a
-- thread keeps.
use janusminer.Common.{ℕ, ◌+◌, ◌≡◌, ◌<◌, ◌⊎◌, inl, inr, refl, arith, Bool-cases, leb, ◌==◌}
use janusminer.Common.{false, Option, none, some, length, get_elem?, set, take, All, u64}
use janusminer.Common.{◌>>=◌}
use mathlib.Core.Path.{subst}
use janusminer.Miner.JobQueue.{Job, JobQueue, WorkerJob, pop}
use janusminer.Miner.JobQueue.Fifo.{IsValid}
use janusminer.Miner.JobQueue.Level.{PopPost, pop-PopPost, push-watermark}
use janusminer.Miner.JobQueue.Push.{push_lem}
use janusminer.Miner.Workers.{
  Phase, waiting, handling, mining, returned, Worker, Timing, Pool, pushes, wakes, leaves_wait,
  handles, mines, shuts_down, wake_up, shut_down, leave_wait, handle_events, finish_try, pop_job,
  try_mining, step, change,
}
use janusminer.Miner.Workers.Alert.{
  Sound, Awake, Waking, wake_up-Awake, shut_down-Awake, leave_wait-Awake, handle_events-Awake,
  All-get, All-set, All-take-set, All-take-suc-set,
}

-- While candidates wait, each worker up to the one that `push_job` wakes next is awake; there is room
-- for `volume` more candidates.
pub record IsReady (volume : ℕ) (p : Pool) : Type 0 where
  pub sound : All Sound p.workers
  pub valid : IsValid p.queue
  pub room : p.queue.watermark + volume < u64
  pub alert : (p.queue.watermark ≡ 0) ⊎ All Awake (take p.next p.workers)

module _ (scaled : Timing → ℕ) (v : ℕ) where
  abbrev pub AfterStep : Option Pool → Type 0
  AfterStep none = Unit
  AfterStep (some p) = IsReady v p

  -- A worker does something that keeps it awake if it was.
  replaced :
      (p : Pool) (i : ℕ) (w w' : Worker)
      → IsReady v p
      → get_elem? p.workers i ≡ some w
      → Sound w'
      → (Awake w → Awake w')
      → IsReady v (record p { workers = set p.workers i w' })
  replaced p i w w' ready here sound awake = record {
    sound = All-set Sound p.workers i w' ready.sound sound;
    valid = ready.valid;
    room = ready.room;
    alert = elim ready.alert [
      | inl idle ↦ inl idle
      | inr alert ↦ inr (All-take-set Awake p.workers p.next i w w' alert here awake)
    ];
  }

  pub pushed : (p : Pool) (j : Job) → IsReady (j.size + v) p → AfterStep (step scaled p (pushes j))
  unfolding step
  pushed p j ready = elim (Bool-cases (leb (length p.workers) p.next)) [
    | inl quiet ↦ rw quiet (record {
      sound = ready.sound;
      valid = (push_lem p.queue j ready.valid (omega (arith, ready.room))).0;
      room = omega (arith, ready.room, push-watermark p.queue j);
      alert = inr tt;
    })
    | inr busy ↦ rw busy tt
  ]

  -- `set_worker`: a step of a worker that exists.
  with_worker :
      (p : Pool) (i : ℕ) (o : Option Worker) (k : Worker → Option Pool)
      → get_elem? p.workers i ≡ o
      → ((w : Worker) → get_elem? p.workers i ≡ some w → AfterStep (k w))
      → AfterStep (o >>= k)
  with_worker p i none k e f = tt
  with_worker p i (some w) k e f = f w e

  pub woken : (p : Pool) → IsReady v p → AfterStep (step scaled p wakes)
  unfolding step
  woken p ready = with_worker p p.next (get_elem? p.workers p.next) _ refl (λ w here.
      let (sound, awake) = wake_up-Awake w (All-get Sound p.workers p.next w ready.sound here) in
      record {
        sound = All-set Sound p.workers p.next (wake_up w) ready.sound sound;
        valid = ready.valid;
        room = ready.room;
        alert = elim ready.alert [
          | inl idle ↦ inl idle
          | inr alert ↦ inr (All-take-suc-set Awake p.workers p.next (wake_up w) alert awake)
        ];
      })

  pub left : (p : Pool) (i : ℕ) → IsReady v p → AfterStep (step scaled p (leaves_wait i))
  unfolding step
  left p i ready = with_worker p i (get_elem? p.workers i) _ refl (λ w here. at w here w.phase)
    where
      gone :
          (w : Worker)
          → get_elem? p.workers i ≡ some w
          → (o : Option Worker) → leave_wait w ≡ o
          → AfterStep (o >>= λ w'. some (change p i w'))
      gone w here none e = tt
      gone w here (some w') e =
          let (sound, awake) =
            leave_wait-Awake w w' (All-get Sound p.workers i w ready.sound here) e in
          replaced p i w w' ready here sound (λ _. awake)

      at :
          (w : Worker)
          → get_elem? p.workers i ≡ some w
          → (ph : Phase)
          → AfterStep (elim ph [ waiting ↦ leave_wait w >>= λ w'. some (change p i w') | _ ↦ none ])
      at w here waiting = gone w here (leave_wait w) refl
      at w here (handling es) = tt
      at w here mining = tt
      at w here returned = tt

  pub handled : (p : Pool) (i : ℕ) → IsReady v p → AfterStep (step scaled p (handles i))
  unfolding step
  handled p i ready =
      with_worker p i (get_elem? p.workers i) _ refl (λ w here. at w here w.phase refl)
    where
      at :
          (w : Worker)
          → get_elem? p.workers i ≡ some w
          → (ph : Phase) → w.phase ≡ ph
          → AfterStep (elim ph [ handling es ↦ some (change p i (handle_events w es)) | _ ↦ none ])
      at w here (handling es) e =
          let (sound, awake) =
            handle_events-Awake w es (All-get Sound p.workers i w ready.sound here) e in
          replaced p i w (handle_events w es) ready here sound awake
      at w here waiting e = tt
      at w here mining e = tt
      at w here returned e = tt

  pub shut : (p : Pool) (i : ℕ) → IsReady v p → AfterStep (step scaled p (shuts_down i))
  unfolding step
  shut p i ready = with_worker p i (get_elem? p.workers i) _ refl (λ w here.
      let (sound, awake) = shut_down-Awake w (All-get Sound p.workers i w ready.sound here) in
      replaced p i w (shut_down w) ready here sound awake)

  tried :
      (p : Pool) (i : ℕ) (w : Worker) (t : Timing) (now : ℕ)
      → IsReady v p
      → get_elem? p.workers i ≡ some w
      → AfterStep (try_mining scaled p i w t now)
  unfolding try_mining pop_job finish_try
  tried p i w t now ready here = popped (pop p.queue w.batch_size) refl
    where
      waking : Waking w.events
      waking = (All-get Sound p.workers i w ready.sound here).0

      popped :
          (o : Option (Option WorkerJob × JobQueue))
          → pop p.queue w.batch_size ≡ o
          → AfterStep (try_mining scaled p i w t now)
      popped none e = rw e tt
      popped (some (none, q)) e =
          let (valid, less, drained) =
            subst (PopPost p.queue) e (pop-PopPost p.queue w.batch_size ready.valid) in
          rw e (record {
            sound = All-set Sound p.workers i (finish_try w false) ready.sound (waking, tt);
            valid = valid;
            room = omega (arith, ready.room, less);
            alert = inl (drained refl);
          })
      popped (some (some j, q)) e =
          let (valid, less, _) =
            subst (PopPost p.queue) e (pop-PopPost p.queue w.batch_size ready.valid) in
          rw e (elim (Bool-cases (t.total == 0)) [
            | inl zero_total ↦ rw zero_total tt
            | inr some_total ↦ rw some_total (record {
              sound = All-set Sound p.workers i _ ready.sound (waking, tt);
              valid = valid;
              room = omega (arith, ready.room, less);
              alert = elim ready.alert [
                | inl idle ↦ inl (omega (arith, less))
                | inr alert ↦ inr (All-take-set Awake p.workers p.next i w _ alert here (λ _. refl))
              ];
            })
          ])

  pub mined :
      (p : Pool) (i : ℕ) (t : Timing) (now : ℕ)
      → IsReady v p
      → AfterStep (step scaled p (mines i t now))
  unfolding step
  mined p i t now ready =
      with_worker p i (get_elem? p.workers i) _ refl (λ w here. at w here w.phase)
    where
      at :
          (w : Worker)
          → get_elem? p.workers i ≡ some w
          → (ph : Phase) → AfterStep (elim ph [ mining ↦ try_mining scaled p i w t now | _ ↦ none ])
      at w here waiting = tt
      at w here (handling es) = tt
      at w here mining = tried p i w t now ready here
      at w here returned = tt
