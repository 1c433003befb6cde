-- ===== src/Miner/Workers/Runs.antt =====
-- src/miner/verus_pool.{hpp,cpp} and src/miner/cpu/verus_worker.cpp: what holds in every state that
-- the threads of a pool reach.
use janusminer.Common.{ℕ, ◌+◌, ◌≡◌, Option, none, some, List, [], ◌∷◌, ◌>>=◌, arith}
use mathlib.Core.Path.{subst}
use janusminer.Miner.Workers.{
  Timing, Pool, Action, pushes, wakes, leaves_wait, handles, mines, shuts_down, step, run,
}
use janusminer.Miner.Workers.Steps.{IsReady, AfterStep, pushed, woken, left, handled, shut, mined}

abbrev pub size_of : Action → ℕ
size_of (pushes j) = j.size
size_of _ = 0

abbrev pub volume : List Action → ℕ
volume [] = 0
volume (a ∷ later) = size_of a + volume later

lighter : {v : ℕ} {p : Pool} → IsReady (0 + v) p → IsReady v p
lighter ready = record {
  sound = ready.sound;
  valid = ready.valid;
  room = omega (arith, ready.room);
  alert = ready.alert;
}

module _ (scaled : Timing → ℕ) where
  -- Every step keeps the pool ready.
  step-IsReady :
      (p : Pool) (a : Action) (v : ℕ)
      → IsReady (size_of a + v) p
      → AfterStep scaled v (step scaled p a)
  step-IsReady p (pushes j) v ready = pushed scaled v p j ready
  step-IsReady p wakes v ready = woken scaled v p (lighter ready)
  step-IsReady p (leaves_wait i) v ready = left scaled v p i (lighter ready)
  step-IsReady p (handles i) v ready = handled scaled v p i (lighter ready)
  step-IsReady p (mines i t now) v ready = mined scaled v p i t now (lighter ready)
  step-IsReady p (shuts_down i) v ready = shut scaled v p i (lighter ready)

  after_one :
      (later : List Action) (v : ℕ) (o : Option Pool)
      → AfterStep scaled v o
      → ((p : Pool) → IsReady v p → AfterStep scaled 0 (run scaled p later))
      → AfterStep scaled 0 (o >>= λ p. run scaled p later)
  after_one later v none h k = tt
  after_one later v (some p) h k = k p h

  run-AfterStep :
      (later : List Action) (p : Pool)
      → IsReady (volume later) p
      → AfterStep scaled 0 (run scaled p later)
  unfolding run
  run-AfterStep [] p ready = ready
  run-AfterStep (a ∷ later) p ready =
      after_one later (volume later) (step scaled p a) (step-IsReady p a (volume later) ready)
        (λ p'. run-AfterStep later p')

  -- A run from a pool that is ready leaves one that is.
  pub run-IsReady :
      (later : List Action) (p p' : Pool)
      → IsReady (volume later) p
      → run scaled p later ≡ some p'
      → IsReady 0 p'
  run-IsReady later p p' ready h = subst (AfterStep scaled 0) h (run-AfterStep later p ready)
