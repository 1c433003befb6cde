-- ===== src/Miner/GpuRates/Stop.antt =====
-- The calls that change `totalHashrate`, and `stop_mining` (src/miner/gpu/opencl_hasher.{hpp,cpp}).
use janusminer.Common.{
  ℕ, zero, suc, ◌+◌, ◌≡◌, refl, ◌∙◌, ap, ap₂, sym, Option, none, some, List, [], ◌∷◌, ◌>>=◌,
  replicate,
}
use janusminer.Common.{ℤ, pos, ◌+ℤ◌, ◌-ℤ◌, int_laws}
use mathlib.Core.Path.{subst}
use janusminer.Miner.GpuRates.{
  Device, Hasher, handle_finished_job, hashrates_loop, hashrates, stop_loop, stop_mining,
  check_zero, new_device,
}
use janusminer.Miner.GpuRates.Total.{
  sum_of, sum_rates, IsBalanced, Kept, LoopPost, handle_finished_job-Kept, hashrates_loop-LoopPost,
  stop_loop_lem,
}

-- The calls of a hasher: a device has finished a job, or somebody asks for the rates.
pub data Call : Type 0 where
  finishes : ℕ → ℕ → Call
  asks : (ℕ → ℕ) → Call

unfoldable pub call : Hasher → Call → Option Hasher
unfolding handle_finished_job hashrates
call h (finishes now i) = handle_finished_job now i h
call h (asks clock) = hashrates clock h >>= λ (total, rs, h'). some h'

unfoldable pub run : Hasher → List Call → Option Hasher
unfolding call
run h [] = some h
run h (c ∷ cs) = call h c >>= λ h'. run h' cs

-- What `hashrates` gives: its total is the sum of its rates.
abbrev Reported : Option (ℤ × List ℕ × Hasher) → Type 0
Reported none = Unit
Reported (some (total, rs, h')) = IsBalanced h' × (total ≡ h'.total) × (total ≡ sum_rates rs)

hashrates-Reported : (clock : ℕ → ℕ) (h : Hasher) → IsBalanced h → Reported (hashrates clock h)
unfolding hashrates
hashrates-Reported clock h balanced =
    at (hashrates_loop clock h.total h.devices) (hashrates_loop-LoopPost clock h.devices h.total)
  where
    cancel : (t s s' : ℤ) → t +ℤ s ≡ s +ℤ s' → t ≡ s'
    cancel t s s' e = sym (undo t s) ∙ ap (λ x. x -ℤ s) e ∙ undo_first s s'
      where
        undo : (a b : ℤ) → a +ℤ b -ℤ b ≡ a
        undo a b = omega int_laws

        undo_first : (a b : ℤ) → a +ℤ b -ℤ a ≡ b
        undo_first a b = omega int_laws

    at :
        (o : Option (List ℕ × ℤ × List Device))
        → LoopPost h.total h.devices o
        → Reported
            (o >>= λ (rs, total, ds). some (total, rs, record { total = total; devices = ds }))
    at none post = tt
    at (some (rs, total, ds)) (moved, sums) =
        let same : total ≡ sum_of ds =
          cancel total (sum_of h.devices) (sum_of ds) (moved ∙ ap (λ t. t +ℤ sum_of ds) balanced) in
        (same, refl, same ∙ sums)

-- `hashrates` gives rates with their sum.
pub hashrates_lem :
    (clock : ℕ → ℕ) (h : Hasher) (total : ℤ) (rs : List ℕ) (h' : Hasher)
    → IsBalanced h
    → hashrates clock h ≡ some (total, rs, h')
    → IsBalanced h' × (total ≡ h'.total) × (total ≡ sum_rates rs)
hashrates_lem clock h total rs h' balanced eq =
    subst Reported eq (hashrates-Reported clock h balanced)

run-Kept : (cs : List Call) (h : Hasher) → IsBalanced h → Kept (run h cs)
unfolding run call
run-Kept [] h balanced = balanced
run-Kept (finishes now i ∷ cs) h balanced =
    at (handle_finished_job now i h) (handle_finished_job-Kept now i h balanced)
      (λ h'. run-Kept cs h')
  where
    at :
        (o : Option Hasher)
        → Kept o
        → ((h' : Hasher) → IsBalanced h' → Kept (run h' cs))
        → Kept (o >>= λ h'. run h' cs)
    at none kept rest = tt
    at (some h') kept rest = rest h' kept
run-Kept (asks clock ∷ cs) h balanced =
    at (hashrates clock h) (hashrates-Reported clock h balanced) (λ h'. run-Kept cs h')
  where
    at :
        (o : Option (ℤ × List ℕ × Hasher))
        → Reported o
        → ((h' : Hasher) → IsBalanced h' → Kept (run h' cs))
        → Kept ((o >>= λ (total, rs, h'). some h') >>= λ h'. run h' cs)
    at none kept rest = tt
    at (some (total, rs, h')) kept rest = rest h' kept.0

-- A hasher of `n` devices.
abbrev pub new_hasher : ℕ → Hasher
new_hasher n = record { total = pos 0; devices = replicate n new_device }

new_hasher-IsBalanced : (n : ℕ) → IsBalanced (new_hasher n)
unfolding new_device
new_hasher-IsBalanced zero = refl
new_hasher-IsBalanced (suc n) = rw (← new_hasher-IsBalanced n) (omega int_laws)

not_zero : (t : ℤ) (ds : List Device) (k : ℕ) → t ≡ pos (suc k) → check_zero t ds ≡ none
unfolding check_zero
not_zero t ds k e = rw e refl

twice : (r : ℕ) → pos (suc r) +ℤ pos (suc r) ≡ pos (suc (suc r + r))
twice r = omega int_laws

-- After any finished jobs and requests for the rates, if the sum of the rates of the devices is
-- positive, the total is that sum, and stop_mining fails its assert, since a device that stops
-- gives its rate back with the wrong sign.
pub stop_mining_lem :
    (n : ℕ) (cs : List Call) (h : Hasher) (r : ℕ)
    → run (new_hasher n) cs ≡ some h
    → sum_of h.devices ≡ pos (suc r)
    → IsBalanced h × (stop_mining h ≡ none)
unfolding stop_mining
stop_mining_lem n cs h r reached positive = (
  balanced,
  not_zero (stop_loop h.total h.devices).0 (stop_loop h.total h.devices).1 (suc r + r) (
      stop_loop_lem h.devices h.total
      ∙ ap₂ (λ a b. a +ℤ b) (balanced ∙ positive) positive
      ∙ twice r),
)
  where
    balanced : IsBalanced h
    balanced = subst Kept reached (run-Kept cs (new_hasher n) (new_hasher-IsBalanced n))
