-- ===== src/Miner/GpuRates/Total.antt =====
-- `totalHashrate` (src/miner/gpu/opencl_hasher.{hpp,cpp}) against the rates of the devices.
use janusminer.Common.{
  ℕ, zero, suc, ◌≡◌, refl, ◌∙◌, ap, sym, inl, inr, Option-cases, ltb, if◌then◌else◌, ◌/◌, Option,
  none, some, List, [], ◌∷◌, length, get_elem?, set, ◌>>=◌,
}
use janusminer.Common.{ℤ, pos, ◌+ℤ◌, ◌-ℤ◌, int_laws}
use mathlib.Core.Path.{subst}
use janusminer.Miner.GpuRates.{
  Device, Hasher, device_rate, finish_job, handle_finished_job, hashrates_loop, stop_device,
  stop_loop, watcher_rate, register_hashes,
}

-- The sum of the rates that the devices have told the parent.
abbrev pub sum_of : List Device → ℤ
sum_of [] = pos 0
sum_of (d ∷ ds) = d.prev_hashrate +ℤ sum_of ds

sum_of-set :
    (ds : List Device) (i : ℕ) (d d' : Device) (delta : ℤ)
    → get_elem? ds i ≡ some d
    → d'.prev_hashrate ≡ d.prev_hashrate +ℤ delta
    → sum_of (set ds i d') ≡ sum_of ds +ℤ delta
sum_of-set [] i d d' delta h e = absurd cc
sum_of-set (x ∷ xs) zero d d' delta h e =
    subst (λ y. d'.prev_hashrate +ℤ sum_of xs ≡ y +ℤ sum_of xs +ℤ delta) (sym (same x d h))
      (rw e (omega int_laws))
  where
    same : (x d : Device) → some x ≡ some d → x.prev_hashrate ≡ d.prev_hashrate
    same x d h = ap (λ o. prev_of o) h
      where
        prev_of : Option Device → ℤ
        prev_of none = pos 0
        prev_of (some y) = y.prev_hashrate
sum_of-set (x ∷ xs) (suc i) d d' delta h e = rw (sum_of-set xs i d d' delta h e) (omega int_laws)

-- The total is the sum of what the devices have told.
abbrev pub IsBalanced : Hasher → Type 0
IsBalanced h = h.total ≡ sum_of h.devices

-- What is told is the change.
abbrev Told : Device → ℤ → Device → Type 0
Told d delta d' = d'.prev_hashrate ≡ d.prev_hashrate +ℤ delta

abbrev RatePost : Device → Option (ℕ × ℤ × Device) → Type 0
RatePost d none = Unit
RatePost d (some (r, delta, d')) = Told d delta d' × (d'.prev_hashrate ≡ pos r)

device_rate-RatePost : (now : ℕ) (d : Device) → RatePost d (device_rate now d)
unfolding device_rate
device_rate-RatePost now d = elim (Option-cases (watcher_rate now d.watcher)) [
  | inl failed ↦ rw failed tt
  | inr ((r, w), eq) ↦ rw eq (back (pos r) d.prev_hashrate, refl)
]
  where
    back : (a b : ℤ) → a ≡ b +ℤ (a -ℤ b)
    back a b = omega int_laws

abbrev JobPost : Device → Option (ℤ × Device) → Type 0
JobPost d none = Unit
JobPost d (some (delta, d')) = Told d delta d'

finish_job-JobPost : (now : ℕ) (d : Device) → JobPost d (finish_job now d)
unfolding finish_job
finish_job-JobPost now d = told (device_rate now registered) (device_rate-RatePost now registered)
  where
    registered : Device
    registered = record d { watcher = register_hashes now d.tries d.watcher }

    told :
        (o : Option (ℕ × ℤ × Device))
        → RatePost registered o
        → JobPost d (
            o >>= λ (r, delta, d').
            some (delta, record d' { tries = if ltb (r / 20) 1000 then 1000 else r / 20 }))
    told none post = tt
    told (some (r, delta, d')) post = post.0

abbrev pub Kept : Option Hasher → Type 0
Kept none = Unit
Kept (some h) = IsBalanced h

pub handle_finished_job-Kept :
    (now i : ℕ) (h : Hasher) → IsBalanced h → Kept (handle_finished_job now i h)
unfolding handle_finished_job
handle_finished_job-Kept now i h balanced = at (get_elem? h.devices i) refl
  where
    at :
        (o : Option Device)
        → get_elem? h.devices i ≡ o
        → Kept (
            o >>= λ d. finish_job now d >>= λ (delta, d').
            some (record h { total = h.total +ℤ delta; devices = set h.devices i d' }))
    at none e = tt
    at (some d) e = finished (finish_job now d) (finish_job-JobPost now d)
      where
        finished :
            (o : Option (ℤ × Device))
            → JobPost d o
            → Kept (
                o >>= λ (delta, d').
                some (record h { total = h.total +ℤ delta; devices = set h.devices i d' }))
        finished none post = tt
        finished (some (delta, d')) post =
            rw (sum_of-set h.devices i d d' delta e post) (ap (λ t. t +ℤ delta) balanced)

pub stop_loop_lem : (ds : List Device) (total : ℤ) → (stop_loop total ds).0 ≡ total +ℤ sum_of ds
unfolding stop_loop stop_device
stop_loop_lem [] total = omega int_laws
stop_loop_lem (d ∷ ds) total = rw (stop_loop_lem ds (total +ℤ d.prev_hashrate)) (omega int_laws)

-- The rates that `hashrates` gives, added.
abbrev pub sum_rates : List ℕ → ℤ
sum_rates [] = pos 0
sum_rates (r ∷ rs) = pos r +ℤ sum_rates rs

abbrev pub LoopPost : ℤ → List Device → Option (List ℕ × ℤ × List Device) → Type 0
LoopPost total ds none = Unit
LoopPost total ds (some (rs, total', ds')) =
    (total' +ℤ sum_of ds ≡ total +ℤ sum_of ds') × (sum_of ds' ≡ sum_rates rs)

pub hashrates_loop-LoopPost :
    (clock : ℕ → ℕ) (ds : List Device) (total : ℤ)
    → LoopPost total ds (hashrates_loop clock total ds)
unfolding hashrates_loop
hashrates_loop-LoopPost clock [] total = (refl, refl)
hashrates_loop-LoopPost clock (d ∷ ds) total =
    first (device_rate (clock (length ds)) d) (device_rate-RatePost (clock (length ds)) d)
      (λ t. hashrates_loop-LoopPost clock ds t)
  where
    last :
        (r : ℕ) (delta : ℤ) (d' : Device) (o : Option (List ℕ × ℤ × List Device))
        → RatePost d (some (r, delta, d'))
        → LoopPost (total +ℤ delta) ds o
        → LoopPost total (d ∷ ds) (o >>= λ (rs, total', ds'). some (r ∷ rs, total', d' ∷ ds'))
    last r delta d' none told post = tt
    last r delta d' (some (rs, total', ds')) (told, rate) (moved, sums) = (
      rw told (shift total' d.prev_hashrate (sum_of ds) total delta (sum_of ds') moved),
      rw (rate, sums) refl,
    )
      where
        shift : (t' p s t e s' : ℤ) → t' +ℤ s ≡ t +ℤ e +ℤ s' → t' +ℤ (p +ℤ s) ≡ t +ℤ (p +ℤ e +ℤ s')
        shift t' p s t e s' h = swap_first t' p s ∙ ap (λ x. p +ℤ x) h ∙ swap_back t p e s'
          where
            swap_first : (t' p s : ℤ) → t' +ℤ (p +ℤ s) ≡ p +ℤ (t' +ℤ s)
            swap_first t' p s = omega int_laws

            swap_back : (t p e s' : ℤ) → p +ℤ (t +ℤ e +ℤ s') ≡ t +ℤ (p +ℤ e +ℤ s')
            swap_back t p e s' = omega int_laws

    first :
        (o : Option (ℕ × ℤ × Device))
        → RatePost d o
        → ((t : ℤ) → LoopPost t ds (hashrates_loop clock t ds))
        → LoopPost total (d ∷ ds) (
            o >>= λ (r, delta, d').
            hashrates_loop clock (total +ℤ delta) ds >>= λ (rs, total', ds').
            some (r ∷ rs, total', d' ∷ ds'))
    first none post rest = tt
    first (some (r, delta, d')) post rest =
        last r delta d' (hashrates_loop clock (total +ℤ delta) ds) post (rest (total +ℤ delta))
