-- ===== src/Miner/Workers/Alert.antt =====
-- src/miner/cpu/verus_worker.cpp: what becomes of the events that wake a worker.
use janusminer.Common.{ℕ, zero, suc, ◌≡◌, ◌<◌, inl, inr, refl, arith, Bool-cases, ltb, ap, sym, ◌∙◌}
use janusminer.Common.{
  Bool, true, false, ◌||◌, Option, none, some, List, [], ◌∷◌, ◌++◌, length, length-append,
}
use janusminer.Common.{get_elem?, set, take, All, All-append, if◌then◌else◌}
use mathlib.Core.Path.{subst}
use janusminer.Miner.Workers.{
  Event, continue_event, Phase, waiting, handling, mining, returned, Worker, has_work, push_event,
  wake_up, shut_down, leave_wait, handle_event, handle_events,
}

-- Events that only wake.
abbrev pub Waking : List Event → Type 0
Waking = All (λ e. e ≡ continue_event)

-- In each phase: what the events are, and that only a worker that goes on mines.
abbrev pub SoundPhase : Phase → Bool → Type 0
SoundPhase waiting continues = Unit
SoundPhase (handling es) continues = Waking es
SoundPhase mining continues = continues ≡ true
SoundPhase returned continues = Unit

abbrev pub Sound : Worker → Type 0
Sound w = Waking w.events × SoundPhase w.phase w.continue_mining

-- A worker that goes on to `try_mining` without a further event, or has ended.
abbrev pub is_alert : Phase → Bool → Bool → ℕ → Bool
is_alert waiting continues shutdown n = continues || shutdown || ltb 0 n
is_alert (handling es) continues shutdown n = continues || ltb 0 (length es) || ltb 0 n
is_alert mining continues shutdown n = true
is_alert returned continues shutdown n = true

abbrev pub Awake : Worker → Type 0
Awake w = is_alert w.phase w.continue_mining w.shutdown (length w.events) ≡ true

or_true : (a b c : Bool) → c ≡ true → (a || b || c) ≡ true
or_true a b c h = ground arith

alert_more : (p : Phase) (c s : Bool) (n : ℕ) → 0 < n → is_alert p c s n ≡ true
alert_more waiting c s n h = or_true c s (ltb 0 n) (ground arith)
alert_more (handling es) c s n h = or_true c (ltb 0 (length es)) (ltb 0 n) (ground arith)
alert_more mining c s n h = refl
alert_more returned c s n h = refl

-- A worker that is woken is awake.
pub wake_up-Awake : (w : Worker) → Sound w → Sound (wake_up w) × Awake (wake_up w)
unfolding wake_up push_event
wake_up-Awake w (events, phase) = (
  (All-append (λ e. e ≡ continue_event) w.events (continue_event ∷ []) events (refl, tt), phase),
  alert_more w.phase w.continue_mining w.shutdown (length (w.events ++ continue_event ∷ []))
      (omega (arith, length-append w.events (continue_event ∷ []))),
)

alert_shut : (p : Phase) (c s : Bool) (n : ℕ) → is_alert p c s n ≡ true → is_alert p c true n ≡ true
alert_shut waiting c s n h = ground arith
alert_shut (handling es) c s n h = h
alert_shut mining c s n h = refl
alert_shut returned c s n h = refl

pub shut_down-Awake : (w : Worker) → Sound w → Sound (shut_down w) × (Awake w → Awake (shut_down w))
unfolding shut_down
shut_down-Awake w sound = (sound, alert_shut w.phase w.continue_mining w.shutdown (length w.events))

abbrev AfterWait : Option Worker → Type 0
AfterWait none = Unit
AfterWait (some w) = Sound w × Awake w

leaving :
    (c s : Bool) (n : ℕ) → (c || (s || ltb 0 n)) ≡ true → s ≡ false → (c || ltb 0 n || false) ≡ true
leaving c s n h e = ground arith

leave_wait-AfterWait : (w : Worker) → Sound w → AfterWait (leave_wait w)
unfolding leave_wait has_work
leave_wait-AfterWait w sound =
    elim (Bool-cases (w.continue_mining || (w.shutdown || ltb 0 (length w.events)))) [
      | inl leaves ↦ rw leaves (elim (Bool-cases w.shutdown) [
        | inl down ↦ rw down ((tt, tt), refl)
        | inr up ↦
            rw up ((tt, sound.0), leaving w.continue_mining w.shutdown (length w.events) leaves up)
      ])
      | inr stays ↦ rw stays tt
    ]

-- Whoever leaves the wait is awake.
pub leave_wait-Awake : (w w' : Worker) → Sound w → leave_wait w ≡ some w' → Sound w' × Awake w'
leave_wait-Awake w w' sound h = subst AfterWait h (leave_wait-AfterWait w sound)

or_right : (c : Bool) → (c || true) ≡ true
or_right true = refl
or_right false = refl

-- The state behind the handling of events.
abbrev pub settled : Worker → Bool → Worker
settled w c = record w { continue_mining = c; phase = if c then mining else waiting }

pub handle_events-settled :
    (es : List Event) (w : Worker)
    → Waking es
    → handle_events w es ≡ settled w (w.continue_mining || ltb 0 (length es))
unfolding handle_events handle_event
handle_events-settled [] w h = elim (Bool-cases w.continue_mining) [
  | inl c ↦ rw c refl
  | inr c ↦ rw c refl
]
handle_events-settled (e ∷ es) w h =
    ap (λ e'. handle_events (handle_event w e') es) h.0
    ∙ handle_events-settled es (record w { continue_mining = true }) h.1
    ∙ ap (settled w) (sym (ap (λ b. w.continue_mining || b) positive ∙ or_right w.continue_mining))
  where
    positive : ltb 0 (suc (length es)) ≡ true
    positive = ground arith

settled-Sound : (w : Worker) (c : Bool) → Waking w.events → Sound (settled w c)
settled-Sound w true h = (h, refl)
settled-Sound w false h = (h, tt)

settled-Awake :
    (w : Worker) (c : Bool) → (c || ltb 0 (length w.events)) ≡ true → Awake (settled w c)
settled-Awake w true h = refl
settled-Awake w false h = or_true false w.shutdown (ltb 0 (length w.events)) h

-- The handling of events keeps a worker awake that was so.
pub handle_events-Awake :
    (w : Worker) (es : List Event)
    → Sound w
    → w.phase ≡ handling es
    → Sound (handle_events w es) × (Awake w → Awake (handle_events w es))
handle_events-Awake w es sound here =
    let waking : Waking es = subst (λ p. SoundPhase p w.continue_mining) here sound.1 in
    rw (handle_events-settled es w waking) (
      settled-Sound w (w.continue_mining || ltb 0 (length es)) sound.0,
      λ awake. settled-Awake w (w.continue_mining || ltb 0 (length es)) (
          subst (λ p. is_alert p w.continue_mining w.shutdown (length w.events) ≡ true) here awake),
    )

-- Where the first `n` of a list are so, and what becomes of that when one is replaced.
module _ {ℓ κ} {A : Type ℓ} (P : A → Type κ) where
  pub All-get : (xs : List A) (i : ℕ) (x : A) → All P xs → get_elem? xs i ≡ some x → P x
  All-get [] i x h e = absurd cc
  All-get (y ∷ ys) zero x h e = subst (λ o. Holds_of o) e h.0
    where
      Holds_of : Option A → Type κ
      Holds_of none = Unit
      Holds_of (some z) = P z
  All-get (y ∷ ys) (suc i) x h e = All-get ys i x h.1 e

  pub All-set : (xs : List A) (i : ℕ) (v : A) → All P xs → P v → All P (set xs i v)
  All-set [] i v h p = tt
  All-set (x ∷ xs) zero v h p = (p, h.1)
  All-set (x ∷ xs) (suc i) v h p = (h.0, All-set xs i v h.1 p)

  pub All-take-set :
      (xs : List A) (n i : ℕ) (x v : A)
      → All P (take n xs)
      → get_elem? xs i ≡ some x
      → (P x → P v)
      → All P (take n (set xs i v))
  All-take-set xs zero i x v h e f = tt
  All-take-set [] (suc n) i x v h e f = tt
  All-take-set (y ∷ ys) (suc n) zero x v h e f = (f (All-get (y ∷ []) zero x (h.0, tt) e), h.1)
  All-take-set (y ∷ ys) (suc n) (suc i) x v h e f = (h.0, All-take-set ys n i x v h.1 e f)

  pub All-take-suc-set :
      (xs : List A) (n : ℕ) (v : A) → All P (take n xs) → P v → All P (take (suc n) (set xs n v))
  All-take-suc-set [] n v h p = tt
  All-take-suc-set (x ∷ xs) zero v h p = (p, tt)
  All-take-suc-set (x ∷ xs) (suc n) v h p = (h.0, All-take-suc-set xs n v h.1 p)
