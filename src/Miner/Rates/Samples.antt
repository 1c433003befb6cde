-- ===== src/Miner/Rates/Samples.antt =====
-- Proofs on the sums of `EfficiencyEstimator` (src/miner/cpu/efficiency_estimator.hpp).
use janusminer.Common.{
  ◌⊎◌, ℕ, ◌+◌, ◌-◌, ◌*◌, ◌%◌, ◌≡◌, ◌≤◌, arith, refl, ap, sym, ◌∙◌, Bool-cases, inl, inr,
}
use janusminer.Common.{some, List, [], ◌∷◌, ◌++◌, u64, ltb, length, drop, length-append}
use janusminer.Miner.Rates.{PerSecond, add64, sub64}
use janusminer.Miner.Rates.Efficiency.{
  State, add_sample, subtract, back, drop_front, drop_back, keep_size, push, update_last,
}
use janusminer.Miner.Rates.Window.{suffix, add64_lem, sub64_lem}

abbrev pub sum_of : (PerSecond → ℕ) → List PerSecond → ℕ
sum_of f [] = 0
sum_of f (x ∷ xs) = f x + sum_of f xs

sum_of-append :
    (f : PerSecond → ℕ) (xs : List PerSecond) (x : PerSecond)
    → sum_of f (xs ++ x ∷ []) ≡ f x + sum_of f xs
sum_of-append f [] x = refl
sum_of-append f (y ∷ xs) x = omega (arith, sum_of-append f xs x)

abbrev Holds : ℕ → (PerSecond → ℕ) → List PerSecond → Type 0
Holds v f l = v ≡ sum_of f l % u64

Holds-add :
    (v : ℕ) (f : PerSecond → ℕ) (l : List PerSecond) (x : PerSecond)
    → Holds v f l
    → Holds (add64 v (f x)) f (l ++ x ∷ [])
Holds-add v f l x h =
    let e : sum_of f (l ++ x ∷ []) ≡ sum_of f l + f x = omega (arith, sum_of-append f l x) in
    rw e (add64_lem v (f x) (sum_of f l) h)

-- The sums are over the samples of the window, which has at most ten.
pub record IsConsistent (s : State) : Type 0 where
  pub considered : s.sumcs ≡ sum_of (λ p. p.considered) s.deque % u64
  pub total : s.sumtt ≡ sum_of (λ p. p.total) s.deque % u64
  pub total_squared : s.a ≡ sum_of (λ p. p.total * p.total) s.deque % u64
  pub mixed : s.b ≡ sum_of (λ p. p.considered * p.total) s.deque % u64
  pub considered_squared : s.d ≡ sum_of (λ p. p.considered * p.considered) s.deque % u64

add_sample_lem : (s : State) (ps : PerSecond) → IsConsistent s → IsConsistent (add_sample s ps)
unfolding add_sample
add_sample_lem s ps c = record {
  considered = Holds-add s.sumcs (λ p. p.considered) s.deque ps c.considered;
  total = Holds-add s.sumtt (λ p. p.total) s.deque ps c.total;
  total_squared = Holds-add s.a (λ p. p.total * p.total) s.deque ps c.total_squared;
  mixed = Holds-add s.b (λ p. p.considered * p.total) s.deque ps c.mixed;
  considered_squared =
      Holds-add s.d (λ p. p.considered * p.considered) s.deque ps c.considered_squared;
}

-- A sample whose share every sum has, wherever it stands, goes away.
subtract_lem :
    (s : State) (ps : PerSecond) (rest : List PerSecond)
    → IsConsistent s
    → ((f : PerSecond → ℕ) → sum_of f s.deque ≡ f ps + sum_of f rest)
    → IsConsistent (subtract s ps rest)
unfolding subtract
subtract_lem s ps rest c share =
    let gone : (v : ℕ) (f : PerSecond → ℕ) → Holds v f s.deque → Holds (sub64 v (f ps)) f rest =
      λ v f h. sub64_lem v (f ps) (sum_of f rest) (h ∙ ap (λ n. n % u64) (share f)) in
    record {
      considered = gone s.sumcs (λ p. p.considered) c.considered;
      total = gone s.sumtt (λ p. p.total) c.total;
      total_squared = gone s.a (λ p. p.total * p.total) c.total_squared;
      mixed = gone s.b (λ p. p.considered * p.total) c.mixed;
      considered_squared = gone s.d (λ p. p.considered * p.considered) c.considered_squared;
    }

back-append : (l : List PerSecond) (x : PerSecond) → back (l ++ x ∷ []) ≡ some (l, x)
unfolding back
back-append [] x = refl
back-append (y ∷ l) x = rw (back-append l x) refl

subtract-deque :
    (s : State) (ps : PerSecond) (rest : List PerSecond) → (subtract s ps rest).deque ≡ rest
unfolding subtract
subtract-deque s ps rest = refl

add_sample-deque : (s : State) (ps : PerSecond) → (add_sample s ps).deque ≡ s.deque ++ ps ∷ []
unfolding add_sample
add_sample-deque s ps = refl

List-cases :
    (l : List PerSecond) → (l ≡ []) ⊎ ((x : PerSecond) × (r : List PerSecond) × (l ≡ x ∷ r))
List-cases [] = inl refl
List-cases (x ∷ r) = inr (x, r, refl)

drop_front_lem :
    (s : State) (x : PerSecond) (r : List PerSecond)
    → s.deque ≡ x ∷ r
    → drop_front s ≡ some (subtract s x r)
unfolding drop_front
drop_front_lem s x r e = rw e refl

-- With at most eleven samples, `keep_size` leaves the last ten.
keep_size_lem :
    (s : State)
    → IsConsistent s
    → length s.deque ≤ 11
    → (s' : State) × (keep_size s ≡ some s') × IsConsistent s' × (s'.deque ≡ suffix 10 s.deque)
unfolding keep_size
keep_size_lem s c h = elim (Bool-cases (ltb 10 (length s.deque))) [
  | inl y ↦ elim (List-cases s.deque) [
    | inl e ↦ absurd (ground (arith, ap length e))
    | inr f ↦
        let one : length s.deque - 10 ≡ 1 = ground arith in
        let last : suffix 10 s.deque ≡ f.1 = rw (one, f.2) refl in
        rw y (
          subtract s f.0 f.1,
          drop_front_lem s f.0 f.1 f.2,
          subtract_lem s f.0 f.1 c (λ g. ap (sum_of g) f.2),
          subtract-deque s f.0 f.1 ∙ sym last,
        )
  ]
  | inr n ↦
      let none_over : length s.deque - 10 ≡ 0 = ground arith in rw n (s, refl, c, rw none_over refl)
]

-- From a consistent state with at most ten samples, push does not fail and leaves a consistent
-- state with the last ten of the samples and the new one.
pub push-IsConsistent :
    (s : State) (ps : PerSecond)
    → IsConsistent s
    → length s.deque ≤ 10
    → (s' : State) × (push s ps ≡ some s')
      × IsConsistent s'
      × (s'.deque ≡ suffix 10 (s.deque ++ ps ∷ []))
unfolding push
push-IsConsistent s ps c h =
    let d : (add_sample s ps).deque ≡ s.deque ++ ps ∷ [] = add_sample-deque s ps in
    let n = length-append s.deque (ps ∷ []) in
    let k = keep_size_lem (add_sample s ps) (add_sample_lem s ps c) (rw d (omega (arith, n))) in
    (k.0, k.1, k.2, k.3 ∙ ap (suffix 10) d)

-- From a consistent state with a last sample and at most ten, update_last does not fail, replaces
-- that sample and leaves a consistent state.
pub update_last-IsConsistent :
    (s : State) (l : List PerSecond) (old ps : PerSecond)
    → IsConsistent s
    → s.deque ≡ l ++ old ∷ []
    → length s.deque ≤ 10
    → (s' : State) × (update_last s ps ≡ some s') × IsConsistent s' × (s'.deque ≡ l ++ ps ∷ [])
unfolding update_last drop_back
update_last-IsConsistent s l old ps c e h =
    let s' = subtract s old l in
    let n = length-append l (old ∷ []) in
    let d : s'.deque ≡ l = subtract-deque s old l in
    let found : back s.deque ≡ some (l, old) = ap back e ∙ back-append l old in
    let c' : IsConsistent s' =
      subtract_lem s old l c (λ f. ap (sum_of f) e ∙ sum_of-append f l old) in
    let short : length l ≤ 9 = omega (arith, n, ap length e) in
    let p = push-IsConsistent s' ps c' (rw d (omega arith)) in
    let m = length-append l (ps ∷ []) in
    let all : length (l ++ ps ∷ []) - 10 ≡ 0 = omega (arith, m) in
    rw (update_last, drop_back, found)
      (
        p.0,
        p.1,
        p.2,
        p.3 ∙ ap (λ w. suffix 10 (w ++ ps ∷ [])) d ∙ ap (λ k. drop k (l ++ ps ∷ [])) all,
      )
