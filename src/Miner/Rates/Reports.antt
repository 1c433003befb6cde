-- ===== src/Miner/Rates/Reports.antt =====
-- Proofs on `AllCount` (src/miner/verus_pool.hpp).
use janusminer.Common.{
  ◌⊎◌, ℕ, zero, suc, ◌+◌, ◌^◌, ◌≡◌, ◌<◌, ◌≤◌, arith, refl, ap, sym, ◌∙◌, Bool-cases, inl, inr,
  ==_iff,
}
use janusminer.Common.{
  false, Option, none, some, List, [], ◌∷◌, map, ◌==◌, length, get_elem?, set, replicate,
  length-set, length-replicate,
}
use janusminer.Miner.Rates.{PerSecond}
use janusminer.Miner.Rates.AllCount.{
  State, set_timing, total_loop, total_per_second, reset_no_fresh,
}
use janusminer.Miner.Rates.Samples.{sum_of}

-- How many workers have given a rate.
abbrev pub present : List (Option PerSecond) → ℕ
present [] = 0
present (none ∷ os) = present os
present (some o ∷ os) = suc (present os)

-- What they have given.
abbrev pub given : List (Option PerSecond) → List PerSecond
given [] = []
given (none ∷ os) = given os
given (some o ∷ os) = o ∷ given os

present_le : (os : List (Option PerSecond)) → present os ≤ length os
present_le [] = omega arith
present_le (none ∷ os) = omega (arith, present_le os)
present_le (some o ∷ os) = omega (arith, present_le os)

present-replicate : (n : ℕ) → present (replicate n none) ≡ 0
present-replicate zero = refl
present-replicate (suc n) = present-replicate n

present-set :
    (os : List (Option PerSecond)) (i : ℕ) (p : PerSecond)
    → get_elem? os i ≡ some none
    → present (set os i (some p)) ≡ present os + 1
present-set [] i p e = absurd (cc e)
present-set (none ∷ os) zero p e = omega arith
present-set (some o ∷ os) zero p e = absurd (cc e)
present-set (none ∷ os) (suc i) p e = present-set os i p e
present-set (some o ∷ os) (suc i) p e = omega (arith, present-set os i p e)

all_given : (os : List (Option PerSecond)) → present os ≡ length os → os ≡ map some (given os)
all_given [] h = refl
all_given (none ∷ os) h = absurd (omega (arith, present_le os))
all_given (some o ∷ os) h = ap (λ l. some o ∷ l) (all_given os (omega arith))

-- No round is complete: a count of those that have given a rate, below that of the workers.
pub record IsCounting (s : State) : Type 0 where
  pub counted : s.count ≡ present s.bv
  pub incomplete : s.count < length s.bv

module _ (add : ℕ → ℕ → ℕ) (exact : (a b : ℕ) → a + b ≤ 2 ^ 53 → add a b ≡ a + b) where
  abbrev pub totals : List PerSecond → PerSecond
  totals l = record { total = sum_of (λ p. p.total) l; considered = sum_of (λ p. p.considered) l }

  total_loop_lem :
      (acc : PerSecond) (l : List PerSecond)
      → acc.total + sum_of (λ p. p.total) l ≤ 2 ^ 53
      → acc.considered + sum_of (λ p. p.considered) l ≤ 2 ^ 53
      → total_loop add acc (map some l)
        ≡ some (record {
          total = acc.total + sum_of (λ p. p.total) l;
          considered = acc.considered + sum_of (λ p. p.considered) l;
        })
  unfolding total_loop
  total_loop_lem acc [] h k =
      let e : acc.total + 0 ≡ acc.total = omega arith in
      let e' : acc.considered + 0 ≡ acc.considered = omega arith in rw (e, e') refl
  total_loop_lem acc (o ∷ l) h k =
      let e1 : add acc.total o.total ≡ acc.total + o.total =
        exact acc.total o.total (omega arith) in
      let e2 : add acc.considered o.considered ≡ acc.considered + o.considered =
        exact acc.considered o.considered (omega arith) in
      let r =
        total_loop_lem
          (record { total = acc.total + o.total; considered = acc.considered + o.considered }) l
          (omega arith) (omega arith) in
      let a1 : acc.total + o.total + sum_of (λ p. p.total) l
          ≡ acc.total + (o.total + sum_of (λ p. p.total) l) =
        omega arith in
      let a2 : acc.considered + o.considered + sum_of (λ p. p.considered) l
          ≡ acc.considered + (o.considered + sum_of (λ p. p.considered) l) =
        omega arith in
      rw (total_loop, e1, e2, r, a1, a2) refl

  total_loop-given :
      (os : List (Option PerSecond))
      → present os ≡ length os
      → sum_of (λ p. p.total) (given os) ≤ 2 ^ 53
      → sum_of (λ p. p.considered) (given os) ≤ 2 ^ 53
      → total_loop add (record { total = 0; considered = 0 }) os ≡ some (totals (given os))
  total_loop-given os h t c =
      ap (total_loop add (record { total = 0; considered = 0 })) (all_given os h)
      ∙ total_loop_lem (record { total = 0; considered = 0 }) (given os) (omega arith) (omega arith)
      ∙ (let z : 0 + sum_of (λ p. p.total) (given os) ≡ sum_of (λ p. p.total) (given os) =
            omega arith in
          let z' : 0 + sum_of (λ p. p.considered) (given os)
              ≡ sum_of (λ p. p.considered) (given os) =
            omega arith in
          rw (z, z') refl)

  -- With sums of rates exact below 2 ^ 53, the rate of a worker that has given none in the round
  -- is taken; there is a report if and only if it was the last that was missing, it is the sum of
  -- the rates of the round, and a new round begins.
  pub set_timing_lem :
      (s : State) (i : ℕ) (ps : PerSecond)
      → IsCounting s
      → get_elem? s.bv i ≡ some none
      → sum_of (λ p. p.total) (given (set s.bv i (some ps))) ≤ 2 ^ 53
      → sum_of (λ p. p.considered) (given (set s.bv i (some ps))) ≤ 2 ^ 53
      → (s' : State) × IsCounting s'
        × (((present s.bv + 1 < length s.bv)
              × (set_timing add s i ps ≡ some (none, s'))
              × (s'.bv ≡ set s.bv i (some ps)))
            ⊎ ((present s.bv + 1 ≡ length s.bv)
                × (set_timing add s i ps
                    ≡ some (some (s.fresh, totals (given (set s.bv i (some ps)))), s'))
                × (s'.fresh ≡ false)
                × (present s'.bv ≡ 0)))
  unfolding set_timing total_per_second reset_no_fresh
  set_timing_lem s i ps c e ht hc =
      let bv' = set s.bv i (some ps) in
      elim (Bool-cases (s.count + 1 == length bv')) [
        | inl y ↦
            let p = present-set s.bv i ps e in
            let n = length-set s.bv i (some ps) in
            let count : s.count + 1 ≡ length bv' = (==_iff (s.count + 1) (length bv')).0 y in
            let full : present bv' ≡ length bv' = omega (arith, p, count, c.counted) in
            let cleared : present (replicate (length bv') none) ≡ 0 =
              present-replicate (length bv') in
            (
              record { count = 0; fresh = false; bv = replicate (length bv') none },
              record {
                counted = sym cleared;
                incomplete =
                    rw (length-replicate {A = Option PerSecond} (length bv') none)
                      (omega (arith, n, c.incomplete));
              },
              inr (
                omega (arith, p, n, full),
                rw (set_timing, e, y, total_per_second, total_loop-given bv' full ht hc) refl,
                refl,
                cleared,
              ),
            )
        | inr n ↦
            let p = present-set s.bv i ps e in
            let l = length-set s.bv i (some ps) in
            let some_missing : s.count + 1 < length bv' = ground (arith, c.incomplete) in
            (
              record s { count = s.count + 1; bv = bv' },
              record { counted = omega (arith, p, c.counted); incomplete = some_missing },
              inl (omega (arith, l, c.counted), rw (set_timing, e, n) refl, refl),
            )
      ]
