-- ===== src/Miner/Rates/AllCount.antt =====
-- `AllCount` of src/miner/verus_pool.hpp: the rates of the workers, one of each.
use janusminer.Common.{ℕ, ◌+◌}
use janusminer.Common.{
  Bool, true, false, Option, none, some, List, [], ◌∷◌, ◌==◌, if◌then◌else◌, length, get_elem?, set,
  replicate,
}
use janusminer.Miner.Rates.{PerSecond}

pub record State : Type 0 where
  pub count : ℕ
  pub fresh : Bool
  pub bv : List (Option PerSecond)

unfoldable pub make : ℕ → State
make s = record { count = 0; fresh = true; bv = replicate s none }

unfoldable pub reset_no_fresh : State → State
reset_no_fresh s = record s { count = 0; bv = replicate (length s.bv) none }

unfoldable pub reset : State → State
unfolding reset_no_fresh
reset s = reset_no_fresh (record s { fresh = true })

-- A sum of `size_t` and `double` goes through `double`: `add` is what the floating-point unit makes
-- of it.
module _ (add : ℕ → ℕ → ℕ) where
  -- No value where `value()` throws.
  unfoldable pub total_loop : PerSecond → List (Option PerSecond) → Option PerSecond
  total_loop acc [] = some acc
  total_loop acc (none ∷ os) = none
  total_loop acc (some o ∷ os) =
      total_loop
        (record { total = add acc.total o.total; considered = add acc.considered o.considered }) os

  unfoldable pub total_per_second : State → Option PerSecond
  unfolding total_loop
  total_per_second s = total_loop (record { total = 0; considered = 0 }) s.bv

  -- No state where `bv[i]` is out of bounds or `value()` throws.
  unfoldable pub set_timing : State → ℕ → PerSecond → Option (Option (Bool × PerSecond) × State)
  unfolding total_per_second reset_no_fresh
  set_timing s i per_second = elim (get_elem? s.bv i) [
    | none ↦ none
    | some (some o) ↦ some (none, s)
    | some none ↦
        let s' : State = record s { count = s.count + 1; bv = set s.bv i (some per_second) } in
        if s'.count == length s'.bv
        then elim (total_per_second s') [
          | none ↦ none
          | some t ↦ some (some (s'.fresh, t), record (reset_no_fresh s') { fresh = false })
        ]
        else some (none, s')
  ]
