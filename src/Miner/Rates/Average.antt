-- ===== src/Miner/Rates/Average.antt =====
-- `AverageEstimator` of src/miner/cpu/efficiency_estimator.hpp. A `std::deque` is a list, the front
-- first.
use janusminer.Common.{ℕ, suc, ◌/◌}
use janusminer.Common.{Option, none, some, List, [], ◌∷◌, ◌++◌, ◌==◌, ltb, if◌then◌else◌, length}
use janusminer.Miner.Rates.{add64, sub64, window_width}

pub record State : Type 0 where
  pub total : ℕ
  pub vals : List ℕ

abbrev pub empty : State
empty = record { total = 0; vals = [] }

unfoldable pub drop_loop : ℕ → List ℕ → State
unfolding sub64
drop_loop total [] = record { total = total; vals = [] }
drop_loop total (v ∷ vs) =
    if ltb window_width (suc (length vs))
    then drop_loop (sub64 total v) vs
    else record { total = total; vals = v ∷ vs }

unfoldable pub push_hashrate : State → ℕ → State
unfolding drop_loop add64
push_hashrate s per_second = drop_loop (add64 s.total per_second) (s.vals ++ per_second ∷ [])

unfoldable pub average_hashrate : State → Option ℕ
average_hashrate s = if s.total == 0 then none else some (s.total / length s.vals)
