-- ===== src/Miner/Rates/Efficiency.antt =====
-- The sums of `EfficiencyEstimator` (src/miner/cpu/efficiency_estimator.hpp).
use janusminer.Common.{ℕ, ◌*◌}
use janusminer.Common.{Option, none, some, List, [], ◌∷◌, ◌++◌, ltb, if◌then◌else◌, length}
use janusminer.Miner.Rates.{PerSecond, add64, sub64, window_width}

pub record State : Type 0 where
  pub sumcs : ℕ
  pub sumtt : ℕ
  pub a : ℕ
  pub b : ℕ
  pub d : ℕ
  pub deque : List PerSecond

unfoldable pub empty : State
empty = record { sumcs = 0; sumtt = 0; a = 0; b = 0; d = 0; deque = [] }

unfoldable pub add_sample : State → PerSecond → State
unfolding add64
add_sample s ps = record {
  sumcs = add64 s.sumcs ps.considered;
  sumtt = add64 s.sumtt ps.total;
  a = add64 s.a (ps.total * ps.total);
  b = add64 s.b (ps.considered * ps.total);
  d = add64 s.d (ps.considered * ps.considered);
  deque = s.deque ++ ps ∷ [];
}

unfoldable pub subtract : State → PerSecond → List PerSecond → State
unfolding sub64
subtract s ps rest = record {
  sumcs = sub64 s.sumcs ps.considered;
  sumtt = sub64 s.sumtt ps.total;
  a = sub64 s.a (ps.total * ps.total);
  b = sub64 s.b (ps.considered * ps.total);
  d = sub64 s.d (ps.considered * ps.considered);
  deque = rest;
}

-- The last element, and what stands before it.
unfoldable pub back : List PerSecond → Option (List PerSecond × PerSecond)
back [] = none
back (x ∷ xs) =
    let rest = back xs in elim rest [ none ↦ some ([], x) | some f ↦ some (x ∷ f.0, f.1) ]

-- No state where the assertion stops the program.
unfoldable pub drop_back : State → Option State
unfolding back subtract
drop_back s = elim (back s.deque) [ none ↦ none | some f ↦ some (subtract s f.1 f.0) ]

unfoldable pub drop_front : State → Option State
unfolding subtract
drop_front s = elim s.deque [ [] ↦ none | ps ∷ rest ↦ some (subtract s ps rest) ]

unfoldable pub keep_size : State → Option State
unfolding drop_front
keep_size s = if ltb window_width (length s.deque) then drop_front s else some s

unfoldable pub push : State → PerSecond → Option State
unfolding keep_size add_sample
push s ps = keep_size (add_sample s ps)

unfoldable pub update_last : State → PerSecond → Option State
unfolding drop_back push
update_last s ps = elim (drop_back s) [ none ↦ none | some s' ↦ push s' ps ]
