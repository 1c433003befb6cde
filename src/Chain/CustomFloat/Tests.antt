-- ===== src/Chain/CustomFloat/Tests.antt =====
-- Inputs of the floating point numbers.
use janusminer.Common.{◌≡◌, refl, arith, some, true, false, inr, ◌>>=◌, pos, negsuc, ◌+ℤ◌, ◌-ℤ◌}
use janusminer.Chain.CustomFloat.{CustomFloat, add}
use janusminer.Chain.CustomFloat.Power.{from_int, pow2}
use janusminer.Chain.CustomFloat.Bounds.{Gives}
use janusminer.Chain.CustomFloat.Product.{Product, multiply_lem}
use janusminer.Chain.CustomFloat.Sum.{SumOf, add_same_lem}
use janusminer.Chain.CustomFloat.Total.{add-Gives}
use janusminer.Chain.CustomFloat.Whole.{power_of_two, pow2-from_int}

-- Constants of `log2` and of the proof of work.
abbrev c0 : CustomFloat
c0 = record { exponent = pos 1; mantissa = 2872373668; positive = true }

abbrev c1 : CustomFloat
c1 = record { exponent = pos 3; mantissa = 2377545675; positive = false }

abbrev factor : CustomFloat
factor = record { exponent = pos 0; mantissa = 3006477107; positive = true }

multiply_lem_example : Product c0 factor
multiply_lem_example =
    multiply_lem c0 factor (omega arith, omega arith) (omega arith, omega arith)
      (unfold ◌+ℤ◌ in (refl, refl)) (unfold ◌+ℤ◌ ◌-ℤ◌ in (refl, refl))

add_same_lem_example : SumOf c0 factor
add_same_lem_example =
    add_same_lem c0 factor (omega arith, omega arith) (omega arith, omega arith) refl refl
      (unfold ◌-ℤ◌ in omega arith) (refl, refl) (unfold ◌+ℤ◌ in (refl, refl))

add-Gives_example : Gives (add c0 c1) 31 4
add-Gives_example =
    add-Gives c0 c1 0 3
      (record { normal = inr (omega arith, omega arith); above = omega arith; below = omega arith })
      (record { normal = inr (omega arith, omega arith); above = omega arith; below = omega arith })
      (omega arith) (omega arith)

pow2-from_int_example :
    ((from_int (pos 10) >>= pow2) ≡ some (power_of_two (pos 10)))
    × ((from_int (negsuc 9) >>= pow2) ≡ some (power_of_two (negsuc 9)))
pow2-from_int_example = pow2-from_int 9 (omega arith)
