-- ===== src/Chain/Worksum/Value.antt =====
-- The number that the fragments of a `Worksum` stand for (src/shared/src/block/chain/worksum.hpp).
use janusminer.Common.{ℕ, ◌+◌, ◌*◌, ◌^◌, ◌≡◌, ◌<◌, refl, arith, List, [], ◌∷◌, u32, length, All}
use janusminer.Chain.Worksum.{Worksum, elements}

abbrev pub Words : List ℕ → Type 0
Words = All (λ f. f < u32)

-- The number that fragments stand for, and the modulus of as many.
unfoldable pub number : List ℕ → ℕ
number [] = 0
number (f ∷ fs) = f + u32 * number fs

abbrev pub span : List ℕ → ℕ
span [] = 1
span (f ∷ fs) = u32 * span fs

unfoldable pub value : Worksum → ℕ
value w = number w.fragments

pub number-lt-span : (fs : List ℕ) → Words fs → number fs < span fs
unfolding number
number-lt-span [] h = omega arith
number-lt-span (f ∷ fs) h = omega (arith, number-lt-span fs h.1)

pub span_eight : (fs : List ℕ) → length fs ≡ elements → span fs ≡ 2 ^ 256
span_eight (a ∷ b ∷ c ∷ d ∷ e ∷ f ∷ g ∷ h ∷ []) p = refl
span_eight fs p = absurd (omega arith)
