-- ===== src/Chain/Worksum/Order.antt =====
-- Proofs on the comparisons of `Worksum` (src/shared/src/block/chain/worksum.hpp).
use janusminer.Common.{ℕ, ◌+◌, ◌*◌, ◌≡◌, ◌<◌, ◌≤◌, ◌↔◌, refl, arith, List, [], ◌∷◌}
use janusminer.Common.{Bool, true, false, Option, none, some, Bool-cases, ==_iff, inl, inr}
use janusminer.Common.{u32, length, ltb, ◌==◌, if◌then◌else◌}
use janusminer.Chain.Worksum.{Worksum, IsWorksum, first_difference, same_fragments}
use janusminer.Chain.Worksum.{◌<w◌, ◌>w◌, ◌≤w◌, ◌≥w◌, ◌==w◌}
use janusminer.Chain.Worksum.Value.{Words, number, value}

-- How two numbers of as many fragments compare, by the result of the comparison loop.
abbrev Compares : Option Bool → ℕ → ℕ → Type 0
Compares none m n = m ≡ n
Compares (some true) m n = m < n
Compares (some false) m n = n < m

first_difference-Compares :
    (fs ws : List ℕ)
    → Words fs
    → Words ws
    → length fs ≡ length ws
    → Compares (first_difference fs ws) (number fs) (number ws)
unfolding number first_difference
first_difference-Compares [] [] p q e = refl
first_difference-Compares [] (w ∷ ws) p q e = absurd (omega arith)
first_difference-Compares (f ∷ fs) [] p q e = absurd (omega arith)
first_difference-Compares (f ∷ fs) (w ∷ ws) p q e =
    go (first_difference fs ws) (first_difference-Compares fs ws p.1 q.1 (omega arith))
  where
    go :
        (r : Option Bool)
        → Compares r (number fs) (number ws)
        → Compares
            (elim r [ some b ↦ some b | none ↦ if f == w then none else some (ltb f w) ])
            (f + u32 * number fs)
            (w + u32 * number ws)
    go none h = elim (Bool-cases (f == w)) [
      | inl e1 ↦ rw e1 (omega (arith, (==_iff f w).0 e1))
      | inr e1 ↦ elim (Bool-cases (ltb f w)) [
        | inl e2 ↦ rw (e1, e2) (ground arith)
        | inr e2 ↦ rw (e1, e2) (ground arith)
      ]
    ]
    go (some true) h = omega arith
    go (some false) h = omega arith

same_fragments_iff :
    (fs ws : List ℕ)
    → Words fs
    → Words ws
    → length fs ≡ length ws
    → (same_fragments fs ws ≡ true) ↔ (number fs ≡ number ws)
unfolding number same_fragments
same_fragments_iff [] [] p q e = ground arith
same_fragments_iff [] (w ∷ ws) p q e = absurd (omega arith)
same_fragments_iff (f ∷ fs) [] p q e = absurd (omega arith)
same_fragments_iff (f ∷ fs) (w ∷ ws) p q e =
    let (to, from) = same_fragments_iff fs ws p.1 q.1 (omega arith) in
    (λ h. ground (arith, to), λ h. ground (arith, from))

module _ (a b : Worksum) (va : IsWorksum a) (vb : IsWorksum b) where
  same_length : length a.fragments ≡ length b.fragments
  same_length = omega (arith, va.size, vb.size)

  eq_iff : ((a ==w b) ≡ true) ↔ (value a ≡ value b)
  unfolding value ◌==w◌
  eq_iff = same_fragments_iff a.fragments b.fragments va.words vb.words same_length

  less_iff : ((a <w b) ≡ true) ↔ (value a < value b)
  unfolding ◌<w◌ value
  less_iff =
      go (first_difference a.fragments b.fragments)
        (first_difference-Compares a.fragments b.fragments va.words vb.words same_length)
    where
      go :
          (r : Option Bool)
          → Compares r (value a) (value b)
          → (elim r [ some r ↦ r | none ↦ false ] ≡ true) ↔ (value a < value b)
      go none h = ground arith
      go (some true) h = ground arith
      go (some false) h = ground arith

-- The five comparisons of two sums of eight 32-bit fragments are those of the numbers they stand
-- for.
pub compare_values :
    (a b : Worksum)
    → IsWorksum a
    → IsWorksum b
    → (((a <w b) ≡ true) ↔ (value a < value b))
      × (((a >w b) ≡ true) ↔ (value b < value a))
      × (((a ≤w b) ≡ true) ↔ (value a ≤ value b))
      × (((a ≥w b) ≡ true) ↔ (value b ≤ value a))
      × (((a ==w b) ≡ true) ↔ (value a ≡ value b))
unfolding ◌>w◌ ◌≤w◌ ◌≥w◌
compare_values a b va vb =
    let lt = less_iff a b va vb in
    let gt = less_iff b a vb va in
    let eq = eq_iff a b va vb in (lt, gt, ground (arith, gt), ground (arith, gt, eq), eq)
