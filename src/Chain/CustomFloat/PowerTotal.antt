-- ===== src/Chain/CustomFloat/PowerTotal.antt =====
-- src/shared/src/block/header/custom_float.hpp: the `assert`s of powers.
use janusminer.Common.{ℕ, ◌+◌, ◌-◌, ◌*◌, ◌/◌, ◌%◌, ◌^◌, ◌≡◌, ◌≤◌, ◌<◌, inl, inr, arith}
use janusminer.Common.{true, Option, some, bind-Returns, guard-Returns, if-Returns, u32, ◌==◌}
use janusminer.Common.{
  ℤ, pos, pos_part, neg_part, ◌+ℤ◌, ◌-ℤ◌, ltb_ℤ, i32_max, i32_min, int_laws, pow-add, -ℤ_parts,
  parts_disjoint,
}
use janusminer.Chain.CustomFloat.{CustomFloat, new_shift_left, add, subtract, multiply, negate}
use janusminer.Chain.CustomFloat.Power.{
  from_int, log2, pow2_fraction, pow2_part, pow2_whole, pow2, pow, from_exponent, add_exponent,
  negate_exponent,
}
use janusminer.Chain.CustomFloat.Shift.{IsFull, make_lem}
use janusminer.Chain.CustomFloat.Bounds.{
  Within, Gives, IsExponent-of_parts, widen, zero-is_zero, multiply-Gives,
}
use janusminer.Chain.CustomFloat.Sum.{full-is_zero}
use janusminer.Chain.CustomFloat.Total.{add-Gives}
use janusminer.Chain.CustomFloat.Polynomial.{
  set_exponent-Gives, new_shift_left-Gives, from_int-Gives, pow2_fraction-Gives, log2-Gives,
}
use native.Mathlib.Nat.{div-div-eq-div-mul, div-le_self}

add_exponent-Gives :
    (f : CustomFloat) (e : ℤ) (l h : ℕ)
    → Within l h f
    → l + neg_part e < 2 ^ 31
    → h + pos_part e < 2 ^ 31 - 1
    → Gives (add_exponent f e) (l + neg_part e) (h + pos_part e)
unfolding add_exponent
add_exponent-Gives f e l h w low high =
    set_exponent-Gives f (f.exponent +ℤ e) l h _ _ w (omega (int_laws, w.above, w.below))
      (omega (int_laws, w.above, w.below)) low high

negate_exponent-Gives :
    (f : CustomFloat) (l h : ℕ)
    → Within l h f
    → h < 2 ^ 31
    → l < 2 ^ 31 - 1
    → Gives (negate_exponent f) h l
unfolding negate_exponent
negate_exponent-Gives f l h w low high =
    set_exponent-Gives f (pos 0 -ℤ f.exponent) l h _ _ w (omega (int_laws, w.above, w.below))
      (omega (int_laws, w.above, w.below)) low high

widen-Gives :
    {o : Option CustomFloat} {l h l' h' : ℕ} → Gives o l h → l ≤ l' → h ≤ h' → Gives o l' h'
widen-Gives (c, eq, w) more higher = (c, eq, widen c w more higher)

abbrev pub bound : ℕ
bound = 2 ^ 24

pub pow2_part-Gives :
    (x : CustomFloat) (l : ℕ) → Within l 0 x → l < 2 ^ 19 → Gives (pow2_part x) bound bound
unfolding pow2_part
pow2_part-Gives x l w low =
    if-Returns x.positive _ _
      (λ _.
        widen-Gives (pow2_fraction-Gives x l 0 w (omega arith) (omega arith)) (omega arith)
          (omega arith))
      (λ _.
        bind-Returns (from_int (pos 1)) _ (from_int-Gives (pos 1) (omega arith) (omega arith))
          (λ one w1.
            bind-Returns (add one x) _
              (add-Gives one x l 20 (widen one w1 (omega arith) (omega arith))
                (widen x w (omega arith) (omega arith)) (omega arith) (omega arith))
              (λ s ws.
                bind-Returns (pow2_fraction s) _
                  (pow2_fraction-Gives s (l + 31) 21 ws (omega arith) (omega arith))
                  (λ p wp.
                    bind-Returns (negate_exponent p) _
                      (negate_exponent-Gives p _ _ wp (omega arith) (omega arith))
                      (λ n wn.
                        widen-Gives
                          (add_exponent-Gives n (pos 1) _ _ wn (omega arith) (omega arith))
                          (omega arith) (omega arith))))))

pub from_exponent_lem :
    (n : ℕ)
    → n < 2 ^ 31 - 2
    → from_exponent (pos n)
      ≡ some (record { exponent = pos n +ℤ pos 1; mantissa = 0x80000000; positive = true })
unfolding from_exponent
from_exponent_lem n small =
    rw (not_above, not_below)
      (make_lem (pos n +ℤ pos 1) 0x80000000 true (omega arith, omega arith)
        (IsExponent-of_parts _ (omega int_laws) (omega int_laws)))
  where
    not_above : ltb_ℤ (pos n) (i32_max -ℤ pos 1) ≡ true
    not_above = ground (arith, -ℤ_parts i32_max (pos 1), parts_disjoint (i32_max -ℤ pos 1))

    not_below : ltb_ℤ (i32_min -ℤ pos 1) (pos n) ≡ true
    not_below = ground (arith, -ℤ_parts i32_min (pos 1), parts_disjoint (i32_min -ℤ pos 1))

from_exponent-Gives : (n : ℕ) → n < 2 ^ 22 → Gives (from_exponent (pos n)) 0 (n + 1)
from_exponent-Gives n small = (
  record { exponent = pos n +ℤ pos 1; mantissa = 0x80000000; positive = true },
  from_exponent_lem n (omega arith),
  record {
    normal = inr (omega arith, omega arith);
    above = omega int_laws;
    below = omega int_laws;
  },
)

-- The whole part of a number with an exponent up to 21.
whole_small : (m k : ℕ) → m < 2 ^ 32 → k ≤ 21 → m / 2 ^ (32 - k) < 2 ^ 21
whole_small m k full few =
    rw (places, pow-add 11 (21 - k), ← div-div-eq-div-mul)
      (omega (arith, div-le_self (m / 2 ^ 11) (2 ^ (21 - k))))
  where
    places : 32 - k ≡ 11 + (21 - k)
    places = omega arith

subtract-Gives :
    (a b : CustomFloat) (l h : ℕ)
    → Within l h a
    → Within l h b
    → l + 31 < 2 ^ 31
    → l + h + 1 < 2 ^ 31 - 1
    → Gives (subtract a b) (l + 31) (h + 1)
unfolding subtract negate
subtract-Gives a b l h wa wb low high =
    add-Gives a (negate b) l h wa
      (record { normal = wb.normal; above = wb.above; below = wb.below }) low high

pub pow2_whole-Gives :
    (x : CustomFloat) (k : ℕ) → IsFull x.mantissa → k ≤ 21 → Gives (pow2_whole x k) bound bound
unfolding pow2_whole
pow2_whole-Gives x k full few =
    if-Returns (x.mantissa * 2 ^ k % u32 == 0) _ _
      (λ _.
        if-Returns x.positive _ _
          (λ _.
            widen-Gives (from_exponent-Gives _ (omega (arith, small))) (omega arith)
              (omega (arith, small)))
          (λ _.
            bind-Returns (from_exponent (pos (x.mantissa / 2 ^ (32 - k)))) _
              (from_exponent-Gives _ (omega (arith, small)))
              (λ p wp.
                bind-Returns (negate_exponent p) _
                  (negate_exponent-Gives p _ _ wp (omega (arith, small)) (omega (arith, small)))
                  (λ n wn.
                    widen-Gives
                      (add_exponent-Gives n (pos 2) _ _ wn (omega (arith, small))
                        (omega (arith, small)))
                      (omega (arith, small)) (omega (arith, small))))))
      (λ nonzero.
        bind-Returns (new_shift_left (pos 0) (x.mantissa * 2 ^ k % u32) true) _
          (new_shift_left-Gives (pos 0) _ true (ground arith) (omega arith) (omega arith)
            (omega arith))
          (λ frac wf.
            if-Returns x.positive _ _
              (λ _.
                bind-Returns (pow2_fraction frac) _
                  (pow2_fraction-Gives frac 31 0 wf (omega arith) (omega arith))
                  (λ p wp.
                    widen-Gives
                      (add_exponent-Gives p (pos (x.mantissa / 2 ^ (32 - k))) _ _ wp
                        (omega (arith, small)) (omega (arith, small)))
                      (omega (arith, small)) (omega (arith, small))))
              (λ _.
                bind-Returns (from_int (pos 1)) _
                  (from_int-Gives (pos 1) (omega arith) (omega arith))
                  (λ one w1.
                    bind-Returns (subtract one frac) _
                      (subtract-Gives one frac 31 20 (widen one w1 (omega arith) (omega arith))
                        (widen frac wf (omega arith) (omega arith)) (omega arith) (omega arith))
                      (λ r wr.
                        bind-Returns (pow2_fraction r) _
                          (pow2_fraction-Gives r 62 21 wr (omega arith) (omega arith))
                          (λ p wp.
                            bind-Returns (add_exponent p (pos (x.mantissa / 2 ^ (32 - k)) -ℤ pos 1))
                              _
                              (add_exponent-Gives p (pos (x.mantissa / 2 ^ (32 - k)) -ℤ pos 1) _ _
                                wp (omega (int_laws, small)) (omega (int_laws, small)))
                              (λ p' wp'.
                                widen-Gives
                                  (negate_exponent-Gives p' _ _ wp' (omega (int_laws, small))
                                    (omega (int_laws, small)))
                                  (omega (int_laws, small)) (omega (int_laws, small)))))))))
  where
    small : x.mantissa / 2 ^ (32 - k) < 2 ^ 21
    small = whole_small x.mantissa k full.1 few

pub pow2-Gives : (x : CustomFloat) (l : ℕ) → Within l 21 x → l < 2 ^ 19 → Gives (pow2 x) bound bound
unfolding pow2
pow2-Gives x l w low = elim w.normal [
  | inl z ↦
      rw (zero-is_zero x z) (
        widen-Gives (from_int-Gives (pos 1) (omega arith) (omega arith)) (omega arith)
          (omega arith))
  | inr full ↦ rw (full-is_zero x full) (
      guard-Returns _ (ground (arith, w.below)) (
        if-Returns (ltb_ℤ (pos 0) x.exponent) _ _
          (λ _. pow2_whole-Gives x (pos_part x.exponent) full w.below)
          (λ below.
            pow2_part-Gives x l
              (record { normal = w.normal; above = w.above; below = ground (arith, below) }) low)))
]

-- The power of a positive number to an exponent below 1, and its bounds.
pub pow-Gives :
    (b e : CustomFloat)
    → IsFull b.mantissa
    → b.positive ≡ true
    → neg_part b.exponent < 2 ^ 20
    → pos_part b.exponent < 2 ^ 20
    → Within (2 ^ 16) 0 e
    → Gives (pow b e) bound bound
unfolding pow
pow-Gives b e full positive low high we =
    bind-Returns (log2 b) _ (log2-Gives b full positive low high) (λ l wl.
      bind-Returns (multiply e l) _ (multiply-Gives e l _ _ _ _ we wl (omega arith) (omega arith))
        (λ p wp. pow2-Gives p _ wp (omega arith)))
