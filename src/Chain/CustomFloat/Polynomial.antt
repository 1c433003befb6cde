-- ===== src/Chain/CustomFloat/Polynomial.antt =====
-- src/shared/src/block/header/custom_float.hpp: the `assert`s of polynomials and logarithm.
use janusminer.Common.{ℕ, zero, suc, ◌+◌, ◌-◌, ◌*◌, ◌^◌, ◌≡◌, ◌≤◌, ◌<◌, ◌⊎◌, inl, inr, refl, arith}
use janusminer.Common.{Bool, true, false, some, bind-Returns, guard-Returns, ltb}
use janusminer.Common.{ℤ, pos, negsuc, pos_part, neg_part, ◌-ℤ◌, int_laws}
use janusminer.Chain.CustomFloat.{
  CustomFloat, make, set_exponent, set_assert, set_nonzero_mantissa, new_shift_left, add, multiply,
  empty,
}
use janusminer.Chain.CustomFloat.Power.{from_int, cubic, log2_polynomial, log2, pow2_fraction}
use janusminer.Chain.CustomFloat.Shift.{IsFull, shift_left_lem}
use janusminer.Chain.CustomFloat.Bounds.{Within, Gives, IsExponent-of_parts, widen, multiply-Gives}
use janusminer.Chain.CustomFloat.Sum.{full-is_zero}
use janusminer.Chain.CustomFloat.Total.{add-Gives}
use native.Mathlib.Nat.{mul-le-mul, pow-le-pow_right}

-- A polynomial step `c + x * s`.
step-Gives :
    (c x s : CustomFloat) (l h l' h' : ℕ)
    → Within l h x
    → Within l' h' s
    → Within l' h' c
    → l + l' + 32 < 2 ^ 31
    → l + l' + h + h' + 2 < 2 ^ 31 - 1
    → (p : CustomFloat) × (multiply x s ≡ some p) × Gives (add c p) (l + l' + 32) (h + h' + 1)
step-Gives c x s l h l' h' wx ws wc low high =
    let (p, eq, wp) = multiply-Gives x s l h l' h' wx ws (omega arith) (omega arith) in
    let (q, eq', wq) =
      add-Gives c p (l + l' + 1) (h + h') (widen c wc (omega arith) (omega arith)) wp (omega arith)
        (omega arith) in
    (p, eq, (q, eq', widen q wq (omega arith) (omega arith)))

pub cubic-Gives :
    (k0 k1 k2 k3 x : CustomFloat) (l h : ℕ)
    → Within 3 3 k0
    → Within 3 3 k1
    → Within 3 3 k2
    → Within 3 3 k3
    → Within l h x
    → l < 2 ^ 20
    → h < 2 ^ 20
    → Gives (cubic (some k0) (some k1) (some k2) (some k3) x) (3 * l + 99) (3 * h + 6)
unfolding cubic
cubic-Gives k0 k1 k2 k3 x l h w0 w1 w2 w3 wx low high =
    let (p0, e0, (s1, f1, v1)) = step-Gives k1 x k0 l h 3 3 wx w0 w1 (omega arith) (omega arith) in
    let (p1, e1, (s2, f2, v2)) =
      step-Gives k2 x s1 l h (l + 35) (h + 4) wx (widen s1 v1 (omega arith) (omega arith))
        (widen k2 w2 (omega arith) (omega arith)) (omega arith) (omega arith) in
    let (p2, e2, (s3, f3, v3)) =
      step-Gives k3 x s2 l h (l + l + 67) (h + h + 5) wx (widen s2 v2 (omega arith) (omega arith))
        (widen k3 w3 (omega arith) (omega arith)) (omega arith) (omega arith) in
    (s3, rw (e0, f1, e1, f2, e2) f3, widen s3 v3 (omega arith) (omega arith))

pub set_exponent-Gives :
    (f : CustomFloat) (e : ℤ) (l h l' h' : ℕ)
    → Within l h f
    → neg_part e ≤ l'
    → pos_part e ≤ h'
    → l' < 2 ^ 31
    → h' < 2 ^ 31 - 1
    → Gives (set_exponent f e) l' h'
unfolding set_exponent
set_exponent-Gives f e l h l' h' w lo hi low high =
    let (small, large) = IsExponent-of_parts e (omega arith) (omega arith) in
    (
      record f { exponent = e },
      rw (small, large) refl,
      record { normal = w.normal; above = lo; below = hi },
    )

-- A whole number of `k` bits has an exponent up to `k`.
pub new_shift_left-Gives :
    (e : ℤ) (n : ℕ) (p : Bool)
    → 0 < n
    → n < 2 ^ 32
    → neg_part e < 2 ^ 30
    → pos_part e < 2 ^ 30
    → Gives (new_shift_left e n p) (neg_part e + 31) (pos_part e)
unfolding new_shift_left
new_shift_left-Gives e n p lo hi low high =
    let (r, few, full, eq) = shift_left_lem empty e n lo hi in
    (
      record { exponent = e -ℤ pos r; mantissa = n * 2 ^ r; positive = p },
      rw (eq (IsExponent-of_parts _ (omega int_laws) (omega int_laws))) refl,
      record { normal = inr full; above = omega int_laws; below = omega int_laws },
    )

many_places : (n r : ℕ) → n < 2 ^ 20 → 2 ^ 31 ≤ n * 2 ^ r → 12 ≤ r
many_places n r small full = elim (few_or_many r) [
  | inl few ↦ absurd (omega (arith, full, product few))
  | inr many ↦ many
]
  where
    few_or_many : (k : ℕ) → (k ≤ 11) ⊎ (12 ≤ k)
    few_or_many k = omega arith

    product : r ≤ 11 → n * 2 ^ r ≤ (2 ^ 20 - 1) * 2 ^ 11
    product few =
        mul-le-mul {n₂ = 2 ^ 20 - 1} (omega arith) (pow-le-pow_right {n = 2} (omega arith) few)

pub whole-Gives : (n : ℕ) (p : Bool) → 0 < n → n < 2 ^ 20 → Gives (new_shift_left (pos 32) n p) 0 20
unfolding new_shift_left
whole-Gives n p lo hi =
    let (r, few, full, eq) = shift_left_lem empty (pos 32) n lo (omega arith) in
    (
      record { exponent = pos 32 -ℤ pos r; mantissa = n * 2 ^ r; positive = p },
      rw (eq (IsExponent-of_parts _ (omega int_laws) (omega int_laws))) refl,
      record {
        normal = inr full;
        above = omega int_laws;
        below = omega (int_laws, many_places n r hi full.0);
      },
    )

pub from_int-Gives : (i : ℤ) → neg_part i < 2 ^ 20 → pos_part i < 2 ^ 20 → Gives (from_int i) 0 20
unfolding from_int make set_assert set_exponent
from_int-Gives (pos zero) low high =
    (_, refl, record { normal = inl refl; above = omega arith; below = omega arith })
from_int-Gives (pos (suc n)) low high = whole-Gives (suc n) true (omega arith) high
from_int-Gives (negsuc n) low high = rw fits (whole-Gives (suc n) false (omega arith) low)
  where
    fits : ltb n (2 ^ 31 - 1) ≡ true
    fits = ground arith

-- A constant of the polynomials.
make-Within :
    (e : ℤ) (m : ℕ) (p : Bool)
    → IsFull m
    → neg_part e ≤ 3
    → pos_part e ≤ 3
    → Within 3 3 (record { exponent = e; mantissa = m; positive = p })
make-Within e m p full lo hi = record { normal = inr full; above = lo; below = hi }

pub pow2_fraction-Gives :
    (x : CustomFloat) (l h : ℕ)
    → Within l h x
    → l < 2 ^ 20
    → h < 2 ^ 20
    → Gives (pow2_fraction x) (3 * l + 99) (3 * h + 6)
unfolding pow2_fraction make set_assert set_exponent set_nonzero_mantissa
pow2_fraction-Gives x l h w low high =
    cubic-Gives _ _ _ _ x l h
      (make-Within (negsuc 2) 3207796260 true (omega arith, omega arith) (omega arith)
        (omega arith))
      (make-Within (negsuc 1) 3510493713 true (omega arith, omega arith) (omega arith)
        (omega arith))
      (make-Within (pos 0) 3014961390 true (omega arith, omega arith) (omega arith) (omega arith))
      (make-Within (pos 1) 2147933481 true (omega arith, omega arith) (omega arith) (omega arith)) w
      low high

log2_polynomial-Gives : (x : CustomFloat) → Within 0 0 x → Gives (log2_polynomial x) 99 6
unfolding log2_polynomial make set_assert set_exponent set_nonzero_mantissa
log2_polynomial-Gives x w =
    cubic-Gives _ _ _ _ x 0 0
      (make-Within (pos 1) 2872373668 true (omega arith, omega arith) (omega arith) (omega arith))
      (make-Within (pos 3) 2377545675 false (omega arith, omega arith) (omega arith) (omega arith))
      (make-Within (pos 3) 3384280813 true (omega arith, omega arith) (omega arith) (omega arith))
      (make-Within (pos 2) 3451338727 false (omega arith, omega arith) (omega arith) (omega arith))
      w (omega arith) (omega arith)

pub log2-Gives :
    (x : CustomFloat)
    → IsFull x.mantissa
    → x.positive ≡ true
    → neg_part x.exponent < 2 ^ 20
    → pos_part x.exponent < 2 ^ 20
    → Gives (log2 x) 130 21
unfolding log2
log2-Gives x full positive low high = rw (full-is_zero x full) (
    guard-Returns _ positive (
      bind-Returns (set_exponent x (pos 0)) _
        (set_exponent-Gives x (pos 0) (2 ^ 20) (2 ^ 20) 0 0
          (record { normal = inr full; above = omega arith; below = omega arith }) (omega arith)
          (omega arith) (omega arith) (omega arith))
        (λ x' wx. bind-Returns (log2_polynomial x') _ (log2_polynomial-Gives x' wx) (λ d wd.
          bind-Returns (from_int x.exponent) _ (from_int-Gives x.exponent low high) (λ i wi.
            add-Gives i d 99 20 (widen i wi (omega arith) (omega arith))
              (widen d wd (omega arith) (omega arith)) (omega arith) (omega arith))))))
