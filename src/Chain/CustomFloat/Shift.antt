-- ===== src/Chain/CustomFloat/Shift.antt =====
-- src/shared/src/block/header/custom_float.hpp: the loops that move a mantissa into its 32 bits.
use janusminer.Common.{
  ℕ, zero, suc, ◌+◌, ◌*◌, ◌/◌, ◌^◌, ◌≡◌, ◌≤◌, ◌<◌, inl, inr, refl, arith, Bool-cases,
}
use janusminer.Common.{Bool, true, some, ltb, leb}
use janusminer.Common.{
  ℤ, pos, ◌+ℤ◌, ◌-ℤ◌, ltb_ℤ, i32_max, i32_min, sub_zero, sub_one_sub, add_zero_right, add_one_add,
  pow-add, div-pow-suc,
}
use janusminer.Chain.CustomFloat.{
  CustomFloat, make, empty, set_exponent, set_nonzero_mantissa, set_assert, shift_left_loop,
  shift_left, shift_right_loop, shift_right,
}
use native.Mathlib.Nat.{pow-suc, mul_assoc, mul_comm, mul-one, div-one, add-suc}

-- A mantissa of 32 bits with the first one set.
abbrev pub IsFull : ℕ → Type 0
IsFull m = (2 ^ 31 ≤ m) × (m < 2 ^ 32)

-- An exponent that `set_exponent` takes.
abbrev pub IsExponent : ℤ → Type 0
IsExponent e = (ltb_ℤ e i32_max ≡ true) × (ltb_ℤ i32_min e ≡ true)

pub mul-double-pow : (m r : ℕ) → m * 2 * 2 ^ r ≡ m * 2 ^ suc r
mul-double-pow m r = rw (pow-suc 2 r, mul_assoc) (rw (mul_comm 2 (2 ^ r)) refl)

pub set_exponent_lem :
    (f : CustomFloat) (e : ℤ) → IsExponent e → set_exponent f e ≡ some (record f { exponent = e })
unfolding set_exponent
set_exponent_lem f e (small, large) = rw (small, large) refl

pub set_assert_lem :
    (f : CustomFloat) (e : ℤ) (m : ℕ)
    → IsFull m
    → IsExponent e
    → set_assert f e m ≡ some (record f { exponent = e; mantissa = m })
unfolding set_assert set_exponent set_nonzero_mantissa
set_assert_lem f e m (lo, hi) (small, large) = ground arith

pub make_lem :
    (e : ℤ) (m : ℕ) (p : Bool)
    → IsFull m
    → IsExponent e
    → make e m p ≡ some (record { exponent = e; mantissa = m; positive = p })
unfolding make
make_lem e m p full ok = rw (set_assert_lem empty e m full ok) refl

shift_left_loop_lem :
    (k : ℕ) (e : ℤ) (m : ℕ)
    → 2 ^ 31 ≤ m * 2 ^ k
    → m < 2 ^ 32
    → (r : ℕ) × (shift_left_loop (suc k) e m ≡ some (e -ℤ pos r, m * 2 ^ r))
      × IsFull (m * 2 ^ r)
      × (r ≤ k)
unfolding shift_left_loop
shift_left_loop_lem zero e m lo hi =
    (0, rw (sub_zero e, mul-one m) (ground arith), (omega arith, omega arith), omega arith)
shift_left_loop_lem (suc k) e m lo hi = elim (Bool-cases (ltb m (2 ^ 31))) [
  | inl p ↦
      let (r, eq, b, few) =
        shift_left_loop_lem k (e -ℤ pos 1) (m * 2) (rw (mul-double-pow m k) lo) (ground arith) in
      (
        suc r,
        rw (p, eq, sub_one_sub e r, mul-double-pow m r) refl,
        (rw (← mul-double-pow m r) b.0, rw (← mul-double-pow m r) b.1),
        omega arith,
      )
  | inr p ↦ (0, rw (p, sub_zero e, mul-one m) refl, (ground arith, omega arith), omega arith)
]

halve-pow : (k m : ℕ) → m < 2 ^ (32 + suc k) → m / 2 < 2 ^ (32 + k)
halve-pow k m h = rw (pow-add 32 k) (omega (arith, h'))
  where
    h' : m < 2 ^ 32 * 2 ^ k * 2
    h' = rw (← pow-add 32 k, ← pow-suc 2 (32 + k), ← add-suc) h

shift_right_loop_lem :
    (k : ℕ) (e : ℤ) (m : ℕ)
    → 2 ^ 31 ≤ m
    → m < 2 ^ (32 + k)
    → (r : ℕ) × (shift_right_loop (suc k) e m ≡ some (e +ℤ pos r, m / 2 ^ r)) × IsFull (m / 2 ^ r)
unfolding shift_right_loop
shift_right_loop_lem zero e m lo hi =
    (0, rw (add_zero_right e, div-one m) (ground arith), (omega arith, omega arith))
shift_right_loop_lem (suc k) e m lo hi = elim (Bool-cases (leb (2 ^ 32) m)) [
  | inl p ↦
      let (r, eq, b) =
        shift_right_loop_lem k (e +ℤ pos 1) (m / 2) (ground arith) (halve-pow k m hi) in
      (
        suc r,
        rw (p, eq, add_one_add e r, div-pow-suc m r) refl,
        (rw (div-pow-suc m r) b.0, rw (div-pow-suc m r) b.1),
      )
  | inr p ↦ (0, rw (p, add_zero_right e, div-one m) refl, (ground arith, ground arith))
]

pub shift_left_lem :
    (f : CustomFloat) (e : ℤ) (m : ℕ)
    → 0 < m
    → m < 2 ^ 32
    → (r : ℕ) × (r ≤ 31)
      × IsFull (m * 2 ^ r)
      × (IsExponent (e -ℤ pos r)
          → shift_left f e m ≡ some (record f { exponent = e -ℤ pos r; mantissa = m * 2 ^ r }))
unfolding shift_left
shift_left_lem f e m lo hi =
    let (r, eq, b, few) = shift_left_loop_lem 31 e m (omega arith) hi in
    (r, few, b, λ ok. rw (eq, set_assert_lem f (e -ℤ pos r) (m * 2 ^ r) b ok) (ground arith))

pub shift_right_lem :
    (f : CustomFloat) (e : ℤ) (m : ℕ)
    → 2 ^ 31 ≤ m
    → m < 2 ^ 64
    → (r : ℕ) × IsFull (m / 2 ^ r)
      × (IsExponent (e +ℤ pos r)
          → shift_right f e m ≡ some (record f { exponent = e +ℤ pos r; mantissa = m / 2 ^ r }))
unfolding shift_right
shift_right_lem f e m lo hi =
    let (r, eq, b) = shift_right_loop_lem 32 e m lo hi in
    (r, b, λ ok. rw (eq, set_assert_lem f (e +ℤ pos r) (m / 2 ^ r) b ok) (ground arith))
