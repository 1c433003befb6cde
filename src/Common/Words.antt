-- ===== src/Common/Words.antt =====
-- Moduli of the machine words, and powers of two.
use Prim.Native.Nat.{ℕ, zero, suc, ◌+◌, ◌*◌, ◌/◌, ◌^◌, ◌<◌}
use mathlib.Core.Path.{◌≡◌, ap}
use native.Mathlib.Omega.{arith}
use native.Mathlib.Nat.{pow-suc, pow-succ', zero-add, suc-add, div-div-eq-div-mul}

abbrev pub u8 : ℕ
u8 = 2 ^ 8

abbrev pub u16 : ℕ
u16 = 2 ^ 16

abbrev pub u32 : ℕ
u32 = 2 ^ 32

abbrev pub u64 : ℕ
u64 = 2 ^ 64

pub pow-add : (m n : ℕ) → 2 ^ (m + n) ≡ 2 ^ m * 2 ^ n
pow-add zero n = rw zero-add (omega arith)
pow-add (suc m) n =
    rw (suc-add, pow-suc 2 (m + n), pow-suc 2 m)
      (omega (arith, ap (λ (t : ℕ). t * 2) (pow-add m n)))

pub pow_pos : (n : ℕ) → 0 < 2 ^ n
pow_pos zero = omega arith
pow_pos (suc n) = rw pow-suc (omega (arith, pow_pos n))

pub pow-suc-mul : (k n : ℕ) → 2 ^ suc k * n ≡ 2 ^ k * (2 * n)
pow-suc-mul k n = rw (pow-suc 2 k) (omega arith)

pub div-pow-suc : (n s : ℕ) → n / 2 ^ suc s ≡ n / 2 / 2 ^ s
div-pow-suc n s = rw (pow-succ', div-div-eq-div-mul)
