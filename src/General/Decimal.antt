-- ===== src/General/Decimal.antt =====
-- `std::to_string` on unsigned integers and `std::stoull` on texts of digits, as the standard library
-- documents them. A text is the list of its character codes.
use janusminer.Common.{ℕ, zero, suc, ◌+◌, ◌-◌, ◌*◌, ◌/◌, ◌%◌, ◌^◌, ◌≡◌, ◌<◌, ◌≤◌, arith, refl}
use janusminer.Common.{
  List, [], ◌∷◌, ◌++◌, All, length, length-append, All-append, ltb, if◌then◌else◌, Bool-cases,
}
use janusminer.Common.{inl, inr, ap, sym, true, ◌∙◌, replicate}
use native.Mathlib.Nat.{pow-suc}

abbrev pub IsDigit : ℕ → Type 0
IsDigit c = (b'0' ≤ c) × (c ≤ b'9')

-- The digits of `n`, highest first and with no zero in front, if there are at most `fuel`.
unfoldable pub decimal : ℕ → ℕ → List ℕ
decimal zero n = []
decimal (suc fuel) n =
    let rest = decimal fuel (n / 10) in
    if ltb n 10 then (b'0' + n) ∷ [] else rest ++ (b'0' + n % 10) ∷ []

-- A `uint64_t` has at most 20 digits.
abbrev pub to_string : ℕ → List ℕ
to_string = decimal 20

-- The number that digits stand for, behind those that stand for `acc`.
unfoldable pub read_digits : ℕ → List ℕ → ℕ
read_digits acc [] = acc
read_digits acc (c ∷ s) = read_digits (acc * 10 + (c - b'0')) s

pub read_digits-append :
    (acc : ℕ) (s t : List ℕ) → read_digits acc (s ++ t) ≡ read_digits (read_digits acc s) t
unfolding read_digits
read_digits-append acc [] t = refl
read_digits-append acc (c ∷ s) t = read_digits-append (acc * 10 + (c - b'0')) s t

pub read_digits-zeros : (n : ℕ) → read_digits 0 (replicate n b'0') ≡ 0
unfolding read_digits
read_digits-zeros zero = refl
read_digits-zeros (suc n) = read_digits-zeros n

-- A text of digits, at most `k` and at least one, that stands for `n`.
pub record Prints (k n : ℕ) (s : List ℕ) : Type 0 where
  pub reads : read_digits 0 s ≡ n
  pub digits : All IsDigit s
  pub most : length s ≤ k
  pub least : 0 < length s

Prints-digit : (n : ℕ) → n < 10 → Prints 1 n ((b'0' + n) ∷ [])
unfolding read_digits
Prints-digit n h = omega arith

Prints-snoc :
    (k q d : ℕ) (s : List ℕ)
    → d < 10
    → Prints k q s
    → Prints (suc k) (q * 10 + d) (s ++ (b'0' + d) ∷ [])
Prints-snoc k q d s h p =
    let l = length-append s ((b'0' + d) ∷ []) in
    record {
      reads = rw (read_digits-append, p.reads) (unfold read_digits in omega arith);
      digits = All-append IsDigit s _ p.digits (omega arith);
      most = omega (arith, l, p.most);
      least = omega (arith, l);
    }

decimal-suc :
    (k n : ℕ)
    → decimal (suc k) n
      ≡ (if ltb n 10 then (b'0' + n) ∷ [] else decimal k (n / 10) ++ (b'0' + n % 10) ∷ [])
unfolding decimal
decimal-suc k n = refl

widen : (k n : ℕ) (s : List ℕ) → Prints 1 n s → Prints (suc k) n s
widen k n s p = record {
  reads = p.reads;
  digits = p.digits;
  most = omega (arith, p.most);
  least = p.least;
}

-- Reading what was printed gives the number back.
pub decimal-Prints : (k n : ℕ) → n < 10 ^ suc k → Prints (suc k) n (decimal (suc k) n)
decimal-Prints zero n h =
    let c : ltb n 10 ≡ true = ground arith in rw (decimal-suc, c) (Prints-digit n (omega arith))
decimal-Prints (suc k) n h = elim (Bool-cases (ltb n 10)) [
  | inl c ↦ rw (decimal-suc, c) (widen (suc k) n _ (Prints-digit n (ground arith)))
  | inr c ↦
      let r = decimal-Prints k (n / 10) (omega (arith, rw (pow-suc 10 (suc k)) at h)) in
      let e : n / 10 * 10 + n % 10 ≡ n = omega arith in
      rw (decimal-suc, c)
        (rw e at (Prints-snoc (suc k) (n / 10) (n % 10) (decimal (suc k) (n / 10)) (omega arith) r))
]

-- Fuel for one more digit than there is changes nothing.
pub decimal-suc-suc : (k n : ℕ) → n < 10 ^ suc k → decimal (suc (suc k)) n ≡ decimal (suc k) n
decimal-suc-suc zero n h = let c : ltb n 10 ≡ true = ground arith in unfold decimal in rw c
decimal-suc-suc (suc k) n h =
    decimal-suc (suc (suc k)) n
    ∙ ap (λ l. if ltb n 10 then (b'0' + n) ∷ [] else l ++ (b'0' + n % 10) ∷ [])
        (decimal-suc-suc k (n / 10) (omega (arith, rw (pow-suc 10 (suc k)) at h)))
    ∙ sym (decimal-suc (suc k) n)

-- A number below 10 ^ 16 is printed as by 16 rounds.
pub to_string-Prints : (n : ℕ) → n < 10 ^ 16 → Prints 16 n (to_string n)
to_string-Prints n h =
    rw
      (
        decimal-suc-suc 18 n (omega arith),
        decimal-suc-suc 17 n (omega arith),
        decimal-suc-suc 16 n (omega arith),
        decimal-suc-suc 15 n h,
      )
      (decimal-Prints 15 n h)
