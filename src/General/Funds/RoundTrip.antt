-- ===== src/General/Funds/RoundTrip.antt =====
-- Proofs on `Funds::to_string` and `Funds::parse` (src/shared/src/general/funds.cpp).
use janusminer.Common.{ℕ, suc, ◌+◌, ◌-◌, ◌^◌, ◌≡◌, ◌<◌, ◌≤◌, arith, refl, ap}
use janusminer.Common.{
  Option, none, some, List, [], ◌∷◌, ◌++◌, All, length-append, All-append, All-take, All-drop,
  All-replicate,
}
use janusminer.Common.{take-append-drop, length-take, length-drop, length-replicate}
use janusminer.Common.{u64, leb, ◌==◌, length, take, drop, replicate, Bool-cases}
use janusminer.Common.{append_assoc, append-nil, inl, inr, ◌∙◌, sym, ==_iff}
use janusminer.General.Decimal.{to_string, read_digits, IsDigit, to_string-Prints, Prints}
use janusminer.General.Decimal.{read_digits-append, read_digits-zeros}
use janusminer.General.Funds.{Funds, value, overrun, parse_loop, parse, print}
use janusminer.General.Funds.{insert_dot, finish, read_buffer, is_zero}

-- The loop over digits before the dot and behind it.
digits_before :
    (i : ℕ) (buf s t : List ℕ)
    → All IsDigit s
    → i + length s ≤ 17
    → parse_loop i none buf (s ++ t) ≡ parse_loop (i + length s) none (buf ++ s) t
unfolding parse_loop
digits_before i buf [] t d h = ground (arith, append-nil buf)
digits_before i buf (c ∷ s) t d h =
    ground (arith, digits_before (i + 1) (buf ++ c ∷ []) s t, append_assoc buf (c ∷ []) s)

digits_after :
    (i k : ℕ) (buf s : List ℕ)
    → All IsDigit s
    → i + length s ≤ 18
    → parse_loop i (some k) buf s ≡ some (i + length s, some k, buf ++ s)
unfolding parse_loop
digits_after i k buf [] d h = ground (arith, append-nil buf)
digits_after i k buf (c ∷ s) d h =
    ground (arith, digits_after (i + 1) k (buf ++ c ∷ []) s, append_assoc buf (c ∷ []) s)

at_dot :
    (i : ℕ) (buf t : List ℕ)
    → i ≤ 16
    → parse_loop i none buf (b'.' ∷ t) ≡ parse_loop (i + 1) (some i) buf t
unfolding parse_loop
at_dot i buf t h = ground arith

read_buffer_lem :
    (s : List ℕ) (n : ℕ)
    → 0 < length s
    → read_digits 0 s ≡ n
    → n < u64
    → read_buffer s 0 ≡ value (record { e8 = n })
unfolding read_buffer
read_buffer_lem [] n p e h = absurd (omega arith)
read_buffer_lem (c ∷ s) n p e h = rw e (ground arith)

finish_eight :
    (i d : ℕ) (s : List ℕ)
    → length s < 17
    → d ≤ 8
    → i ≡ d + 9
    → finish i (some d) s ≡ read_buffer s 0
unfolding finish
finish_eight i d s h p e = ground arith

parse-eq-finish :
    (s : List ℕ) {i : ℕ} {d : Option ℕ} {buf : List ℕ}
    → parse_loop 0 none [] s ≡ some (i, d, buf)
    → parse s ≡ finish i d buf
unfolding parse
parse-eq-finish s e = rw (e, parse)

-- A text of digits with a dot before the last eight.
parse-insert_dot :
    (s : List ℕ) (n : ℕ)
    → Prints 16 n s
    → 9 ≤ length s
    → n < u64
    → parse (insert_dot 8 s) ≡ value (record { e8 = n })
parse-insert_dot s n p h u =
    let k : ℕ = length s - 8 in
    let front = take k s in
    let back = drop k s in
    let l1 = length-take k s in
    let l2 = length-drop k s in
    let d1 = All-take IsDigit k s p.digits in
    let d2 = All-drop IsDigit k s p.digits in
    let loop =
      digits_before 0 [] front (b'.' ∷ back) d1 (omega (arith, l1, p.most))
      ∙ at_dot (0 + length front) front back (omega (arith, l1, p.most))
      ∙ digits_after (0 + length front + 1) (0 + length front) front back d2
          (omega (arith, l1, l2, p.most)) in
    unfold insert_dot in
    parse-eq-finish (front ++ b'.' ∷ back) loop
    ∙ rw (take-append-drop k s) (
        finish_eight _ _ s (omega (arith, p.most)) (omega (arith, l1, p.most))
          (omega (arith, l1, l2)))
    ∙ read_buffer_lem s n p.least p.reads u

leading_zeros : (k : ℕ) (s : List ℕ) → read_digits 0 (replicate k b'0' ++ s) ≡ read_digits 0 s
leading_zeros k s = rw (read_digits-append, read_digits-zeros)

-- A text of fewer digits behind a 0, a dot and zeros.
parse_padded :
    (s : List ℕ) (n : ℕ)
    → Prints 16 n s
    → length s ≤ 8
    → n < u64
    → parse (b'0' ∷ b'.' ∷ replicate (8 - length s) b'0' ++ s) ≡ value (record { e8 = n })
parse_padded s n p h u =
    let zeros : List ℕ = replicate (8 - length s) b'0' in
    let l1 = length-replicate {A = ℕ} (8 - length s) b'0' in
    let l2 = length-append zeros s in
    let d =
      All-append IsDigit zeros s (All-replicate IsDigit (8 - length s) b'0' (omega arith))
        p.digits in
    let loop =
      digits_before 0 [] (b'0' ∷ []) (b'.' ∷ zeros ++ s) (omega arith) (omega arith)
      ∙ at_dot 1 (b'0' ∷ []) (zeros ++ s) (omega arith)
      ∙ digits_after 2 1 (b'0' ∷ []) (zeros ++ s) d (omega (arith, l1, l2)) in
    parse-eq-finish (b'0' ∷ b'.' ∷ zeros ++ s) loop
    ∙ finish_eight _ _ (b'0' ∷ zeros ++ s) (omega (arith, l1, l2)) (omega arith)
        (omega (arith, l1, l2))
    ∙ read_buffer_lem (b'0' ∷ zeros ++ s) n (omega arith) zeros_first u
  where
    zeros_first : read_digits 0 (b'0' ∷ replicate (8 - length s) b'0' ++ s) ≡ n
    zeros_first = leading_zeros (suc (8 - length s)) s ∙ p.reads

parse_zero : parse (b'0' ∷ []) ≡ value (record { e8 = 0 })
unfolding parse parse_loop finish read_digits
parse_zero = refl

-- An amount of at most 16 digits is read back as it was printed.
pub parse-print : (f : Funds) → f.e8 < 10 ^ 16 → parse (print f) ≡ value f
unfolding print
parse-print f h =
    let n : ℕ = f.e8 in
    let p = to_string-Prints n h in
    elim (Bool-cases (n == 0)) [
      | inl c ↦
          rw (is_zero, c) parse_zero ∙ ap (λ k. value (record { e8 = k })) (sym ((==_iff n 0).0 c))
      | inr c ↦ elim (Bool-cases (leb 9 (length (to_string n)))) [
        | inl l ↦
            rw (is_zero, c, l) (parse-insert_dot (to_string n) n p (ground arith) (omega arith))
        | inr l ↦ rw (is_zero, c, l) (parse_padded (to_string n) n p (ground arith) (omega arith))
      ]
    ]

-- Every text of 17 digits makes parse write behind the end of its buffer.
pub parse_overrun : (s : List ℕ) → All IsDigit s → length s ≡ 17 → parse s ≡ overrun
parse_overrun s d h =
    let loop = digits_before 0 [] s [] d (omega arith) in
    parse-eq-finish s {i = 0 + length s} {d = none} {buf = s}
      (ap (parse_loop 0 none []) (sym (append-nil s)) ∙ loop ∙ unfold parse_loop in refl)
    ∙ unfold finish in ground arith
