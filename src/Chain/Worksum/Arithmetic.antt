-- ===== src/Chain/Worksum/Arithmetic.antt =====
-- Proofs on `+=`, `-=` and `*=` of `Worksum` (src/shared/src/block/chain/worksum.cpp).
use janusminer.Common.{ℕ, ◌+◌, ◌-◌, ◌*◌, ◌/◌, ◌%◌, ◌^◌, ◌≡◌, ◌<◌, ◌≤◌, refl, ◌∙◌, arith}
use janusminer.Common.{List, [], ◌∷◌, u32, u64, length, leb, if◌then◌else◌}
use janusminer.Chain.Worksum.{Worksum, IsWorksum, elements, add_loop, sub_loop, mul_loop}
use janusminer.Chain.Worksum.{◌+=◌, ◌-=◌, ◌*=◌}
use janusminer.Chain.Worksum.Value.{Words, number, span, value, number-lt-span, span_eight}

-- What a loop leaves: words again, as many, for a number that is `total` up to whole spans.
record Reduces (fs rs : List ℕ) (total : ℕ) : Type 0 where
  words : Words rs
  same : length rs ≡ length fs
  wraps : ℕ
  sum_eq : number rs + span fs * wraps ≡ total

add_loop-Reduces :
    (c : ℕ) (fs ws : List ℕ)
    → c ≤ 1
    → Words fs
    → Words ws
    → length fs ≡ length ws
    → Reduces fs (add_loop c fs ws) (number fs + number ws + c)
unfolding number add_loop
add_loop-Reduces c [] [] h p q e = record {
  words = tt;
  same = refl;
  wraps = c;
  sum_eq = omega arith;
}
add_loop-Reduces c [] (w ∷ ws) h p q e = absurd (omega arith)
add_loop-Reduces c (f ∷ fs) [] h p q e = absurd (omega arith)
add_loop-Reduces c (f ∷ fs) (w ∷ ws) h p q e =
    let c' : ℕ = (c + f + w) % u64 / 2 ^ 32 in
    let rest : Reduces fs (add_loop c' fs ws) (number fs + number ws + c') =
      add_loop-Reduces c' fs ws (omega arith) p.1 q.1 (omega arith) in
    record {
      words = (omega arith, rest.words);
      same = omega (arith, rest.same);
      wraps = rest.wraps;
      sum_eq = omega (arith, rest.sum_eq);
    }

sub_loop-Reduces :
    (c : ℕ) (fs ws : List ℕ)
    → c ≤ 1
    → Words fs
    → Words ws
    → length fs ≡ length ws
    → (wraps : ℕ) × Words (sub_loop c fs ws)
      × (length (sub_loop c fs ws) ≡ length fs)
      × (number (sub_loop c fs ws) + number ws + c ≡ number fs + span fs * wraps)
unfolding number sub_loop
sub_loop-Reduces c [] [] h p q e = (c, tt, refl, omega arith)
sub_loop-Reduces c [] (w ∷ ws) h p q e = absurd (omega arith)
sub_loop-Reduces c (f ∷ fs) [] h p q e = absurd (omega arith)
sub_loop-Reduces c (f ∷ fs) (w ∷ ws) h p q e =
    let c' : ℕ = (if leb ((c + w) % u64) f then 0 else 1) in
    let (k, words, same, eq) = sub_loop-Reduces c' fs ws (ground arith) p.1 q.1 (omega arith) in
    (k, (omega arith, words), omega (arith, same), ground (arith, eq))

mul_loop-Reduces :
    (m c : ℕ) (fs : List ℕ)
    → m < u32
    → c < u32
    → Words fs
    → Reduces fs (mul_loop m c fs) (number fs * m + c)
unfolding number mul_loop
mul_loop-Reduces m c [] hm hc p = record {
  words = tt;
  same = refl;
  wraps = c;
  sum_eq = omega arith;
}
mul_loop-Reduces m c (f ∷ fs) hm hc p =
    let bound : f * m ≤ (u32 - 1) * (u32 - 1) = grind arith in
    let c' : ℕ = (c + f * m % u64) % u64 / 2 ^ 32 in
    let rest : Reduces fs (mul_loop m c' fs) (number fs * m + c') =
      mul_loop-Reduces m c' fs hm (omega arith) p.1 in
    record {
      words = (omega arith, rest.words);
      same = omega (arith, rest.same);
      wraps = rest.wraps;
      sum_eq = omega (arith, rest.sum_eq);
    }

modulo_eight :
    (fs rs : List ℕ) (wraps total : ℕ)
    → length fs ≡ elements
    → length rs ≡ length fs
    → Words rs
    → number rs + span fs * wraps ≡ total
    → number rs ≡ total % 2 ^ 256
modulo_eight fs rs wraps total p q words eq =
    omega (arith, rw (span_eight fs p) at eq, span_eight rs (q ∙ p), number-lt-span rs words)

module _ (a b : Worksum) (va : IsWorksum a) (vb : IsWorksum b) where
  -- The sum of two sums of eight 32-bit fragments is one, and stands for the sum of the numbers
  -- modulo 2 ^ 256.
  pub value-add : IsWorksum (a += b) × (value (a += b) ≡ (value a + value b) % 2 ^ 256)
  unfolding value ◌+=◌
  value-add =
      let same : length a.fragments ≡ length b.fragments = omega (arith, va.size, vb.size) in
      let r = add_loop-Reduces 0 a.fragments b.fragments (omega arith) va.words vb.words same in
      (
        record { size = omega (arith, r.same, va.size); words = r.words },
        omega (arith, modulo_eight _ _ r.wraps _ va.size r.same r.words r.sum_eq),
      )

  -- The difference of two sums of eight 32-bit fragments is one, and stands for the difference of
  -- the numbers modulo 2 ^ 256.
  pub value-sub : IsWorksum (a -= b) × (value (a -= b) ≡ (value a + (2 ^ 256 - value b)) % 2 ^ 256)
  unfolding value ◌-=◌
  value-sub =
      let same : length a.fragments ≡ length b.fragments = omega (arith, va.size, vb.size) in
      let (k, words, size, eq) =
        sub_loop-Reduces 0 a.fragments b.fragments (omega arith) va.words vb.words same in
      (
        record { size = omega (arith, size, va.size); words = words },
        omega (
          arith,
          rw (span_eight a.fragments va.size) at eq,
          span_eight b.fragments vb.size,
          span_eight _ (size ∙ va.size),
          number-lt-span _ words,
          number-lt-span _ vb.words,
        ),
      )

-- The product of a sum of eight 32-bit fragments with a 32-bit number is one, and stands for the
-- product modulo 2 ^ 256.
pub value-mul :
    (a : Worksum) (factor : ℕ)
    → IsWorksum a
    → factor < u32
    → IsWorksum (a *= factor) × (value (a *= factor) ≡ value a * factor % 2 ^ 256)
unfolding value ◌*=◌
value-mul a factor va h =
    let r = mul_loop-Reduces factor 0 a.fragments h (omega arith) va.words in
    (
      record { size = omega (arith, r.same, va.size); words = r.words },
      omega (arith, modulo_eight _ _ r.wraps _ va.size r.same r.words r.sum_eq),
    )
