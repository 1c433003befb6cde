-- ===== src/General/Hex/RoundTrip.antt =====
-- Proofs on the hexadecimal texts of General/Hex (src/shared/src/general/hex.{hpp,cpp}).
use janusminer.Common.{ℕ, suc, zero, ◌+◌, ◌*◌, ◌/◌, ◌%◌, ◌^◌, ◌≡◌, ◌<◌, arith, refl, ap, ◌∙◌}
use janusminer.Common.{true, ◌&&◌, Option, none, some, List, [], ◌∷◌, length, All}
use janusminer.Common.{leb, ◌==◌, if◌then◌else◌, ◌>>=◌, ==_iff, Bool-cases, inl, inr}
use janusminer.General.Hex.{
  hex_char, serialize_hex, hexdigit, parse_pairs, parse_hex, hex_to_arr, hex_to_vec,
}

abbrev pub Bytes : List ℕ → Type 0
Bytes = All (λ b. b < 2 ^ 8)

hexdigit-hex_char : (d : ℕ) → d < 16 → hexdigit (hex_char d) ≡ some d
unfolding hexdigit hex_char
hexdigit-hex_char d h = ground arith

hexdigit-lt : (c d : ℕ) → hexdigit c ≡ some d → d < 16
unfolding hexdigit
hexdigit-lt c d e = ground arith

pub length-serialize_hex : (bs : List ℕ) → length (serialize_hex bs) ≡ length bs * 2
unfolding serialize_hex
length-serialize_hex [] = refl
length-serialize_hex (b ∷ bs) = omega (arith, length-serialize_hex bs)

parse_pairs-cons :
    (c d : ℕ) {hi lo : ℕ} (n : ℕ) (s : List ℕ) {bs : List ℕ}
    → hexdigit c ≡ some hi
    → hexdigit d ≡ some lo
    → parse_pairs n s ≡ some bs
    → parse_pairs (suc n) (c ∷ d ∷ s) ≡ some ((hi * 2 ^ 4 + lo) % 2 ^ 8 ∷ bs)
unfolding parse_pairs
parse_pairs-cons c d n s p q r = rw (p, q, r) refl

parse_pairs-serialize_hex :
    (bs : List ℕ) → Bytes bs → parse_pairs (length bs) (serialize_hex bs) ≡ some bs
unfolding serialize_hex
parse_pairs-serialize_hex [] h = unfold parse_pairs in refl
parse_pairs-serialize_hex (b ∷ bs) h =
    parse_pairs-cons (hex_char (b / 2 ^ 4)) (hex_char (b % 2 ^ 4)) (length bs) (serialize_hex bs)
      (hexdigit-hex_char (b / 2 ^ 4) (omega arith)) (hexdigit-hex_char (b % 2 ^ 4) (omega arith))
      (parse_pairs-serialize_hex bs h.1)
    ∙ ap (λ (x : ℕ). some (x ∷ bs)) (omega arith)

-- Bytes that are printed come back, as an array of their number and as a vector.
pub parse_hex-serialize_hex :
    (bs : List ℕ)
    → Bytes bs
    → (hex_to_arr (length bs) (serialize_hex bs) ≡ some bs)
      × (hex_to_vec (serialize_hex bs) ≡ some bs)
unfolding parse_hex hex_to_arr hex_to_vec
parse_hex-serialize_hex bs h =
    let l = length-serialize_hex bs in
    let c : length (serialize_hex bs) == length bs * 2 ≡ true = (==_iff _ _).1 l in
    let half : length (serialize_hex bs) / 2 ≡ length bs = omega (arith, l) in
    (rw c (parse_pairs-serialize_hex bs h), rw (half, c) (parse_pairs-serialize_hex bs h))

-- The text with the upper-case digits in lower case.
unfoldable pub lower : List ℕ → List ℕ
lower [] = []
lower (c ∷ s) = (if leb b'A' c && leb c b'F' then c + 32 else c) ∷ lower s

hex_char-hexdigit :
    (c d : ℕ) → hexdigit c ≡ some d → hex_char d ≡ (if leb b'A' c && leb c b'F' then c + 32 else c)
unfolding hexdigit hex_char
hex_char-hexdigit c d e = ground arith

parse_pairs-inversion :
    (n c d : ℕ) (s bs : List ℕ)
    → parse_pairs (suc n) (c ∷ d ∷ s) ≡ some bs
    → (hi : ℕ) × (lo : ℕ) × (rest : List ℕ) × (hexdigit c ≡ some hi)
      × (hexdigit d ≡ some lo)
      × (parse_pairs n s ≡ some rest)
      × (bs ≡ (hi * 2 ^ 4 + lo) % 2 ^ 8 ∷ rest)
unfolding parse_pairs
parse_pairs-inversion n c d s bs e = go (hexdigit c) (hexdigit d) (parse_pairs n s) e
  where
    go :
        (p q : Option ℕ) (r : Option (List ℕ))
        → (p >>= λ hi. q >>= λ lo. r >>= λ rest. some ((hi * 2 ^ 4 + lo) % 2 ^ 8 ∷ rest)) ≡ some bs
        → (hi : ℕ) × (lo : ℕ) × (rest : List ℕ) × (p ≡ some hi)
          × (q ≡ some lo)
          × (r ≡ some rest)
          × (bs ≡ (hi * 2 ^ 4 + lo) % 2 ^ 8 ∷ rest)
    go none q r e = cc
    go (some hi) none r e = cc
    go (some hi) (some lo) none e = cc
    go (some hi) (some lo) (some rest) e = (hi, lo, rest, refl, refl, refl, ground arith)

parse_pairs_lem :
    (n : ℕ) (s bs : List ℕ)
    → length s ≡ n * 2
    → parse_pairs n s ≡ some bs
    → (length bs ≡ n) × Bytes bs × (serialize_hex bs ≡ lower s)
unfolding serialize_hex lower
parse_pairs_lem zero [] bs l e =
    let q : [] ≡ bs = unfold parse_pairs in cc in rw (← q) (refl, tt, refl)
parse_pairs_lem zero (c ∷ s) bs l e = absurd (omega arith)
parse_pairs_lem (suc n) [] bs l e = absurd (omega arith)
parse_pairs_lem (suc n) (c ∷ []) bs l e = absurd (omega arith)
parse_pairs_lem (suc n) (c ∷ d ∷ s) bs l e =
    let (hi, lo, rest, p, q, r, eq) = parse_pairs-inversion n c d s bs e in
    let (len, bytes, same) = parse_pairs_lem n s rest (omega arith) r in
    let h1 = hexdigit-lt c hi p in
    let h2 = hexdigit-lt d lo q in
    let u : (hi * 2 ^ 4 + lo) % 2 ^ 8 / 2 ^ 4 ≡ hi = omega arith in
    let w : (hi * 2 ^ 4 + lo) % 2 ^ 8 % 2 ^ 4 ≡ lo = omega arith in
    rw eq (
      omega (arith, len),
      (omega arith, bytes),
      rw (u, w, hex_char-hexdigit c hi p, hex_char-hexdigit d lo q, same) refl,
    )

-- What is parsed is as many bytes as asked for, and printing them gives the text again, in lower
-- case.
pub serialize_hex-parse_hex :
    (n : ℕ) (s : List ℕ) {bs : List ℕ}
    → parse_hex s n ≡ some bs
    → (length bs ≡ n) × Bytes bs × (serialize_hex bs ≡ lower s)
unfolding parse_hex
serialize_hex-parse_hex n s {bs} e = elim (Bool-cases (length s == n * 2)) [
  | inl c ↦ parse_pairs_lem n s bs ((==_iff _ _).0 c) (rw c at e)
  | inr c ↦ let wrong : none ≡ some bs = rw c at e in cc
]
