-- ===== src/Chain/Worksum/FromTarget.antt =====
-- `Worksum` of a target (src/shared/src/block/chain/worksum.cpp): how many hashes a target takes.
use janusminer.Common.{
  ℕ, zero, suc, ◌+◌, ◌-◌, ◌*◌, ◌/◌, ◌%◌, ◌^◌, ◌≡◌, ◌<◌, ◌≤◌, arith, refl, ap, sym, ◌∙◌,
}
use janusminer.Common.{true, false, set, replicate, ◌≢◌}
use janusminer.Common.{
  u32, ltb, ◌==◌, if◌then◌else◌, pow-add, pow_pos, Bool-cases, ==_iff, inl, inr,
}
use janusminer.Chain.Target.{TargetV1, TargetV2, zeros8, bits24, zeros10, bits22}
use janusminer.Chain.Target.ScaleV1
use janusminer.Chain.Target.ScaleV2
use janusminer.Chain.Worksum.{Worksum, elements}
use janusminer.Chain.Worksum.Value.{number, value}
use native.Mathlib.Nat.{
  div-lt_iff_lt-mul, mul_assoc, mul_comm, div-le_self, mul-div-mul_left, mul-div_left,
}

-- What making a sum ends in: a sum, a division by 0, or a write behind the last fragment.
pub data Made : Type 0 where
  made : Worksum → Made
  divides_by_zero : Made
  overrun : Made

-- The body that both constructors have.
unfoldable pub from_inverse : ℕ → ℕ → Made
from_inverse zeros invbits =
    if invbits == 2 ^ 32
    then (let z = (zeros + 1) % u32 in
        if ltb (z / 32) elements
        then made (record { fragments = set (replicate elements 0) (z / 32) (2 ^ (z % 32)) })
        else overrun)
    else (let i = zeros / 32 in
        let shift = zeros % 32 in
        let fs = set (replicate elements 0) i (invbits / 2 ^ (31 - shift) % u32) in
        if ltb i elements
        then made (record {
          fragments = if ltb 0 i then set fs (i - 1) (invbits * 2 ^ (1 + shift) % u32) else fs;
        })
        else overrun)

unfoldable pub from_target_v1 : TargetV1 → Made
from_target_v1 t =
    if bits24 t == 0 then divides_by_zero else from_inverse (zeros8 t) (2 ^ (24 + 31) / bits24 t)

unfoldable pub from_target_v2 : TargetV2 → Made
from_target_v2 t =
    if bits22 t == 0 then divides_by_zero else from_inverse (zeros10 t) (2 ^ (22 + 31) / bits22 t)

number-zeros : (n : ℕ) → number (replicate n 0) ≡ 0
unfolding number
number-zeros zero = refl
number-zeros (suc n) = omega (arith, number-zeros n)

number-set : (n i v : ℕ) → i < n → number (set (replicate n 0) i v) ≡ 2 ^ (32 * i) * v
unfolding number
number-set zero i v h = absurd (omega arith)
number-set (suc n) zero v h = omega (arith, number-zeros n)
number-set (suc n) (suc i) v h =
    let e : 32 * suc i ≡ 32 + 32 * i = omega arith in
    rw (e, pow-add 32 (32 * i), number-set n i v (omega arith))
      (omega (arith, mul_assoc u32 (2 ^ (32 * i)) v))

number-set-set :
    (n i lo hi : ℕ)
    → suc i < n
    → number (set (set (replicate n 0) (suc i) hi) i lo) ≡ 2 ^ (32 * i) * (lo + u32 * hi)
unfolding number
number-set-set zero i lo hi h = absurd (omega arith)
number-set-set (suc n) zero lo hi h = rw (number-set n 0 hi (omega arith)) (omega arith)
number-set-set (suc n) (suc i) lo hi h =
    let e : 32 * suc i ≡ 32 + 32 * i = omega arith in
    rw (e, pow-add 32 (32 * i), number-set-set n i lo hi (omega arith))
      (omega (arith, mul_assoc u32 (2 ^ (32 * i)) (lo + u32 * hi)))

pow-split : (a b c : ℕ) → a + b ≡ c → 2 ^ a * 2 ^ b ≡ 2 ^ c
pow-split a b c e = sym (pow-add a b) ∙ ap (λ n. 2 ^ n) e

-- A quotient by the rest of a power of two.
shifted_quotient : (inv a b c : ℕ) → a + b ≡ c → inv * 2 ^ a / 2 ^ c ≡ inv / 2 ^ b
shifted_quotient inv a b c e =
    rw (mul_comm inv (2 ^ a), ← pow-split a b c e) (mul-div-mul_left inv (2 ^ b) (pow_pos a))

quotient_small : (inv b : ℕ) → inv < 2 ^ 32 → inv / 2 ^ b % u32 ≡ inv / 2 ^ b
quotient_small inv b h = omega (arith, div-le_self inv (2 ^ b))

-- The two fragments are the digits of a product of 64 bits.
two_fragments :
    (inv s : ℕ)
    → s < 32
    → inv < 2 ^ 32
    → inv * 2 ^ (1 + s) % u32 + u32 * (inv / 2 ^ (31 - s) % u32) ≡ inv * 2 ^ (1 + s)
two_fragments inv s h b =
    let high = shifted_quotient inv (1 + s) (31 - s) 32 (omega arith) in
    rw (quotient_small inv (31 - s) b, ← high) (omega arith)

-- The three numbers that the fragments stand for.
full_value :
    (zeros : ℕ)
    → zeros < 255
    → number (set (replicate elements 0) ((zeros + 1) % u32 / 32) (2 ^ ((zeros + 1) % u32 % 32)))
      ≡ 2 ^ 32 * 2 ^ zeros / 2 ^ 31
full_value zeros b =
    let z = (zeros + 1) % u32 in
    number-set elements (z / 32) (2 ^ (z % 32)) (omega arith)
    ∙ pow-split (32 * (z / 32)) (z % 32) (zeros + 1) (omega arith)
    ∙ sym (mul-div_left (2 ^ (zeros + 1)) (pow_pos 31))
    ∙ ap (λ n. n / 2 ^ 31)
        (pow-split (zeros + 1) 31 (32 + zeros) (omega arith)
          ∙ sym (pow-split 32 zeros (32 + zeros) refl))

one_value :
    (zeros inv : ℕ)
    → zeros / 32 ≡ 0
    → inv < 2 ^ 32
    → number (set (replicate elements 0) (zeros / 32) (inv / 2 ^ (31 - zeros % 32) % u32))
      ≡ inv * 2 ^ zeros / 2 ^ 31
one_value zeros inv o b =
    let low : zeros % 32 ≡ zeros = omega arith in
    let q = shifted_quotient inv zeros (31 - zeros) 31 (omega arith) in
    rw (o, low, quotient_small inv (31 - zeros) b, q)
      (number-set elements 0 (inv / 2 ^ (31 - zeros)) (omega arith) ∙ omega arith)

rearranged : (a p l inv : ℕ) → a * (inv * p) * l ≡ inv * (a * (p * l))
rearranged a p l inv =
    mul_assoc a (inv * p) l
    ∙ ap (λ n. a * n) (mul_assoc inv p l)
    ∙ sym (mul_assoc a inv (p * l))
    ∙ ap (λ n. n * (p * l)) (mul_comm a inv)
    ∙ mul_assoc inv a (p * l)

two_value :
    (zeros inv k : ℕ)
    → zeros / 32 ≡ suc k
    → zeros < 255
    → inv < 2 ^ 32
    → number (
        set
          (set (replicate elements 0) (suc k) (inv / 2 ^ (31 - zeros % 32) % u32))
          k
          (inv * 2 ^ (1 + zeros % 32) % u32))
      ≡ inv * 2 ^ zeros / 2 ^ 31
two_value zeros inv k o h b =
    let s = zeros % 32 in
    let powers : 2 ^ (32 * k) * (2 ^ (1 + s) * 2 ^ 31) ≡ 2 ^ zeros =
      ap (λ n. 2 ^ (32 * k) * n) (pow-split (1 + s) 31 (1 + s + 31) refl)
      ∙ pow-split (32 * k) (1 + s + 31) zeros (omega arith) in
    number-set-set elements k (inv * 2 ^ (1 + s) % u32) (inv / 2 ^ (31 - s) % u32) (omega arith)
    ∙ ap (λ n. 2 ^ (32 * k) * n) (two_fragments inv s (omega arith) b)
    ∙ sym (mul-div_left (2 ^ (32 * k) * (inv * 2 ^ (1 + s))) (pow_pos 31))
    ∙ ap (λ n. n / 2 ^ 31)
        (rearranged (2 ^ (32 * k)) (2 ^ (1 + s)) (2 ^ 31) inv ∙ ap (λ n. inv * n) powers)

-- The number of a sum that is made from an inverse.
from_inverse_lem :
    (zeros inv : ℕ)
    → zeros < 255
    → inv ≤ 2 ^ 32
    → (w : Worksum) × (from_inverse zeros inv ≡ made w) × (value w ≡ inv * 2 ^ zeros / 2 ^ 31)
unfolding from_inverse value
from_inverse_lem zeros inv b le = elim (Bool-cases (inv == 2 ^ 32)) [
  | inl y ↦
      let z = (zeros + 1) % u32 in
      let inside : ltb (z / 32) elements ≡ true = ground arith in
      rw (y, inside)
        (
          record { fragments = set (replicate elements 0) (z / 32) (2 ^ (z % 32)) },
          refl,
          rw ((==_iff inv (2 ^ 32)).0 y) (full_value zeros b),
        )
  | inr n ↦
      let i = zeros / 32 in
      let inside : ltb i elements ≡ true = ground arith in
      let small : inv < 2 ^ 32 = ground arith in
      elim (Bool-cases (ltb 0 i)) [
        | inl pos ↦
            rw (n, inside, pos)
              (
                record { fragments = _ },
                refl,
                (let k = i - 1 in
                    let e : i ≡ suc k = ground arith in
                    let e' : suc k - 1 ≡ k = omega arith in
                    rw (e, e') (two_value zeros inv k e b small)),
              )
        | inr only ↦
            rw (n, inside, only)
              (record { fragments = _ }, refl, one_value zeros inv (ground arith) small)
      ]
]

-- For a normal target of the second encoding with fewer than 255 zeros, the sum that is made from
-- it exists and is the inverse of the digits, to 31 binary places, with the zeros behind, rounded
-- down.
pub value-from_target_v2 :
    (t : TargetV2)
    → ScaleV2.IsNormal t
    → zeros10 t < 255
    → (w : Worksum) × (from_target_v2 t ≡ made w)
      × (value w ≡ 2 ^ 53 / bits22 t * 2 ^ zeros10 t / 2 ^ 31)
unfolding from_target_v2
value-from_target_v2 t n h =
    let digits : (bits22 t == 0) ≡ false = ground (arith, n.leading) in
    let inv : 2 ^ 53 / bits22 t ≤ 2 ^ 32 = omega (
      arith,
      (div-lt_iff_lt-mul {k = bits22 t} {x = 2 ^ 53} {y = 2 ^ 32 + 1} (omega (arith, n.leading))).1
          (omega (arith, n.leading)),
    ) in
    rw digits (from_inverse_lem (zeros10 t) (2 ^ 53 / bits22 t) h inv)

-- The same for the first encoding.
pub value-from_target_v1 :
    (t : TargetV1)
    → ScaleV1.IsNormal t
    → zeros8 t < 255
    → (w : Worksum) × (from_target_v1 t ≡ made w)
      × (value w ≡ 2 ^ 55 / bits24 t * 2 ^ zeros8 t / 2 ^ 31)
unfolding from_target_v1
value-from_target_v1 t n h =
    let digits : (bits24 t == 0) ≡ false = ground (arith, n.leading) in
    let inv : 2 ^ 55 / bits24 t ≤ 2 ^ 32 = omega (
      arith,
      (div-lt_iff_lt-mul {k = bits24 t} {x = 2 ^ 55} {y = 2 ^ 32 + 1} (omega (arith, n.leading))).1
          (omega (arith, n.leading)),
    ) in
    rw digits (from_inverse_lem (zeros8 t) (2 ^ 55 / bits24 t) h inv)

-- A target of the second encoding with 256 zeros or more, whose 22 digits are not all 0, makes its
-- sum of work write behind the eight fragments.
pub from_target_v2_overrun :
    (t : TargetV2) → t.bits < u32 → bits22 t ≢ 0 → 256 ≤ zeros10 t → from_target_v2 t ≡ overrun
unfolding from_target_v2 from_inverse zeros10
from_target_v2_overrun t w some_digits h =
    let z = zeros10 t in
    let full : ltb ((z + 1) % u32 / 32) elements ≡ false = ground arith in
    let part : ltb (z / 32) elements ≡ false = ground arith in
    let digits : (bits22 t == 0) ≡ false = ground arith in
    elim (Bool-cases (2 ^ 53 / bits22 t == 2 ^ 32)) [
      | inl y ↦ rw (digits, y, full) refl
      | inr n ↦ rw (digits, n, part) refl
    ]
