-- ===== src/General/Reader/Laws.antt =====
-- Lemmas on the cursor of General/Reader (src/shared/src/general/reader.hpp).
use janusminer.Common.{ℕ, ◌+◌, ◌≡◌, ◌<◌, arith, refl}
use janusminer.Common.{false, Option, none, some, List, ◌∷◌, ◌++◌, length, take, drop}
use janusminer.Common.{u16, u32, u64, ltb, ◌>>=◌}
use janusminer.Common.{length-append, take-append, drop-append, Bool-cases, inl, inr}
use janusminer.General.ByteOrder.{
  hton16, hton32, hton64, bytes16, bytes32, bytes64, from_bytes, byte_swap16, byte_swap32,
  byte_swap64,
}
use janusminer.General.ByteOrder.{
  byte_swap16-byte_swap16, byte_swap32-byte_swap32, byte_swap64-byte_swap64,
}
use janusminer.Common.{sym, take-append-drop, length-take, length-drop, ◌≤◌}
use janusminer.General.Reader.{Reader, read, skip, uint8, uint16, uint32, uint64}

pub read-append : (bs r : List ℕ) → read (length bs) (bs ++ r) ≡ some (bs, r)
unfolding read
read-append bs r =
    let c : ltb (length (bs ++ r)) (length bs) ≡ false = ground (arith, length-append bs r) in
    rw (c, take-append bs r, drop-append bs r) refl

pub read-of : (n : ℕ) (bs r : List ℕ) → length bs ≡ n → read n (bs ++ r) ≡ some (bs, r)
read-of n bs r e = rw (← e) (read-append bs r)

-- What is read is what stands in front.
pub read-inversion :
    (n : ℕ) (r : Reader) {bs r' : List ℕ}
    → read n r ≡ some (bs, r')
    → (r ≡ bs ++ r') × (length bs ≡ n)
unfolding read
read-inversion n r {bs} {r'} e = elim (Bool-cases (ltb (length r) n)) [
  | inl c ↦ let wrong : none ≡ some (bs, r') = rw c at e in cc
  | inr c ↦
      let eq : some (take n r, drop n r) ≡ some (bs, r') = rw c at e in
      let t : take n r ≡ bs = cc in
      let d : drop n r ≡ r' = cc in
      rw (← t, ← d)
        (
          sym (take-append-drop n r),
          (let le : n ≤ length r = ground arith in omega (arith, length-take n r)),
        )
]

from_bytes-bytes16 : (x : ℕ) → x < u16 → from_bytes (bytes16 x) ≡ x
unfolding from_bytes bytes16
from_bytes-bytes16 x h = omega arith

from_bytes-bytes32 : (x : ℕ) → x < u32 → from_bytes (bytes32 x) ≡ x
unfolding from_bytes bytes32
from_bytes-bytes32 x h = omega arith

from_bytes-bytes64 : (x : ℕ) → x < u64 → from_bytes (bytes64 x) ≡ x
unfolding from_bytes bytes64
from_bytes-bytes64 x h = omega arith

hton16-lt : (x : ℕ) → hton16 x < u16
unfolding hton16 byte_swap16
hton16-lt x = omega arith

hton32-lt : (x : ℕ) → hton32 x < u32
unfolding hton32 byte_swap32
hton32-lt x = omega arith

hton64-lt : (x : ℕ) → hton64 x < u64
unfolding hton64 byte_swap64
hton64-lt x = omega arith

pub uint8-byte : (x : ℕ) (r : Reader) → uint8 (x ∷ r) ≡ some (x, r)
unfolding uint8
uint8-byte x r = ground arith

pub uint16-bytes16 : (x : ℕ) (r : Reader) → x < u16 → uint16 (bytes16 (hton16 x) ++ r) ≡ some (x, r)
unfolding uint16
uint16-bytes16 x r h =
    let size : length (bytes16 (hton16 x)) ≡ 2 = unfold bytes16 in refl in
    let back : hton16 (hton16 x) ≡ x = unfold hton16 in byte_swap16-byte_swap16 x h in
    rw (read-of 2 (bytes16 (hton16 x)) r size, from_bytes-bytes16 (hton16 x) (hton16-lt x), back)
      refl

pub uint32-bytes32 : (x : ℕ) (r : Reader) → x < u32 → uint32 (bytes32 (hton32 x) ++ r) ≡ some (x, r)
unfolding uint32
uint32-bytes32 x r h =
    let size : length (bytes32 (hton32 x)) ≡ 4 = unfold bytes32 in refl in
    let back : hton32 (hton32 x) ≡ x = unfold hton32 in byte_swap32-byte_swap32 x h in
    rw (read-of 4 (bytes32 (hton32 x)) r size, from_bytes-bytes32 (hton32 x) (hton32-lt x), back)
      refl

pub uint64-bytes64 : (x : ℕ) (r : Reader) → x < u64 → uint64 (bytes64 (hton64 x) ++ r) ≡ some (x, r)
unfolding uint64
uint64-bytes64 x r h =
    let size : length (bytes64 (hton64 x)) ≡ 8 = unfold bytes64 in refl in
    let back : hton64 (hton64 x) ≡ x = unfold hton64 in byte_swap64-byte_swap64 x h in
    rw (read-of 8 (bytes64 (hton64 x)) r size, from_bytes-bytes64 (hton64 x) (hton64-lt x), back)
      refl

-- How far each step moves the cursor.
pub skip_moves : (n : ℕ) (r : Reader) {r' : Reader} → skip n r ≡ some r' → length r ≡ n + length r'
unfolding skip
skip_moves n r {r'} e = elim (Bool-cases (ltb (length r) n)) [
  | inl c ↦ let wrong : none ≡ some r' = rw c at e in cc
  | inr c ↦
      let eq : some (drop n r) ≡ some r' = rw c at e in
      let d : drop n r ≡ r' = cc in
      let le : n ≤ length r = ground arith in rw (← d) (omega (arith, length-drop n r))
]

read_moves :
    (n : ℕ) (r : Reader) {bs r' : List ℕ} → read n r ≡ some (bs, r') → length r ≡ n + length r'
read_moves n r {bs} {r'} e =
    let (eq, len) = read-inversion n r e in rw eq (omega (arith, length-append bs r', len))

through :
    (n : ℕ) (f : List ℕ → ℕ) (r : Reader) (o : Option (List ℕ × Reader)) {v : ℕ} {r' : Reader}
    → read n r ≡ o
    → ◌>>=◌ {B = ℕ × Reader} o (λ p. some (f p.0, p.1)) ≡ some (v, r')
    → length r ≡ n + length r'
through n f r none p e = cc
through n f r (some (bs, r1)) {v} {r'} p e =
    let same : r1 ≡ r' = cc in read_moves n r {bs = bs} (rw (← same) p)

pub uint16_moves :
    (r : Reader) {v : ℕ} {r' : Reader} → uint16 r ≡ some (v, r') → length r ≡ 2 + length r'
unfolding uint16
uint16_moves r e = through 2 (λ bs. hton16 (from_bytes bs)) r (read 2 r) refl e

pub uint32_moves :
    (r : Reader) {v : ℕ} {r' : Reader} → uint32 r ≡ some (v, r') → length r ≡ 4 + length r'
unfolding uint32
uint32_moves r e = through 4 (λ bs. hton32 (from_bytes bs)) r (read 4 r) refl e
