-- ===== src/Chain/Worksum/Bytes.antt =====
-- `Worksum::to_bytes`, `Worksum::to_string` and the constructor from 32 bytes
-- (src/shared/src/block/chain/worksum.cpp).
use janusminer.Common.{
  ℕ, ◌*◌, ◌≡◌, ◌<◌, refl, arith, Option, some, List, [], ◌∷◌, ◌++◌, All, length, length-append,
  append_assoc, append-nil, u32, ◌>>=◌,
}
use janusminer.Chain.Worksum.{Worksum, IsWorksum, elements}
use janusminer.General.ByteOrder.{hton32, bytes32}
use janusminer.General.Reader.{words}
use janusminer.General.Reader.Laws.{uint32-bytes32}
use janusminer.General.Hex.{serialize_hex32}
use janusminer.General.Hex.RoundTrip.{length-serialize_hex}

unfoldable bytes_loop : List ℕ → List ℕ
bytes_loop [] = []
bytes_loop (f ∷ fs) = bytes32 (hton32 f) ++ bytes_loop fs

unfoldable to_bytes : Worksum → List ℕ
to_bytes w = bytes_loop w.fragments

-- `Worksum(std::array<uint8_t, 32>)`. `none` is a read past the end of the array.
unfoldable from_array : List ℕ → Option Worksum
from_array bytes = do (ws, rest) ← words elements bytes; some (record { fragments = ws })

-- The loop of `to_string` reads the fragments from the highest.
unfoldable text_loop : List ℕ → List ℕ
text_loop [] = []
text_loop (f ∷ fs) = text_loop fs ++ serialize_hex32 f

unfoldable to_string : Worksum → List ℕ
to_string w = b'0' ∷ b'x' ∷ text_loop w.fragments

words-bytes_loop :
    (fs r : List ℕ) → All (λ f. f < u32) fs → words (length fs) (bytes_loop fs ++ r) ≡ some (fs, r)
unfolding bytes_loop words
words-bytes_loop [] r h = refl
words-bytes_loop (f ∷ fs) r h =
    rw
      (
        append_assoc (bytes32 (hton32 f)) (bytes_loop fs) r,
        uint32-bytes32 f (bytes_loop fs ++ r) (h.0),
        words-bytes_loop fs r (h.1),
      )
      refl

length-bytes_loop : (fs : List ℕ) → length (bytes_loop fs) ≡ length fs * 4
unfolding bytes_loop bytes32
length-bytes_loop [] = refl
length-bytes_loop (f ∷ fs) = omega (arith, length-bytes_loop fs)

length-text_loop : (fs : List ℕ) → length (text_loop fs) ≡ length fs * 8
unfolding text_loop
length-text_loop [] = refl
length-text_loop (f ∷ fs) =
    let chars : length (serialize_hex32 f) ≡ 8 =
      unfold serialize_hex32 bytes32 in length-serialize_hex (bytes32 (hton32 f)) in
    omega (arith, length-append (text_loop fs) (serialize_hex32 f), length-text_loop fs, chars)

-- The constructor reads what `to_bytes` writes, 32 bytes; `to_string` fills the 66 characters that
-- it resized its result to.
bytes_lem :
    (w : Worksum)
    → IsWorksum w
    → (length (to_bytes w) ≡ 32) × (from_array (to_bytes w) ≡ some w) × (length (to_string w) ≡ 66)
unfolding to_bytes from_array to_string
bytes_lem w i =
    let back : words elements (bytes_loop w.fragments) ≡ some (w.fragments, []) =
      rw (← append-nil (bytes_loop w.fragments), ← i.size)
        (words-bytes_loop w.fragments [] i.words) in
    (
      omega (arith, length-bytes_loop w.fragments, i.size),
      rw back refl,
      omega (arith, length-text_loop w.fragments, i.size),
    )
