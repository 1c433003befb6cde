-- ===== src/General/ByteOrder.antt =====
-- src/shared/src/general/byte_order.hpp and the `readuint` functions of reader.hpp, on a
-- little-endian host. A mask followed by a shift is written by `/` and `%`, and the `|` of disjoint
-- bytes by `+`.
use janusminer.Common.{List, [], ◌∷◌, ℕ, ◌+◌, ◌*◌, ◌/◌, ◌%◌, ◌^◌, ◌<◌, ◌≡◌, arith}
use janusminer.Common.{u8, u16, u32, u64}

abbrev byte_at : ℕ → ℕ → ℕ
byte_at x k = x / 2 ^ (8 * k) % u8

unfoldable pub byte_swap16 : ℕ → ℕ
byte_swap16 x = (x / 2 ^ 8 + x * 2 ^ 8) % u16

unfoldable pub byte_swap32 : ℕ → ℕ
byte_swap32 x = byte_at x 3 + byte_at x 2 * 2 ^ 8 + byte_at x 1 * 2 ^ 16 + byte_at x 0 * 2 ^ 24

unfoldable pub byte_swap64 : ℕ → ℕ
byte_swap64 x =
    byte_at x 7
    + byte_at x 6 * 2 ^ 8
    + byte_at x 5 * 2 ^ 16
    + byte_at x 4 * 2 ^ 24
    + byte_at x 3 * 2 ^ 32
    + byte_at x 2 * 2 ^ 40
    + byte_at x 1 * 2 ^ 48
    + byte_at x 0 * 2 ^ 56

-- `std::endian::native` is not big on the host.
unfoldable pub hton16 : ℕ → ℕ
hton16 x = byte_swap16 x

unfoldable pub hton32 : ℕ → ℕ
hton32 x = byte_swap32 x

unfoldable pub hton64 : ℕ → ℕ
hton64 x = byte_swap64 x

pub byte_swap16-byte_swap16 : (x : ℕ) → x < u16 → byte_swap16 (byte_swap16 x) ≡ x
unfolding byte_swap16
byte_swap16-byte_swap16 x h = omega arith

pub byte_swap32-byte_swap32 : (x : ℕ) → x < u32 → byte_swap32 (byte_swap32 x) ≡ x
unfolding byte_swap32
byte_swap32-byte_swap32 x h = omega arith

pub byte_swap64-byte_swap64 : (x : ℕ) → x < u64 → byte_swap64 (byte_swap64 x) ≡ x
unfolding byte_swap64
byte_swap64-byte_swap64 x h = omega arith

-- The bytes of a word in memory, the lowest first, and the word that bytes in memory are.
unfoldable pub bytes16 : ℕ → List ℕ
bytes16 x = byte_at x 0 ∷ byte_at x 1 ∷ []

unfoldable pub bytes32 : ℕ → List ℕ
bytes32 x = byte_at x 0 ∷ byte_at x 1 ∷ byte_at x 2 ∷ byte_at x 3 ∷ []

unfoldable pub bytes64 : ℕ → List ℕ
bytes64 x =
    byte_at x 0
    ∷ byte_at x 1
    ∷ byte_at x 2
    ∷ byte_at x 3
    ∷ byte_at x 4
    ∷ byte_at x 5
    ∷ byte_at x 6
    ∷ byte_at x 7
    ∷ []

unfoldable pub from_bytes : List ℕ → ℕ
from_bytes [] = 0
from_bytes (b ∷ bs) = b + 2 ^ 8 * from_bytes bs
