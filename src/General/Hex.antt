-- ===== src/General/Hex.antt =====
-- src/shared/src/general/hex.{hpp,cpp}: bytes as hexadecimal text and back. A text is the list of its
-- character codes.
pub mod RoundTrip
use janusminer.Common.{ℕ, suc, zero, ◌+◌, ◌-◌, ◌*◌, ◌/◌, ◌%◌, ◌^◌, ◌≡◌}
use janusminer.Common.{
  Bool, true, false, ◌&&◌, Option, none, some, List, [], ◌∷◌, ◌++◌, map, length, get_elem?,
}
use janusminer.Common.{ltb, leb, ◌==◌, if◌then◌else◌, ◌>>=◌, ◌>>◌, guard}
use janusminer.General.ByteOrder.{hton32, bytes32}

-- `h[d]` for `h = "0123456789abcdef"` and a `d` below 16.
unfoldable pub hex_char : ℕ → ℕ
hex_char d = if ltb d 10 then b'0' + d else b'a' + (d - 10)

-- `serialize_hex(data, size, out)`: two characters for each byte, the upper half first.
unfoldable pub serialize_hex : List ℕ → List ℕ
serialize_hex [] = []
serialize_hex (b ∷ bs) = hex_char (b / 2 ^ 4) ∷ hex_char (b % 2 ^ 4) ∷ serialize_hex bs

-- `serialize_hex(uint32_t)`: the bytes of the number in network order.
unfoldable pub serialize_hex32 : ℕ → List ℕ
serialize_hex32 v = serialize_hex (bytes32 (hton32 v))

-- `hexdigit`, with `none` for `valid = false`.
unfoldable pub hexdigit : ℕ → Option ℕ
hexdigit c =
    if leb b'0' c && leb c b'9'
    then some (c - b'0')
    else if leb b'a' c && leb c b'f'
    then some (c - b'a' + 10)
    else if leb b'A' c && leb c b'F'
    then some (c - b'A' + 10)
    else none

-- The loop of `parse_hex`: it stops at the first bad character.
unfoldable pub parse_pairs : ℕ → List ℕ → Option (List ℕ)
parse_pairs zero s = some []
parse_pairs (suc n) (c ∷ d ∷ s) = do
  hi ← hexdigit c
  lo ← hexdigit d
  rest ← parse_pairs n s
  some ((hi * 2 ^ 4 + lo) % 2 ^ 8 ∷ rest)
parse_pairs (suc n) s = none

-- `parse_hex(in, out, out_size)`: the bytes written, or `none` for `false`.
unfoldable pub parse_hex : List ℕ → ℕ → Option (List ℕ)
parse_hex s out_size = if length s == out_size * 2 then parse_pairs out_size s else none

-- `none` is the exception `EMALFORMED`.
unfoldable pub hex_to_arr : ℕ → List ℕ → Option (List ℕ)
hex_to_arr n s = parse_hex s n

unfoldable pub hex_to_vec : List ℕ → Option (List ℕ)
hex_to_vec s = parse_hex s (length s / 2)
