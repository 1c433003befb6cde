-- ===== src/General/Tests.antt =====
-- Inputs of the amounts, the compact fees and the hexadecimal texts.
use janusminer.Common.{ℕ, ◌*◌, ◌≡◌, ◌<◌, ◌≤◌, arith, refl, some, List, [], ◌∷◌, length}
use janusminer.General.Funds.{Funds, print, parse, value, overrun}
use janusminer.General.Funds.RoundTrip.{parse-print, parse_overrun}
use janusminer.General.CompactUint.{compact, uncompact}
use janusminer.General.CompactUint.Precision.{uncompact-compact}
use janusminer.General.Hex.{serialize_hex, parse_hex, parse_pairs, hexdigit, hex_to_arr, hex_to_vec}
use janusminer.General.Hex.RoundTrip.{parse_hex-serialize_hex}

abbrev reward_funds : Funds
reward_funds = record { e8 = 300000001 }

parse-print_example : parse (print reward_funds) ≡ value reward_funds
parse-print_example = parse-print reward_funds (omega arith)

abbrev seventeen : List ℕ
seventeen = 49 ∷ 50 ∷ 51 ∷ 52 ∷ 53 ∷ 54 ∷ 55 ∷ 56 ∷ 57 ∷ 48 ∷ 49 ∷ 50 ∷ 51 ∷ 52 ∷ 53 ∷ 54 ∷ 55 ∷ []

parse_overrun_example : parse seventeen ≡ overrun
parse_overrun_example = parse_overrun seventeen (omega arith) refl

uncompact-compact_example :
    ((uncompact (compact reward_funds)).e8 ≤ reward_funds.e8)
    × (1024 * reward_funds.e8 < 1025 * (uncompact (compact reward_funds)).e8)
uncompact-compact_example = uncompact-compact reward_funds (omega arith) (omega arith)

abbrev no_funds : Funds
no_funds = record { e8 = 0 }

abbrev some_bytes : List ℕ
some_bytes = 0 ∷ 171 ∷ 255 ∷ []

parse_hex-serialize_hex_example :
    (hex_to_arr (length some_bytes) (serialize_hex some_bytes) ≡ some some_bytes)
    × (hex_to_vec (serialize_hex some_bytes) ≡ some some_bytes)
parse_hex-serialize_hex_example = parse_hex-serialize_hex some_bytes (omega arith)

-- The text aBf0.
abbrev some_hex : List ℕ
some_hex = 97 ∷ 66 ∷ 102 ∷ 48 ∷ []

abbrev its_bytes : List ℕ
its_bytes = 171 ∷ 240 ∷ []

parsed : parse_hex some_hex 2 ≡ some its_bytes
unfolding parse_hex parse_pairs hexdigit
parsed = refl
