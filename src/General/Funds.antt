-- ===== src/General/Funds.antt =====
-- src/shared/src/general/funds.{hpp,cpp}: amounts in the smallest unit, printed and parsed with eight
-- decimals. A text is the list of its character codes.
pub mod RoundTrip
use janusminer.Common.{ℕ, zero, suc, ◌+◌, ◌-◌, ◌*◌, ◌/◌, ◌%◌, ◌^◌, ◌≡◌, ◌<◌}
use janusminer.Common.{Bool, true, false, ◌&&◌, ◌||◌, Option, none, some, List, [], ◌∷◌, ◌++◌}
use janusminer.Common.{u64, ltb, leb, ◌==◌, if◌then◌else◌, length, take, drop, replicate}
use janusminer.General.Decimal.{to_string, read_digits}
use janusminer.Chain.Height.{max_supply}

-- The `uint64_t` of `Funds`; `+=` and `-=` wrap.
pub record Funds : Type 0 where
  pub e8 : ℕ

unfoldable pub overflow : Funds → Bool
overflow f = ltb max_supply f.e8

unfoldable pub is_zero : Funds → Bool
is_zero f = f.e8 == 0

infixl 65 ◌+f◌ ◌-f◌
unfoldable pub ◌+f◌ : Funds → Funds → Funds
a +f b = record { e8 = (a.e8 + b.e8) % u64 }

unfoldable pub ◌-f◌ : Funds → Funds → Funds
a -f b = record { e8 = (a.e8 + u64 - b.e8) % u64 }

-- The loops that move the last `k` characters up by one and put a dot in the gap.
unfoldable pub insert_dot : ℕ → List ℕ → List ℕ
insert_dot k s = take (length s - k) s ++ b'.' ∷ drop (length s - k) s

unfoldable pub print : Funds → List ℕ
unfolding insert_dot is_zero
print f =
    let s = to_string f.e8 in
    let p = length s in
    if is_zero f
    then b'0' ∷ []
    else if leb 9 p
    then insert_dot 8 s
    else b'0' ∷ b'.' ∷ replicate (8 - p) b'0' ++ s

-- What `parse` does: `overrun` is a write past the end of its buffer, and `invalid` the exception that
-- `std::stoull` throws on a text with no digit.
pub data Parsed : Type 0 where
  value : Funds → Parsed
  nothing overrun invalid : Parsed

abbrev pub buf_size : ℕ
buf_size = 17

-- The loop: `dot` is `dotindex` if `dotfound`. Its writes to `buf` go one behind the other, so `buf`
-- is the list of what is written. `none` is `return {}`.
unfoldable pub parse_loop : ℕ → Option ℕ → List ℕ → List ℕ → Option (ℕ × Option ℕ × List ℕ)
parse_loop i dot buf [] = some (i, dot, buf)
parse_loop i none buf (c ∷ s) =
    let at_dot = parse_loop (i + 1) (some i) buf s in
    let at_digit = parse_loop (i + 1) none (buf ++ c ∷ []) s in
    if leb 18 i || i == 17
    then none
    else if c == b'.'
    then at_dot
    else if leb b'0' c && leb c b'9'
    then at_digit
    else none
parse_loop i (some d) buf (c ∷ s) =
    let at_digit = parse_loop (i + 1) (some d) (buf ++ c ∷ []) s in
    if leb 18 i
    then none
    else if c == b'.'
    then none
    else if leb b'0' c && leb c b'9'
    then at_digit
    else none

-- `std::stoull(buf) * powers10[missing]`
unfoldable pub read_buffer : List ℕ → ℕ → Parsed
read_buffer [] missing = invalid
read_buffer (c ∷ buf) missing = value (record { e8 = read_digits 0 (c ∷ buf) * 10 ^ missing % u64 })

-- From the write of the terminating 0 on.
unfoldable pub finish : ℕ → Option ℕ → List ℕ → Parsed
unfolding read_buffer
finish i dot buf = if leb buf_size (length buf) then overrun else elim dot [
  | some d ↦
      if ltb 8 d
      then nothing
      else if ltb 8 (i - d - 1)
      then nothing
      else read_buffer buf (8 - (i - d - 1))
  | none ↦ if ltb 8 i then nothing else read_buffer buf 8
]

unfoldable pub parse : List ℕ → Parsed
parse s = elim (parse_loop 0 none [] s) [ none ↦ nothing | some (i, dot, buf) ↦ finish i dot buf ]
