-- ===== src/General/Reader.antt =====
-- src/shared/src/general/reader.hpp: a cursor over bytes. A `Reader` is the list of the bytes between
-- its cursor and its end; `none` is the exception `EMALFORMED`, thrown before anything is read.
pub mod Laws
use janusminer.Common.{ℕ, zero, suc, ◌+◌, ◌*◌, ◌≡◌, ◌<◌, arith, refl}
use janusminer.Common.{
  Bool, true, false, Option, none, some, List, [], ◌∷◌, ◌++◌, length, take, drop,
}
use janusminer.Common.{u16, u32, u64, ltb, leb, ◌==◌, if◌then◌else◌, ◌>>=◌, ◌>>◌, guard}
use janusminer.Common.{length-append, take-append, drop-append, Bool-cases, inl, inr, ◌∙◌, ap}
use janusminer.General.ByteOrder.{
  hton16, hton32, hton64, bytes16, bytes32, bytes64, from_bytes, byte_swap16, byte_swap32,
  byte_swap64,
}
use janusminer.General.ByteOrder.{
  byte_swap16-byte_swap16, byte_swap32-byte_swap32, byte_swap64-byte_swap64,
}

abbrev pub Reader : Type 0
Reader = List ℕ

-- `read(out, bytes)`, and `take_span`, `view` and `copy_checkrange`, which check the same.
unfoldable pub read : ℕ → Reader → Option (List ℕ × Reader)
read n r = if ltb (length r) n then none else some (take n r, drop n r)

unfoldable pub skip : ℕ → Reader → Option Reader
skip n r = if ltb (length r) n then none else some (drop n r)

unfoldable pub uint8 : Reader → Option (ℕ × Reader)
unfolding read from_bytes
uint8 r = do (bs, r') ← read 1 r; some (from_bytes bs, r')

unfoldable pub uint16 : Reader → Option (ℕ × Reader)
uint16 r = do (bs, r') ← read 2 r; some (hton16 (from_bytes bs), r')

unfoldable pub uint32 : Reader → Option (ℕ × Reader)
uint32 r = do (bs, r') ← read 4 r; some (hton32 (from_bytes bs), r')

unfoldable pub uint64 : Reader → Option (ℕ × Reader)
uint64 r = do (bs, r') ← read 8 r; some (hton64 (from_bytes bs), r')

-- A constructor that takes a `ReaderCheck<n>`: its destructor asserts that `n` bytes were read.
unfoldable pub checked {ℓ} :
    {A : Type ℓ} → ℕ → (Reader → Option (A × Reader)) → Reader → Option (A × Reader)
checked n reader r = do (a, r') ← reader r; guard (length r == length r' + n); some (a, r')

-- `span`: the length as a `uint32_t`, and as many bytes.
unfoldable pub span : Reader → Option (List ℕ × Reader)
span r = do (n, r') ← uint32 r; read n r'

unfoldable pub rest : Reader → Option (List ℕ × Reader)
rest r = read (length r) r

unfoldable pub eof : Reader → Bool
eof [] = true
eof (b ∷ r) = false

-- `n` words in a row, as the loop of `worksum` reads them.
unfoldable pub words : ℕ → Reader → Option (List ℕ × Reader)
words zero r = some ([], r)
words (suc n) r = do (w, r') ← uint32 r; (ws, r'') ← words n r'; some (w ∷ ws, r'')
