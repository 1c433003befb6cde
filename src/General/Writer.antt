-- ===== src/General/Writer.antt =====
-- src/shared/src/general/writer.hpp: a cursor that writes into memory of a fixed size.
pub mod Encodes
use janusminer.Common.{ℕ, ◌-◌, ◌≡◌}
use janusminer.Common.{Bool, true, false, Option, none, some, List, [], ◌∷◌, ◌++◌, length}
use janusminer.Common.{leb, guard, ◌>>=◌, ◌>>◌}
use janusminer.General.ByteOrder.{hton16, hton32, hton64, bytes16, bytes32, bytes64}

-- What is written so far, and the bytes left between the cursor and the end.
pub record Writer : Type 0 where
  pub written : List ℕ
  pub remaining : ℕ

-- `Writer(std::vector&)` at its first byte.
unfoldable pub new_writer : ℕ → Writer
new_writer n = record { written = []; remaining = n }

-- `operator<<(const Range&)`; `none` is the failed `assert`.
unfoldable pub put : Writer → List ℕ → Option Writer
put w bs = do
  guard (leb (length bs) w.remaining)
  some (record { written = w.written ++ bs; remaining = w.remaining - length bs })

unfoldable pub put8 : Writer → ℕ → Option Writer
put8 w i = put w (i ∷ [])

unfoldable pub put16 : Writer → ℕ → Option Writer
put16 w i = put w (bytes16 (hton16 i))

unfoldable pub put32 : Writer → ℕ → Option Writer
put32 w i = put w (bytes32 (hton32 i))

unfoldable pub put64 : Writer → ℕ → Option Writer
put64 w i = put w (bytes64 (hton64 i))
