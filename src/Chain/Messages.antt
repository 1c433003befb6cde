-- ===== src/Chain/Messages.antt =====
-- What is written as bytes and read back: `PinNonce` (block/body/nonce.cpp), `TransactionId`
-- (block/body/transaction_id.{hpp,cpp}), `BodyContainer` (block/body/container.cpp) and
-- `PaymentCreateMessage` (communication/create_payment.{hpp,cpp}), all under src/shared/src. `none` is
-- a failed `assert` of a writer, or the exception of a reader.
pub mod RoundTrip
pub mod Payment
pub mod PaymentRoundTrip
use janusminer.Common.{ℕ, ◌+◌, ◌≡◌, Bool, true, false, Option, none, some, List, [], ◌∷◌, length}
use janusminer.Common.{◌>>=◌, ◌>>◌, guard, u32, ltb, if◌then◌else◌, ◌%◌, ◌^◌}
use janusminer.General.Reader.{Reader, checked, read, uint8, uint16, uint32, uint64, span}
use janusminer.General.Writer.{Writer, put, put8, put16, put32, put64}
use janusminer.Chain.Height.{pin_height, nonzero}
use janusminer.Chain.PinNonce.{PinNonce}

-- `Height(Reader&)`, `PinHeight(Height(r))` and `NonzeroHeight(Reader&)`; `operator<<(Writer&, Height)`.
unfoldable pub read_height : Reader → Option (ℕ × Reader)
read_height r = uint32 r

unfoldable pub read_pin_height : Reader → Option (ℕ × Reader)
read_pin_height r = do (h, r1) ← read_height r; pin ← pin_height h; some (pin, r1)

unfoldable pub read_nonzero_height : Reader → Option (ℕ × Reader)
read_nonzero_height r = do (h, r1) ← read_height r; v ← nonzero h; some (v, r1)

unfoldable pub write_height : Writer → ℕ → Option Writer
write_height w h = put32 w h

unfoldable pub pin_nonce_fields : Reader → Option (PinNonce × Reader)
pin_nonce_fields r = do
  (id, r1) ← uint32 r
  (relative, r2) ← uint8 r1
  (reserved, r3) ← read 3 r2
  some (record { id = id; relative_pin = relative; reserved = reserved }, r3)

unfoldable pub read_pin_nonce : Reader → Option (PinNonce × Reader)
read_pin_nonce = checked 8 pin_nonce_fields

unfoldable pub write_pin_nonce : Writer → PinNonce → Option Writer
write_pin_nonce w n = do w1 ← put32 w n.id; w2 ← put8 w1 n.relative_pin; put w2 n.reserved

pub record TransactionId : Type 0 where
  pub account_id : ℕ
  pub pin_height : ℕ
  pub nonce_id : ℕ

unfoldable pub read_transaction_id : Reader → Option (TransactionId × Reader)
read_transaction_id r = do
  (account, r1) ← uint64 r
  (pin, r2) ← read_pin_height r1
  (nonce, r3) ← uint32 r2
  some (record { account_id = account; pin_height = pin; nonce_id = nonce }, r3)

unfoldable pub write_transaction_id : Writer → TransactionId → Option Writer
write_transaction_id w id = do
  w1 ← put64 w id.account_id
  w2 ← write_height w1 id.pin_height
  put32 w2 id.nonce_id

-- `BodyContainer` is its bytes.
unfoldable pub read_body : Reader → Option (List ℕ × Reader)
read_body r = span r

unfoldable pub write_body : Writer → List ℕ → Option Writer
write_body w bytes = do w1 ← put32 w (length bytes % u32); put w1 bytes

unfoldable pub serialized_size : List ℕ → ℕ
serialized_size bytes = length bytes + 4
