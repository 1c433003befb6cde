-- ===== src/Chain/Messages/Payment.antt =====
-- src/shared/src/communication/create_payment.{hpp,cpp}. Signatures are those of libsecp256k1, behind
-- `RecoverableSignature` of crypto/crypto.cpp: a type with its parser and serializer.
use janusminer.Common.{ℕ, Option, some, List, ◌==◌, ◌>>=◌, ◌>>◌, guard}
use janusminer.General.Reader.{Reader, checked, read, uint16, uint32, uint64}
use janusminer.General.Writer.{Writer, new_writer, put, put16, put32, put64}
use janusminer.Chain.Messages.{read_pin_height, write_height}

abbrev pub payment_size : ℕ
payment_size = 106

module _ (Signature : Type 0) where
  pub record PaymentCreateMessage : Type 0 where
    pub pin_height : ℕ
    pub nonce_id : ℕ
    pub reserved : List ℕ
    pub compact_fee : ℕ
    pub to_addr : List ℕ
    pub amount : ℕ
    pub signature : Signature

  module _ (from_view : List ℕ → Option Signature) (serialize : Signature → List ℕ) where
    -- `RecoverableSignature(View<65>)`.
    unfoldable pub read_signature : Reader → Option (Signature × Reader)
    read_signature r = do (bytes, r1) ← read 65 r; s ← from_view bytes; some (s, r1)

    -- It asserts that the bytes parse.
    unfoldable pub write_signature : Writer → Signature → Option Writer
    write_signature w s = do _ ← from_view (serialize s); put w (serialize s)

    unfoldable pub payment_fields : Reader → Option (PaymentCreateMessage × Reader)
    payment_fields r = do
      (pin, r1) ← read_pin_height r
      (nonce, r2) ← uint32 r1
      (reserved, r3) ← read 3 r2
      (fee, r4) ← uint16 r3
      (to, r5) ← read 20 r4
      (amount, r6) ← uint64 r5
      (s, r7) ← read_signature r6
      some (
        record {
          pin_height = pin;
          nonce_id = nonce;
          reserved = reserved;
          compact_fee = fee;
          to_addr = to;
          amount = amount;
          signature = s;
        },
        r7,
      )

    unfoldable pub read_payment : Reader → Option (PaymentCreateMessage × Reader)
    read_payment = checked payment_size payment_fields

    unfoldable pub write_payment : Writer → PaymentCreateMessage → Option Writer
    write_payment w m = do
      w1 ← write_height w m.pin_height
      w2 ← put32 w1 m.nonce_id
      w3 ← put w2 m.reserved
      w4 ← put16 w3 m.compact_fee
      w5 ← put w4 m.to_addr
      w6 ← put64 w5 m.amount
      write_signature w6 m.signature

    -- `operator std::vector<uint8_t>`: all of the 106 bytes are written.
    unfoldable pub payment_bytes : PaymentCreateMessage → Option (List ℕ)
    payment_bytes m = do
      w ← write_payment (new_writer payment_size) m
      guard (w.remaining == 0)
      some w.written
