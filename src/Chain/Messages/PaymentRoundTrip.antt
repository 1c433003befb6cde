-- ===== src/Chain/Messages/PaymentRoundTrip.antt =====
-- Proofs on the bytes of a payment (src/shared/src/communication/create_payment.cpp).
use janusminer.Common.{ℕ, ◌≡◌, ◌<◌, ◌≤◌, arith, refl, append_assoc, ==_iff}
use janusminer.Common.{true, Option, some, List, ◌++◌, length, length-append}
use janusminer.Common.{u16, u32, u64, ◌==◌}
use janusminer.General.Reader.{Reader, read, uint16, uint32, uint64}
use janusminer.General.Writer.{Writer, new_writer}
use janusminer.General.Writer.Encodes.{
  Encodes, Wrote, checked-Encodes, put_range, put16_lem, put32_lem, put64_lem,
}
use janusminer.Chain.Height.{is_pin_height}
use janusminer.Chain.Messages.{read_pin_height}
use janusminer.Chain.Messages.RoundTrip.{write_height_lem}
use janusminer.Chain.Messages.Payment.{
  PaymentCreateMessage, read_signature, write_signature, payment_fields, read_payment,
  write_payment, payment_bytes, payment_size,
}

module _ (Signature : Type 0) (from_view : List ℕ → Option Signature)
    (serialize : Signature → List ℕ) (size : (s : Signature) → length (serialize s) ≡ 65)
    (parses : (s : Signature) → from_view (serialize s) ≡ some s) where
  write_signature_lem :
      (w : Writer) (s : Signature)
      → 65 ≤ w.remaining
      → Wrote
          (read_signature Signature from_view serialize)
          65
          s
          w
          (write_signature Signature from_view serialize w s)
  unfolding write_signature
  write_signature_lem w s room =
      let (w1, e1, c1) = put_range w (serialize s) 65 (size s) room in
      (
        w1,
        rw (parses s) e1,
        record {
          bytes = c1.bytes;
          written = c1.written;
          count = c1.count;
          room = c1.room;
          reads = λ r. unfold read_signature in rw (c1.reads r, parses s) refl;
        },
      )

  pub record IsPayment (m : PaymentCreateMessage Signature) : Type 0 where
    pub pin_range : m.pin_height < u32
    pub is_pin : is_pin_height m.pin_height ≡ true
    pub nonce_range : m.nonce_id < u32
    pub three : length m.reserved ≡ 3
    pub fee_range : m.compact_fee < u16
    pub twenty : length m.to_addr ≡ 20
    pub amount_range : m.amount < u64

  -- Seven writes in a row are those of a payment.
  payment_Encodes :
      (m : PaymentCreateMessage Signature) {w0 w1 w2 w3 w4 w5 w6 w7 : Writer}
      → Encodes read_pin_height 4 m.pin_height w0 w1
      → Encodes uint32 4 m.nonce_id w1 w2
      → Encodes (read 3) 3 m.reserved w2 w3
      → Encodes uint16 2 m.compact_fee w3 w4
      → Encodes (read 20) 20 m.to_addr w4 w5
      → Encodes uint64 8 m.amount w5 w6
      → Encodes (read_signature Signature from_view serialize) 65 m.signature w6 w7
      → Encodes (payment_fields Signature from_view serialize) payment_size m w0 w7
  payment_Encodes m c1 c2 c3 c4 c5 c6 c7 = record {
    bytes =
        c1.bytes ++ (c2.bytes ++ (c3.bytes ++ (c4.bytes ++ (c5.bytes ++ (c6.bytes ++ c7.bytes)))));
    written =
        rw (c7.written, c6.written, c5.written, c4.written, c3.written, c2.written, c1.written)
          (simp append_assoc);
    count =
        simp (length-append, c1.count, c2.count, c3.count, c4.count, c5.count, c6.count, c7.count);
    room = omega (arith, c1.room, c2.room, c3.room, c4.room, c5.room, c6.room, c7.room);
    reads = λ r.
        unfold payment_fields in
        simp (append_assoc, c1.reads, c2.reads, c3.reads, c4.reads, c5.reads, c6.reads, c7.reads);
  }

  write_payment_lem :
      (w : Writer) (m : PaymentCreateMessage Signature)
      → IsPayment m
      → payment_size ≤ w.remaining
      → Wrote
          (read_payment Signature from_view serialize)
          payment_size
          m
          w
          (write_payment Signature from_view serialize w m)
  unfolding write_payment
  write_payment_lem w m v room =
      let (w1, e1, c1) = write_height_lem w m.pin_height v.pin_range v.is_pin (omega arith) in
      let (w2, e2, c2) = put32_lem w1 m.nonce_id v.nonce_range (omega (arith, c1.room)) in
      let (w3, e3, c3) = put_range w2 m.reserved 3 v.three (omega (arith, c1.room, c2.room)) in
      let (w4, e4, c4) =
        put16_lem w3 m.compact_fee v.fee_range (omega (arith, c1.room, c2.room, c3.room)) in
      let (w5, e5, c5) =
        put_range w4 m.to_addr 20 v.twenty (omega (arith, c1.room, c2.room, c3.room, c4.room)) in
      let (w6, e6, c6) =
        put64_lem w5 m.amount v.amount_range
          (omega (arith, c1.room, c2.room, c3.room, c4.room, c5.room)) in
      let (w7, e7, c7) =
        write_signature_lem w6 m.signature
          (omega (arith, c1.room, c2.room, c3.room, c4.room, c5.room, c6.room)) in
      (
        w7,
        rw (e1, e2, e3, e4, e5, e6) e7,
        unfold read_payment in
            checked-Encodes (payment_fields Signature from_view serialize) payment_size m
              (payment_Encodes m c1 c2 c3 c4 c5 c6 c7),
      )

  -- For signatures that are serialized in 65 bytes and parsed from them, a payment with fields in
  -- range is turned into 106 bytes, from which it is read back.
  pub payment_bytes_lem :
      (m : PaymentCreateMessage Signature)
      → IsPayment m
      → (bytes : List ℕ) × (payment_bytes Signature from_view serialize m ≡ some bytes)
        × (length bytes ≡ payment_size)
        × ((r : Reader) → read_payment Signature from_view serialize (bytes ++ r) ≡ some (m, r))
  unfolding payment_bytes new_writer
  payment_bytes_lem m v =
      let (w, e, c) = write_payment_lem (new_writer payment_size) m v (omega arith) in
      let full : w.remaining == 0 ≡ true = (==_iff _ _).1 (omega (arith, c.room)) in
      (c.bytes, rw (e, full) (rw (c.written) refl), c.count, c.reads)
