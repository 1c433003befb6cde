-- ===== src/Chain/Messages/RoundTrip.antt =====
-- Proofs on what Chain/Messages writes and reads.
use janusminer.Common.{ℕ, ◌+◌, ◌%◌, ◌≡◌, ◌<◌, ◌≤◌, arith, refl, append_assoc}
use janusminer.Common.{true, some, List, ◌++◌, length, length-append}
use janusminer.Common.{u32, u64, u8, ◌>>=◌}
use janusminer.General.Reader.{span}
use janusminer.General.Writer.{Writer, put, put32}
use janusminer.General.Writer.Encodes.{
  Wrote, checked-Encodes, put_range, put8_lem, put32_lem, put64_lem,
}
use janusminer.Chain.Height.{pin_height, is_pin_height}
use janusminer.Chain.PinNonce.{PinNonce}
use janusminer.Chain.Messages.{
  TransactionId, read_height, read_pin_height, write_height, pin_nonce_fields, read_pin_nonce,
  write_pin_nonce,
}
use janusminer.Chain.Messages.{
  read_transaction_id, write_transaction_id, read_body, write_body, serialized_size,
}

pub pin_height-some : (h : ℕ) → is_pin_height h ≡ true → pin_height h ≡ some h
unfolding pin_height
pin_height-some h e = ground arith

pub write_height_lem :
    (w : Writer) (h : ℕ)
    → h < u32
    → is_pin_height h ≡ true
    → 4 ≤ w.remaining
    → Wrote read_pin_height 4 h w (write_height w h)
unfolding write_height
write_height_lem w h l p room =
    let (w', e, c) = put32_lem w h l room in
    (
      w',
      e,
      record {
        bytes = c.bytes;
        written = c.written;
        count = c.count;
        room = c.room;
        reads = λ r. unfold read_pin_height read_height in rw (c.reads r, pin_height-some h p) refl;
      },
    )

-- A nonce of a transaction is written in 8 bytes, and read back.
pub write_pin_nonce_lem :
    (w : Writer) (n : PinNonce)
    → n.id < u32
    → n.relative_pin < u8
    → length n.reserved ≡ 3
    → 8 ≤ w.remaining
    → Wrote read_pin_nonce 8 n w (write_pin_nonce w n)
unfolding write_pin_nonce
write_pin_nonce_lem w n h1 h2 h3 room =
    let (w1, e1, c1) = put32_lem w n.id h1 (omega arith) in
    let (w2, e2, c2) = put8_lem w1 n.relative_pin (omega (arith, c1.room)) in
    let (w3, e3, c3) = put_range w2 n.reserved 3 h3 (omega (arith, c1.room, c2.room)) in
    (
      w3,
      rw (e1, e2, e3) refl,
      unfold read_pin_nonce in
          checked-Encodes pin_nonce_fields 8 n (record {
            bytes = c1.bytes ++ (c2.bytes ++ c3.bytes);
            written = simp (c3.written, c2.written, c1.written, append_assoc);
            count = omega (
              arith,
              length-append c1.bytes (c2.bytes ++ c3.bytes),
              length-append c2.bytes c3.bytes,
              c1.count,
              c2.count,
              c3.count,
            );
            room = omega (arith, c1.room, c2.room, c3.room);
            reads =
                λ r. unfold pin_nonce_fields in simp (append_assoc, c1.reads, c2.reads, c3.reads);
          }),
    )

pub record IsTransactionId (id : TransactionId) : Type 0 where
  pub account_range : id.account_id < u64
  pub pin_range : id.pin_height < u32
  pub is_pin : is_pin_height id.pin_height ≡ true
  pub nonce_range : id.nonce_id < u32

-- A transaction id with fields in range is written in 16 bytes where there is room, and read back.
pub write_transaction_id_lem :
    (w : Writer) (id : TransactionId)
    → IsTransactionId id
    → 16 ≤ w.remaining
    → Wrote read_transaction_id 16 id w (write_transaction_id w id)
unfolding write_transaction_id
write_transaction_id_lem w id v room =
    let (w1, e1, c1) = put64_lem w id.account_id v.account_range (omega arith) in
    let (w2, e2, c2) =
      write_height_lem w1 id.pin_height v.pin_range v.is_pin (omega (arith, c1.room)) in
    let (w3, e3, c3) = put32_lem w2 id.nonce_id v.nonce_range (omega (arith, c1.room, c2.room)) in
    (
      w3,
      rw (e1, e2, e3) refl,
      record {
        bytes = c1.bytes ++ (c2.bytes ++ c3.bytes);
        written = simp (c3.written, c2.written, c1.written, append_assoc);
        count = omega (
          arith,
          length-append c1.bytes (c2.bytes ++ c3.bytes),
          length-append c2.bytes c3.bytes,
          c1.count,
          c2.count,
          c3.count,
        );
        room = omega (arith, c1.room, c2.room, c3.room);
        reads =
            λ r. unfold read_transaction_id in simp (append_assoc, c1.reads, c2.reads, c3.reads);
      },
    )

body_Wrote :
    (w : Writer) (body : List ℕ) (n : ℕ)
    → length body ≡ n
    → n < u32
    → n + 4 ≤ w.remaining
    → Wrote read_body (n + 4) body w (put32 w n >>= λ w1. put w1 body)
body_Wrote w body n e h room =
    let (w1, e1, c1) = put32_lem w n h (omega arith) in
    let (w2, e2, c2) = put_range w1 body n e (omega (arith, c1.room)) in
    (
      w2,
      rw (e1, e2) refl,
      record {
        bytes = c1.bytes ++ c2.bytes;
        written = simp (c2.written, c1.written, append_assoc);
        count = omega (arith, length-append c1.bytes c2.bytes, c1.count, c2.count);
        room = omega (arith, c1.room, c2.room);
        reads = λ r. unfold read_body span in simp (append_assoc, c1.reads, c2.reads);
      },
    )

-- A body of a 32-bit size is written in its serialized size where there is room, and read back.
pub write_body_lem :
    (w : Writer) (body : List ℕ)
    → length body < u32
    → serialized_size body ≤ w.remaining
    → Wrote read_body (serialized_size body) body w (write_body w body)
unfolding write_body serialized_size
write_body_lem w body h room =
    let plain : length body % u32 ≡ length body = omega arith in
    rw plain (body_Wrote w body (length body) refl h room)
