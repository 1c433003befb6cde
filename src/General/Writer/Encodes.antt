-- ===== src/General/Writer/Encodes.antt =====
-- What it is for a write to be undone by a reader, and lemmas on the writes of General/Writer
-- (src/shared/src/general/writer.hpp).
use janusminer.Common.{ℕ, ◌+◌, ◌-◌, ◌≡◌, ◌<◌, ◌≤◌, arith, refl, append_assoc}
use janusminer.Common.{true, Option, some, List, [], ◌∷◌, ◌++◌, length, length-append}
use janusminer.Common.{u16, u32, u64, leb, ◌==◌}
use janusminer.General.ByteOrder.{hton16, hton32, hton64, bytes16, bytes32, bytes64}
use janusminer.General.Reader.{Reader, checked, read, uint8, uint16, uint32, uint64}
use janusminer.General.Reader.Laws.{
  read-of, uint8-byte, uint16-bytes16, uint32-bytes32, uint64-bytes64,
}
use janusminer.General.Writer.{Writer, put, put8, put16, put32, put64}

-- From `w` to `w'` there are `size` bytes more, which `reader` reads as `a`, whatever follows.
pub record Encodes {ℓ} {A : Type ℓ} (reader : Reader → Option (A × Reader)) (size : ℕ) (a : A)
    (w w' : Writer) : Type ℓ where
  pub bytes : List ℕ
  pub written : w'.written ≡ w.written ++ bytes
  pub count : length bytes ≡ size
  pub room : w'.remaining + size ≡ w.remaining
  pub reads : (r : Reader) → reader (bytes ++ r) ≡ some (a, r)

-- The assert of a `ReaderCheck` holds for what was written.
pub checked-Encodes {ℓ} :
    {A : Type ℓ} (reader : Reader → Option (A × Reader)) (size : ℕ) (a : A) {w w' : Writer}
    → Encodes reader size a w w'
    → Encodes (checked size reader) size a w w'
unfolding checked
checked-Encodes reader size a c = record {
  bytes = c.bytes;
  written = c.written;
  count = c.count;
  room = c.room;
  reads = λ r.
      let all_read : (length (c.bytes ++ r) == length r + size) ≡ true =
        ground (arith, length-append c.bytes r, c.count) in
      rw (c.reads r, all_read) refl;
}

-- The result of a write that has room.
abbrev pub Wrote {ℓ} :
    {A : Type ℓ} → (Reader → Option (A × Reader)) → ℕ → A → Writer → Option Writer → Type ℓ
Wrote reader size a w o = (w' : Writer) × (o ≡ some w') × Encodes reader size a w w'

put-fits :
    (w : Writer) (bs : List ℕ)
    → length bs ≤ w.remaining
    → put w bs ≡ some (record { written = w.written ++ bs; remaining = w.remaining - length bs })
unfolding put
put-fits w bs h = let c : leb (length bs) w.remaining ≡ true = ground arith in rw c refl

put-Wrote {ℓ} :
    {A : Type ℓ} (reader : Reader → Option (A × Reader)) (a : A) (w : Writer) (bs : List ℕ) (n : ℕ)
    → length bs ≡ n
    → n ≤ w.remaining
    → ((r : Reader) → reader (bs ++ r) ≡ some (a, r))
    → Wrote reader n a w (put w bs)
put-Wrote reader a w bs n e h reads = (
  record { written = w.written ++ bs; remaining = w.remaining - length bs },
  put-fits w bs (omega arith),
  record { bytes = bs; written = refl; count = e; room = omega arith; reads = reads },
)

pub put_range :
    (w : Writer) (bs : List ℕ) (n : ℕ)
    → length bs ≡ n
    → n ≤ w.remaining
    → Wrote (read n) n bs w (put w bs)
put_range w bs n e h = put-Wrote (read n) bs w bs n e h (λ r. read-of n bs r e)

pub put8_lem : (w : Writer) (x : ℕ) → 1 ≤ w.remaining → Wrote uint8 1 x w (put8 w x)
unfolding put8
put8_lem w x h = put-Wrote uint8 x w (x ∷ []) 1 refl h (λ r. uint8-byte x r)

pub put16_lem : (w : Writer) (x : ℕ) → x < u16 → 2 ≤ w.remaining → Wrote uint16 2 x w (put16 w x)
unfolding put16
put16_lem w x l h =
    put-Wrote uint16 x w (bytes16 (hton16 x)) 2 (unfold bytes16 in refl) h
      (λ r. uint16-bytes16 x r l)

pub put32_lem : (w : Writer) (x : ℕ) → x < u32 → 4 ≤ w.remaining → Wrote uint32 4 x w (put32 w x)
unfolding put32
put32_lem w x l h =
    put-Wrote uint32 x w (bytes32 (hton32 x)) 4 (unfold bytes32 in refl) h
      (λ r. uint32-bytes32 x r l)

pub put64_lem : (w : Writer) (x : ℕ) → x < u64 → 8 ≤ w.remaining → Wrote uint64 8 x w (put64 w x)
unfolding put64
put64_lem w x l h =
    put-Wrote uint64 x w (bytes64 (hton64 x)) 8 (unfold bytes64 in refl) h
      (λ r. uint64-bytes64 x r l)

-- One write behind another is read by one reader behind the other.
pub Encodes-then {ℓ κ ν} :
    {A : Type ℓ} {B : Type κ} {C : Type ν} {p : Reader → Option (A × Reader)}
    {q : Reader → Option (B × Reader)} {m n : ℕ} {a : A} {b : B} {u v w : Writer}
    (reader : Reader → Option (C × Reader)) (c : C)
    → Encodes p m a u v
    → Encodes q n b v w
    → ((r s t : Reader) → p r ≡ some (a, s) → q s ≡ some (b, t) → reader r ≡ some (c, t))
    → Encodes reader (m + n) c u w
Encodes-then reader c e f both = record {
  bytes = e.bytes ++ f.bytes;
  written = rw (f.written, e.written) (append_assoc _ e.bytes f.bytes);
  count = omega (arith, length-append e.bytes f.bytes, e.count, f.count);
  room = omega (arith, e.room, f.room);
  reads = λ r.
      both ((e.bytes ++ f.bytes) ++ r) (f.bytes ++ r) r
        (rw (append_assoc e.bytes f.bytes r) (e.reads (f.bytes ++ r))) (f.reads r);
}
