-- ===== src/Miner/CyclicQueue/Alloc.antt =====
-- Proofs on `CyclicQueue::alloc` (src/miner/cyclic_queue.hpp).
use janusminer.Common.{ℕ, ◌+◌, ◌-◌, ◌%◌, ◌≡◌, ◌<◌, ◌≤◌, ◌⊎◌, inl, inr, arith, refl}
use janusminer.Common.{true, false, not, Option, none, some, Bool-cases}
use janusminer.Common.{ltb, leb, ◌==◌, if◌then◌else◌}
use janusminer.Miner.CyclicQueue.{
  Span, Buffer, Queue, Part, empty_span, is_empty, part_len, alloc_part,
}
use janusminer.Miner.CyclicQueue.{
  failed, push_buffer, alloc_round, second_part, alloc, free, available,
}

pub record IsValid (q : Queue) : Type 0 where
  pub room : 3 ≤ q.size
  pub head : q.i0 ≤ q.size
  pub tail : q.i1 ≤ q.size
  pub tail_pos : 0 < q.i1

-- The position `p` of `data` may be given out.
abbrev pub IsFree : Queue → ℕ → Type 0
IsFree q p =
    ((q.i0 < q.i1) × (q.i0 ≤ p) × (p < q.i1))
    ⊎ ((q.i1 ≤ q.i0) × (q.has_space ≡ true) × (q.i0 ≤ p) × (p < q.size))
    ⊎ ((q.i1 ≤ q.i0) × (q.has_space ≡ true) × (p < q.i1))

abbrev pub Holds : Span → ℕ → Type 0
Holds s p = (s.start ≤ p) × (p < s.start + s.len)

part_len_lem :
    (n maxlen : ℕ)
    → (part_len n maxlen ≤ n)
      × (part_len n maxlen ≤ maxlen)
      × ((part_len n maxlen < 2) ⊎ (part_len n maxlen % 2 ≡ n % 2))
unfolding part_len
part_len_lem n maxlen = ground arith

-- What one `alloc_part` does: nothing, or it takes `len` positions from `j0` on.
record Took (q : Queue) (j0 n maxlen : ℕ) (p : Part) : Type 0 where
  len : ℕ
  even : len % 2 ≡ n % 2
  big : 2 ≤ len
  most : len ≤ n
  fits : len ≤ maxlen
  result : p ≡ record {
    span = record { start = j0; len = len };
    left = n - len;
    queue = record q { i0 = j0 + len; has_space = not (j0 + len == q.i1) };
  }

alloc_part-cases :
    (q : Queue) (j0 n maxlen : ℕ)
    → (alloc_part q j0 n maxlen ≡ record { span = empty_span; left = n; queue = q })
      ⊎ Took q j0 n maxlen (alloc_part q j0 n maxlen)
unfolding alloc_part
alloc_part-cases q j0 n maxlen =
    let l = part_len_lem n maxlen in
    elim (Bool-cases (ltb (part_len n maxlen) 2)) [
      | inl c ↦ inl (rw c)
      | inr c ↦ inr (record {
        len = part_len n maxlen;
        even = ground (arith, l);
        big = ground arith;
        most = l.0;
        fits = l.1;
        result = rw c;
      })
    ]

-- What a call of `alloc` that gives a buffer has done.
pub record Gave (q : Queue) (n : ℕ) (b : Buffer) (q' : Queue) : Type 0 where
  pub valid : IsValid q'
  pub odd_first : b.first.len % 2 ≡ 1
  pub counter : 3 ≤ b.first.len
  pub even_second : b.second.len % 2 ≡ 0
  pub at_most : b.first.len + b.second.len ≤ n
  pub cursor : b.destruct_cursor ≡ q'.i0
  pub same_tail : q'.i1 ≡ q.i1
  pub same_size : q'.size ≡ q.size

-- What a call that gives a buffer does to the free positions: it takes those of the buffer, and
-- makes none free.
pub record Takes (q : Queue) (b : Buffer) (q' : Queue) : Type 0 where
  pub was_free : (p : ℕ) → Holds b.first p ⊎ Holds b.second p → IsFree q p
  pub now_used : (p : ℕ) → Holds b.first p ⊎ Holds b.second p → ¬ IsFree q' p
  pub was_free_before : (p : ℕ) → IsFree q' p → IsFree q p

-- What any call of `alloc` has done; a failed one moves nothing.
abbrev pub Outcome : Queue → ℕ → Option Buffer × Queue → Type 0
Outcome q n (none, q') = q' ≡ record q { failed_alloc = true }
Outcome q n (some b, q') = Gave q n b q' × Takes q b q'

-- A call fails no assert, and has an outcome.
abbrev Succeeds : Queue → ℕ → Option (Option Buffer × Queue) → Type 0
Succeeds q n o = (r : Option Buffer × Queue) × (o ≡ some r) × Outcome q n r

-- A part that has been taken makes a first span that the constructor accepts.
odd_part :
    {q : Queue} {j0 n maxlen : ℕ} {p : Part} (t : Took q j0 n maxlen p)
    → n % 2 ≡ 1
    → (t.len == 0 ≡ false) × (ltb 0 t.len ≡ true) × (t.len % 2 == 1 ≡ true)
odd_part t odd = ground arith

alloc_round-Succeeds :
    (q : Queue) (n : ℕ)
    → IsValid q
    → n % 2 ≡ 1
    → q.i1 ≤ q.i0
    → q.has_space ≡ true
    → Succeeds q n (alloc_round q n)
unfolding alloc_round
alloc_round-Succeeds q n v odd le sp = elim (alloc_part-cases q q.i0 n (q.size - q.i0)) [
  | inl s ↦ elim (alloc_part-cases q 0 n q.i1) [
    | inl s' ↦ rw (s, second_part, s') (_, refl, refl)
    | inr t ↦
        let (nz, pos, one) = odd_part t odd in
        rw (s, second_part, t.result, nz, pos, one)
          (
            _,
            refl,
            (
              ground arith,
              record {
                was_free = λ p h. ground arith;
                now_used = λ p h f. ground arith;
                was_free_before = λ p h. ground arith;
              },
            ),
          )
  ]
  | inr t ↦
      let (nz, pos, one) = odd_part t odd in
      rw t.result
        (elim (alloc_part-cases
          (record q { i0 = q.i0 + t.len; has_space = not (q.i0 + t.len == q.i1) }) 0 (n - t.len)
          q.i1) [
            | inl s' ↦
                rw (second_part, s', nz, pos, one)
                  (
                    _,
                    refl,
                    (
                      ground arith,
                      record {
                        was_free = λ p h. ground arith;
                        now_used = λ p h f. ground arith;
                        was_free_before = λ p h. ground arith;
                      },
                    ),
                  )
            | inr t' ↦
                rw (second_part, t'.result, nz, pos, one)
                  (
                    _,
                    refl,
                    (
                      ground arith,
                      record {
                        was_free = λ p h. ground arith;
                        now_used = λ p h f. ground arith;
                        was_free_before = λ p h. ground arith;
                      },
                    ),
                  )
          ])
]

alloc_contiguous :
    (q : Queue) (n : ℕ)
    → IsValid q
    → n % 2 ≡ 1
    → q.i0 < q.i1
    → let p = alloc_part q q.i0 n (q.i1 - q.i0) in
      Succeeds q n
        (if is_empty p.span then failed p.queue else push_buffer p.queue p.span empty_span)
unfolding is_empty failed push_buffer
alloc_contiguous q n v odd lt = elim (alloc_part-cases q q.i0 n (q.i1 - q.i0)) [
  | inl s ↦ rw s (_, refl, refl)
  | inr t ↦
      let (nz, pos, one) = odd_part t odd in
      rw (t.result, nz, pos, one)
        (
          _,
          refl,
          (
            ground arith,
            record {
              was_free = λ p h. ground arith;
              now_used = λ p h f. ground arith;
              was_free_before = λ p h. ground arith;
            },
          ),
        )
]

-- On a valid queue an allocation of an odd number of at least 3 elements fails no assert; it gives
-- no buffer and moves nothing, or an odd span of at least 3 and an even one, both free before and
-- used after, in a valid queue with no new free position.
pub alloc-Outcome :
    (q : Queue) (n : ℕ)
    → IsValid q
    → n % 2 ≡ 1
    → 3 ≤ n
    → (r : Option Buffer × Queue) × (alloc q n ≡ some r) × Outcome q n r
unfolding alloc
alloc-Outcome q n v odd big =
    let c1 : n % 2 == 1 ≡ true = ground arith in
    let c2 : leb 3 n ≡ true = ground arith in
    let nz : q.i1 == 0 ≡ false = ground (arith, v.tail_pos) in
    elim (Bool-cases (ltb q.i0 q.i1)) [
      | inl c ↦ rw (c1, c2, c) (alloc_contiguous q n v odd (ground arith))
      | inr c ↦ elim (Bool-cases q.has_space) [
        | inl s ↦
            let (r, gives, o) = alloc_round-Succeeds q n v odd (ground arith) s in
            (r, ground (arith, gives), o)
        | inr s ↦ ((none, record q { failed_alloc = true }), unfold failed in ground arith, refl)
      ]
    ]

-- On a full queue of which a buffer before the last is taken back, at a cursor of at least 3,
-- available answers more than 0 and alloc refuses every odd number of at least 3 elements.
pub alloc_refused :
    (q : Queue) (cursor n : ℕ)
    → IsValid q
    → q.i0 ≡ q.i1
    → q.has_space ≡ false
    → 3 ≤ cursor
    → cursor < q.i0
    → n % 2 ≡ 1
    → 3 ≤ n
    → (0 < available (free q cursor))
      × (alloc (free q cursor) n ≡ some (none, record (free q cursor) { failed_alloc = true }))
unfolding alloc free available failed
alloc_refused q cursor n v full flag lo hi odd big = ground arith
