-- ===== src/Miner/CyclicQueue.antt =====
-- src/miner/cyclic_queue.hpp: a ring of `uint32_t` from which buffers of one or two spans are
-- allocated, and which takes the space of a buffer back when the `Buffer` object is destroyed.
pub mod Alloc
use janusminer.Common.{ℕ, ◌+◌, ◌-◌, ◌*◌, ◌/◌, ◌%◌, ◌≡◌, ◌<◌, min}
use janusminer.Common.{Bool, true, false, not, ◌&&◌, ◌||◌, Option, none, some, List, [], ◌∷◌, ◌++◌}
use janusminer.Common.{ltb, leb, ◌==◌, if◌then◌else◌, guard, ◌>>=◌, ◌>>◌}

-- A `std::span<uint32_t>` into `data`, as its first index and its size.
pub record Span : Type 0 where
  pub start : ℕ
  pub len : ℕ

abbrev pub empty_span : Span
empty_span = record { start = 0; len = 0 }

unfoldable pub is_empty : Span → Bool
is_empty s = s.len == 0

-- A `Buffer` object that exists: `held` says that somebody beside the buffer before it has a
-- `shared_ptr` to it.
pub record Buffer : Type 0 where
  pub first : Span
  pub second : Span
  pub destruct_cursor : ℕ
  pub held : Bool

-- `buffers` are the `Buffer` objects that exist, oldest first: each has the one behind it as `next`,
-- and `prev` is the last. `callbacks` counts the calls of `freeCallback`.
pub record Queue : Type 0 where
  pub size : ℕ
  pub i0 : ℕ
  pub i1 : ℕ
  pub has_space : Bool
  pub failed_alloc : Bool
  pub callbacks : ℕ
  pub buffers : List Buffer

-- `none` is the failed `assert`.
unfoldable pub make : ℕ → Option Queue
make entries = do
  guard (leb 3 entries)
  some (record {
    size = entries;
    i0 = entries;
    i1 = entries;
    has_space = true;
    failed_alloc = false;
    callbacks = 0;
    buffers = [];
  })

unfoldable pub odd_available : ℕ → ℕ
odd_available n = if ltb n 3 then 0 else if n % 2 == 1 then n - 1 else n

unfoldable pub even_available : ℕ → ℕ
even_available n = if ltb n 2 then 0 else if n % 2 == 1 then n - 1 else n

unfoldable pub available : Queue → ℕ
unfolding odd_available even_available
available q =
    if ltb q.i0 q.i1
    then odd_available (q.i1 - q.i0)
    else if q.i0 == q.i1
    then if q.has_space then odd_available q.size else 0
    else if odd_available (q.size - q.i0) == 0
    then odd_available q.i1
    else odd_available (q.size - q.i0) + even_available q.i1

-- `alloc_part`: the span, `nElements` after it, and the queue.
pub record Part : Type 0 where
  pub span : Span
  pub left : ℕ
  pub queue : Queue

-- `len` as the code reduces it to the parity of `nElements`.
unfoldable pub part_len : ℕ → ℕ → ℕ
part_len n maxlen =
    let len = if ltb maxlen n then maxlen else n in
    if len == 0 then 0 else if len % 2 == n % 2 then len else len - 1

unfoldable pub alloc_part : Queue → ℕ → ℕ → ℕ → Part
unfolding part_len
alloc_part q j0 n maxlen =
    let len = part_len n maxlen in
    if ltb len 2 then record { span = empty_span; left = n; queue = q } else record {
      span = record { start = j0; len = len };
      left = n - len;
      queue = record q { i0 = j0 + len; has_space = not (j0 + len == q.i1) };
    }

-- Of what follows up to `alloc`, the outer `none` is a failed `assert`, and the inner one the null
-- pointer of `failed_alloc`.
unfoldable pub failed : Queue → Option (Option Buffer × Queue)
failed q = some (none, record q { failed_alloc = true })

-- The constructor of `Buffer` asserts that the size of `first` is odd.
unfoldable pub push_buffer : Queue → Span → Span → Option (Option Buffer × Queue)
push_buffer q first second = do
  guard (ltb 0 first.len && first.len % 2 == 1)
  let b : Buffer = record { first = first; second = second; destruct_cursor = q.i0; held = true }
  some (some b, record q { buffers = q.buffers ++ b ∷ [] })

-- The two parts of a buffer that may go round the end.
unfoldable pub second_part : Part → Option (Option Buffer × Queue)
unfolding is_empty failed push_buffer
second_part p1 =
    let p2 = alloc_part p1.queue 0 p1.left p1.queue.i1 in
    if is_empty p1.span
    then if is_empty p2.span then failed p2.queue else push_buffer p2.queue p2.span empty_span
    else push_buffer p2.queue p1.span p2.span

unfoldable pub alloc_round : Queue → ℕ → Option (Option Buffer × Queue)
unfolding second_part
alloc_round q n = second_part (alloc_part q q.i0 n (q.size - q.i0))

unfoldable pub alloc : Queue → ℕ → Option (Option Buffer × Queue)
unfolding is_empty failed push_buffer
alloc q n = do
  guard (n % 2 == 1 && leb 3 n)
  let p = alloc_part q q.i0 n (q.i1 - q.i0)
  if ltb q.i0 q.i1
      then if is_empty p.span then failed p.queue else push_buffer p.queue p.span empty_span
      else if not q.has_space
      then failed q
      else if q.i1 == 0
      then none
      else alloc_round q n

unfoldable pub free : Queue → ℕ → Queue
free q cursor = record q {
  i1 = cursor;
  has_space = if q.i0 == cursor then true else q.has_space;
  failed_alloc = false;
  callbacks = if q.failed_alloc then q.callbacks + 1 else q.callbacks;
}

-- `next.use_count() <= 1`
unfoldable pub next_unused : List Buffer → Bool
next_unused [] = true
next_unused (b ∷ bs) = not b.held

-- What is destroyed when the first buffer has no owner: its destructor runs, and then that of each
-- buffer behind it that was held by it alone.
unfoldable pub destroy : Queue → List Buffer → Queue
unfolding free next_unused
destroy q [] = record q { buffers = [] }
destroy q (b ∷ bs) =
    let rest = destroy (if next_unused bs then free q b.destruct_cursor else q) bs in
    if b.held then record q { buffers = b ∷ bs } else rest

-- The owner of the `k`-th buffer lets it go.
unfoldable pub unhold : ℕ → List Buffer → List Buffer
unhold k [] = []
unhold ℕ.zero (b ∷ bs) = record b { held = false } ∷ bs
unhold (ℕ.suc k) (b ∷ bs) = b ∷ unhold k bs

unfoldable pub release : Queue → ℕ → Queue
unfolding destroy unhold
release q k = destroy q (unhold k q.buffers)

-- `Buffer::result_size`, and the sizes of the two `result_spans`; `n` is the counter in `first[0]`.
unfoldable pub result_size : Buffer → ℕ → ℕ
result_size b n = min n ((b.first.len + b.second.len) / 2)

unfoldable pub result_spans : Buffer → ℕ → Span × Span
result_spans b n =
    let nfirst = min n ((b.first.len - 1) / 2) in
    let rest = n - nfirst in
    (
      record { start = b.first.start + 1; len = 2 * nfirst },
      if ltb 0 rest && ltb 0 b.second.len
          then record { start = b.second.start; len = 2 * min rest (b.second.len / 2) }
          else empty_span,
    )
