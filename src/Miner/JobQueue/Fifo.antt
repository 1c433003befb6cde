-- ===== src/Miner/JobQueue/Fifo.antt =====
-- The abstract view of a `JobQueue` (src/miner/cpu/verus_job.hpp): a job stands for its candidates in
-- order, and a batch for a run of them.
use janusminer.Common.{ℕ, zero, suc, ◌+◌, ◌-◌, ◌≡◌, ◌<◌, ◌≤◌, arith, refl, sym, ap, ◌∙◌}
use janusminer.Common.{
  Bool, true, false, some, List, [], ◌∷◌, ◌++◌, length, All, append_assoc, append-nil,
}
use janusminer.Common.{ltb, if◌then◌else◌}
use native.Mathlib.Nat.{zero-add, suc-add, add-zero}
use janusminer.Miner.JobQueue.{Job, CandidateBatch, JobQueue, Popped, pop_step}

-- The candidates of a job from index `start` on.
unfoldable pub candidates : Job → ℕ → ℕ → List (Job × ℕ)
candidates j start zero = []
candidates j start (suc len) = (j, start) ∷ candidates j (start + 1) len

-- The candidates that wait, of which the first `cursor` of the front job are gone.
unfoldable pub waiting : ℕ → List Job → List (Job × ℕ)
unfolding candidates
waiting cursor [] = []
waiting cursor (j ∷ js) = candidates j cursor (j.size - cursor) ++ waiting 0 js

abbrev pub pending : JobQueue → List (Job × ℕ)
pending q = waiting q.cursor q.queue

-- The candidates that batches hand out.
unfoldable pub given : List CandidateBatch → List (Job × ℕ)
unfolding candidates
given [] = []
given (b ∷ bs) = candidates b.shared b.offset b.len ++ given bs

unfoldable pub total_size : List Job → ℕ
total_size [] = 0
total_size (j ∷ js) = j.size + total_size js

-- The cursor stands within the front job.
abbrev pub InFront : ℕ → List Job → Type 0
InFront cursor [] = cursor ≡ 0
InFront cursor (j ∷ js) = cursor < j.size

pub record IsValid (q : JobQueue) : Type 0 where
  pub sizes : All (λ j. 0 < j.size) q.queue
  pub front : InFront q.cursor q.queue
  pub level : q.watermark + q.cursor ≡ total_size q.queue

pub candidates-add :
    (j : Job) (start a b : ℕ)
    → candidates j start (a + b) ≡ candidates j start a ++ candidates j (start + a) b
unfolding candidates
candidates-add j start zero b = rw (zero-add, add-zero) refl
candidates-add j start (suc a) b =
    let shift : start + 1 + a ≡ start + suc a = omega arith in
    rw (suc-add, ← shift) (ap (λ l. (j, start) ∷ l) (candidates-add j (start + 1) a b))

given-append : (bs cs : List CandidateBatch) → given (bs ++ cs) ≡ given bs ++ given cs
unfolding given
given-append [] cs = refl
given-append (b ∷ bs) cs =
    ap (λ l. candidates b.shared b.offset b.len ++ l) (given-append bs cs)
    ∙ sym (append_assoc (candidates b.shared b.offset b.len) (given bs) (given cs))

pub length-candidates : (j : Job) (start len : ℕ) → length (candidates j start len) ≡ len
unfolding candidates
length-candidates j start zero = refl
length-candidates j start (suc len) = ap suc (length-candidates j (start + 1) len)

-- What a run of the loop has done: the candidates that it handed out are those that it took from the
-- front of the queue.
pub record Drained (s s' : Popped) : Type 0 where
  pub valid : IsValid s'.rest
  pub order : given s'.res ++ pending s'.rest ≡ given s.res ++ pending s.rest
  pub moved : s'.total + s'.rest.watermark ≡ s.total + s.rest.watermark
  pub same_index : s'.rest.clean_index ≡ s.rest.clean_index
  pub same_rate : s'.rest.hashrate ≡ s.rest.hashrate
  pub grows : s.total ≤ s'.total

module _ (n : ℕ) (s : Popped) (j : Job) (js : List Job) (front : s.rest.queue ≡ j ∷ js)
    (v : IsValid s.rest) (more : s.total < n) where
  in_job : s.rest.cursor < j.size
  in_job = rw front at (v.front)

  level : s.rest.watermark + s.rest.cursor ≡ j.size + total_size js
  unfolding total_size
  level = rw front at (v.level)

  -- The state behind a round that takes `m` candidates.
  abbrev taken : ℕ → Bool → Popped
  taken m done = record {
    total = s.total + m;
    res = s.res ++ record { shared = j; offset = s.rest.cursor; len = m } ∷ [];
    rest = record s.rest {
      cursor = if done then 0 else s.rest.cursor + m;
      watermark = s.rest.watermark - m;
      queue = if done then js else j ∷ js;
    };
  }

  taken_order :
      (m : ℕ) (done : Bool)
      → (candidates j s.rest.cursor m
          ++ waiting (if done then 0 else s.rest.cursor + m) (if done then js else j ∷ js))
        ≡ waiting s.rest.cursor (j ∷ js)
      → given (taken m done).res ++ pending (taken m done).rest ≡ given s.res ++ pending s.rest
  taken_order m done e =
      let b : CandidateBatch = record { shared = j; offset = s.rest.cursor; len = m } in
      let one : given (b ∷ []) ≡ candidates j s.rest.cursor m =
        unfold given in append-nil (candidates j s.rest.cursor m) in
      rw (given-append s.res (b ∷ []), one, front)
        (append_assoc (given s.res) (candidates j s.rest.cursor m)
            (waiting (if done then 0 else s.rest.cursor + m) (if done then js else j ∷ js))
          ∙ ap (λ l. given s.res ++ l) e)

  split_front :
      (m : ℕ)
      → m < j.size - s.rest.cursor
      → candidates j s.rest.cursor m ++ waiting (s.rest.cursor + m) (j ∷ js)
        ≡ waiting s.rest.cursor (j ∷ js)
  unfolding waiting
  split_front m less =
      let c : ℕ = s.rest.cursor in
      let behind : ℕ = j.size - (c + m) in
      let sizes : m + behind ≡ j.size - c = omega arith in
      sym (append_assoc (candidates j c m) (candidates j (c + m) behind) (waiting 0 js))
      ∙ ap (λ l. l ++ waiting 0 js) (sym (candidates-add j c m behind) ∙ ap (candidates j c) sizes)

  tail_InFront : InFront 0 js
  tail_InFront = go js (rw front at (v.sizes)).1
    where
      go : (l : List Job) → All (λ j. 0 < j.size) l → InFront 0 l
      go [] h = refl
      go (k ∷ ks) h = h.0

  -- The round that takes the rest of the front job.
  pub whole_job :
      j.size - s.rest.cursor ≤ n - s.total
      → (s' : Popped) × (pop_step n s j js ≡ some (ltb s'.total n, s'))
        × Drained s s'
        × (s'.total ≤ n)
        × (s'.rest.queue ≡ js)
  whole_job fits =
      let m : ℕ = j.size - s.rest.cursor in
      (
        taken m true,
        unfold pop_step in ground (arith, in_job, level),
        record {
          valid = record {
            sizes = (rw front at (v.sizes)).1;
            front = tail_InFront;
            level = omega (arith, level, in_job);
          };
          order = taken_order m true (unfold waiting in refl);
          moved = omega (arith, level, in_job);
          same_index = refl;
          same_rate = refl;
          grows = omega arith;
        },
        omega arith,
        refl,
      )

  -- The round that takes all that is asked for from the front job.
  pub part_of_job :
      n - s.total < j.size - s.rest.cursor
      → (s' : Popped) × (pop_step n s j js ≡ some (false, s')) × Drained s s' × (s'.total ≡ n)
  part_of_job less =
      let m : ℕ = n - s.total in
      (
        taken m false,
        unfold pop_step in ground (arith, in_job, level),
        record {
          valid = record {
            sizes = rw front at (v.sizes);
            front = omega arith;
            level = unfold total_size in omega (arith, level);
          };
          order = taken_order m false (split_front m (omega arith));
          moved = omega (arith, level, in_job);
          same_index = refl;
          same_rate = refl;
          grows = omega arith;
        },
        omega arith,
      )
