-- ===== src/Miner/Stratum/Extranonce.antt =====
-- Proofs on `gen_extra2` and the jobs of a generator (src/miner/stratum/job.{hpp,cpp}).
use janusminer.Common.{
  ℕ, zero, suc, ◌+◌, ◌%◌, ◌≡◌, ◌≢◌, ◌<◌, ◌≤◌, arith, refl, ap, sym, ◌∙◌, true, none, some, List, [],
  ◌∷◌, u32, ◌==◌, length, get_elem?, set,
}
use janusminer.General.ByteOrder.{bytes32, hton32, from_bytes, byte_swap32, byte_swap32-byte_swap32}
use janusminer.Miner.Stratum.{StratumJobData, Store}
use janusminer.Miner.Stratum.Job.{StratumJob, gen_extra2, gen_header, generate_job, generate_jobs}

-- The bytes of the `k`-th extranonce after `v`.
abbrev pub extra2_of : ℕ → ℕ → List ℕ
extra2_of v k = bytes32 (hton32 ((v + k) % u32))

from_bytes-bytes32 : (x : ℕ) → x < u32 → from_bytes (bytes32 x) ≡ x
unfolding from_bytes bytes32
from_bytes-bytes32 x h = omega arith

hton32_bound : (x : ℕ) → hton32 x < u32
unfolding hton32 byte_swap32
hton32_bound x = omega arith

hton32-hton32 : (x : ℕ) → x < u32 → hton32 (hton32 x) ≡ x
unfolding hton32
hton32-hton32 x h = byte_swap32-byte_swap32 x h

extra2_injective : (x y : ℕ) → x < u32 → y < u32 → bytes32 (hton32 x) ≡ bytes32 (hton32 y) → x ≡ y
extra2_injective x y hx hy e =
    sym (hton32-hton32 x hx)
    ∙ ap hton32 (
        sym (from_bytes-bytes32 (hton32 x) (hton32_bound x))
        ∙ ap from_bytes e
        ∙ from_bytes-bytes32 (hton32 y) (hton32_bound y))
    ∙ hton32-hton32 y hy

-- The generator's counter is at `v`, and the extranonces are of the one size that the source can write.
pub record CountsFrom {ℓ} {D : Type ℓ} (st : Store D) (data' : StratumJobData) (v : ℕ)
    : Type 0 where
  pub difficulty : ℕ
  pub has_difficulty : data'.base.difficulty ≡ some difficulty
  pub difficulty_fits : difficulty < length st.difficulties
  pub extranonce : ℕ
  pub has_extranonce : data'.base.extranonce ≡ some extranonce
  pub counter : get_elem? st.extranonces extranonce ≡ some v
  pub size : data'.subscription.extranonce2size ≡ 4

get_elem?-some {ℓ} :
    {A : Type ℓ} (l : List A) (i : ℕ) → i < length l → (a : A) × (get_elem? l i ≡ some a)
get_elem?-some [] i h = absurd (omega arith)
get_elem?-some (x ∷ l) zero h = (x, refl)
get_elem?-some (x ∷ l) (suc i) h = get_elem?-some l i (omega arith)

get_elem?-set {ℓ} :
    {A : Type ℓ} (l : List A) (i : ℕ) (a b : A)
    → get_elem? l i ≡ some b
    → get_elem? (set l i a) i ≡ some a
get_elem?-set [] i a b e = absurd (cc e)
get_elem?-set (x ∷ l) zero a b e = refl
get_elem?-set (x ∷ l) (suc i) a b e = get_elem?-set l i a b e

gen_extra2_lem {ℓ} :
    {D : Type ℓ} (st : Store D) (data' : StratumJobData) (v : ℕ) (c : CountsFrom st data' v)
    → gen_extra2 st data'
      ≡ some (
        bytes32 (hton32 v),
        record st { extranonces = set st.extranonces c.extranonce ((v + 1) % u32) },
      )
unfolding gen_extra2
gen_extra2_lem st data' v c =
    let four : (data'.subscription.extranonce2size == 4) ≡ true = rw c.size refl in
    rw (c.has_extranonce, c.counter, four) refl

module _ (sha256 : List ℕ → List ℕ) where
  pub generate_job_lem {ℓ} :
      {D : Type ℓ} (unwritten : List ℕ) (st : Store D) (data' : StratumJobData) (v : ℕ)
      → CountsFrom st data' v
      → (j : StratumJob D) × (st' : Store D) × (generate_job sha256 unwritten st data'
          ≡ some (j, st'))
        × (j.extra2 ≡ bytes32 (hton32 v))
        × CountsFrom st' data' ((v + 1) % u32)
  unfolding generate_job
  generate_job_lem unwritten st data' v c =
      let d = get_elem?-some st.difficulties c.difficulty c.difficulty_fits in
      let x = gen_extra2_lem st data' v c in
      let st' = record st { extranonces = set st.extranonces c.extranonce ((v + 1) % u32) } in
      (
        record {
          job_id = data'.notify.job_id;
          clean_index = data'.base.clean_index;
          target_difficulty = d.0;
          difficulty = c.difficulty;
          extra2 = bytes32 (hton32 v);
          header = gen_header sha256 unwritten data' (bytes32 (hton32 v));
        },
        st',
        rw (c.has_difficulty, d.1, x) refl,
        refl,
        record {
          difficulty = c.difficulty;
          has_difficulty = c.has_difficulty;
          difficulty_fits = c.difficulty_fits;
          extranonce = c.extranonce;
          has_extranonce = c.has_extranonce;
          counter = get_elem?-set st.extranonces c.extranonce ((v + 1) % u32) v c.counter;
          size = c.size;
        },
      )

  -- The `i`-th of the jobs has the `i`-th extranonce after `v`.
  abbrev pub HasExtra2 {ℓ} : {D : Type ℓ} → ℕ → List (StratumJob D) → Type ℓ
  HasExtra2 {D = D} v js =
      (i : ℕ) (j : StratumJob D) → get_elem? js i ≡ some j → j.extra2 ≡ extra2_of v i

  HasExtra2-cons {ℓ} :
      {D : Type ℓ} (v : ℕ) (j : StratumJob D) (js : List (StratumJob D))
      → v < u32
      → j.extra2 ≡ bytes32 (hton32 v)
      → HasExtra2 ((v + 1) % u32) js
      → HasExtra2 v (j ∷ js)
  HasExtra2-cons v j js h first rest zero a e =
      let here : v ≡ (v + 0) % u32 = omega arith in
      ap (λ o. elim o [ none ↦ [] | some j ↦ j.extra2 ]) (sym e)
      ∙ first
      ∙ ap (λ n. bytes32 (hton32 n)) here
  HasExtra2-cons v j js h first rest (suc i) a e =
      let next : ((v + 1) % u32 + i) % u32 ≡ (v + suc i) % u32 = omega arith in
      rest i a e ∙ ap (λ n. bytes32 (hton32 n)) next

  generate_jobs_lem {ℓ} :
      {D : Type ℓ} (n : ℕ) (unwritten : List ℕ) (st : Store D) (data' : StratumJobData) (v : ℕ)
      → v < u32
      → CountsFrom st data' v
      → (js : List (StratumJob D)) × (generate_jobs sha256 n unwritten st data' ≡ some js)
        × (length js ≡ n)
        × HasExtra2 v js
  unfolding generate_jobs
  generate_jobs_lem zero unwritten st data' v h c = ([], refl, refl, λ i j e. absurd (cc e))
  generate_jobs_lem (suc n) unwritten st data' v h c =
      let f = generate_job_lem unwritten st data' v c in
      let r = generate_jobs_lem n unwritten f.1 data' ((v + 1) % u32) (omega arith) f.4 in
      (f.0 ∷ r.0, rw (f.2, r.1) refl, ap suc r.2, HasExtra2-cons v f.0 r.0 h f.3 r.3)

  -- For any hash function, a generator that counts from v, with an extranonce of 4 bytes, gives
  -- each of up to 2 ^ 32 calls a job, and the jobs of two different calls have different
  -- extranonces.
  pub generate_jobs_distinct {ℓ} :
      {D : Type ℓ} (n : ℕ) (unwritten : List ℕ) (st : Store D) (data' : StratumJobData) (v i k : ℕ)
      → v < u32
      → n ≤ u32
      → CountsFrom st data' v
      → i < k
      → k < n
      → (js : List (StratumJob D)) × (a : StratumJob D) × (b : StratumJob D) × (generate_jobs sha256
            n unwritten st data'
          ≡ some js)
        × (get_elem? js i ≡ some a)
        × (get_elem? js k ≡ some b)
        × (a.extra2 ≢ b.extra2)
  generate_jobs_distinct n unwritten st data' v i k h m c l inside =
      let f = generate_jobs_lem n unwritten st data' v h c in
      let a = get_elem?-some f.0 i (omega (arith, f.2)) in
      let b = get_elem?-some f.0 k (omega (arith, f.2)) in
      (
        f.0,
        a.0,
        b.0,
        f.1,
        a.1,
        b.1,
        λ same.
            let e =
              extra2_injective ((v + i) % u32) ((v + k) % u32) (omega arith) (omega arith)
                (sym (f.3 i a.0 a.1) ∙ same ∙ f.3 k b.0 b.1) in
            absurd (omega arith),
      )
