-- ===== src/Miner/Stratum/Job.antt =====
-- `StratumJobGenerator` and `StratumJob` (src/miner/stratum/job.{hpp,cpp}). No value is an assertion
-- that fails, a null pointer, or a `memcpy` that leaves one of its two objects. SHA256 is a
-- parameter, and so is the array on the stack before it is written.
use janusminer.Common.{
  ℕ, zero, suc, ◌+◌, ◌%◌, Option, some, List, [], ◌∷◌, ◌++◌, u32, ◌==◌, take, drop, set, get_elem?,
  guard, ◌>>=◌, ◌>>◌,
}
use janusminer.General.ByteOrder.{bytes32, hton32}
use janusminer.Miner.Stratum.{Submission, StratumJobData, Store}

-- The bytes are written from the offset on.
unfoldable pub memcpy : List ℕ → ℕ → List ℕ → List ℕ
memcpy dst offset [] = dst
memcpy [] offset (b ∷ bs) = []
memcpy (d ∷ dst) zero (b ∷ bs) = b ∷ memcpy dst 0 bs
memcpy (d ∷ dst) (suc offset) (b ∷ bs) = d ∷ memcpy dst offset (b ∷ bs)

pub record StratumJob {ℓ} (D : Type ℓ) : Type ℓ where
  pub job_id : List ℕ
  pub clean_index : ℕ
  pub target_difficulty : D
  pub difficulty : ℕ
  pub extra2 : List ℕ
  pub header : List ℕ

module _ {ℓ} {D : Type ℓ} where
  unfoldable pub gen_extra2 : Store D → StratumJobData → Option (List ℕ × Store D)
  unfolding bytes32 hton32
  gen_extra2 st data' = do
    p ← data'.base.extranonce
    v ← get_elem? st.extranonces p
    guard (data'.subscription.extranonce2size == 4)
    some (bytes32 (hton32 v), record st { extranonces = set st.extranonces p ((v + 1) % u32) })

module _ (sha256 : List ℕ → List ℕ) where
  unfoldable pub gen_merkle_root : StratumJobData → List ℕ → List ℕ
  gen_merkle_root data' extra2 =
      sha256 (data'.notify.merkle_prefix ++ data'.subscription.extranonce1 ++ extra2)

  unfoldable pub gen_header : List ℕ → StratumJobData → List ℕ → List ℕ
  unfolding gen_merkle_root memcpy
  gen_header unwritten data' extra2 =
      let n = data'.notify in
      let h1 = memcpy unwritten 0 n.prev_hash in
      let h2 = memcpy h1 32 n.nbits in
      let h3 = memcpy h2 36 (gen_merkle_root data' extra2) in
      let h4 = memcpy h3 68 n.nversion in memcpy h4 72 n.ntime

  -- `StratumJob(*this)`: its target is `TargetV2` of `target_difficulty`.
  unfoldable pub generate_job {ℓ} :
      {D : Type ℓ} → List ℕ → Store D → StratumJobData → Option (StratumJob D × Store D)
  unfolding gen_extra2 gen_header
  generate_job unwritten st data' = do
    p ← data'.base.difficulty
    d ← get_elem? st.difficulties p
    f ← gen_extra2 st data'
    some (
      record {
        job_id = data'.notify.job_id;
        clean_index = data'.base.clean_index;
        target_difficulty = d;
        difficulty = p;
        extra2 = f.0;
        header = gen_header unwritten data' f.0;
      },
      f.1,
    )

  -- The jobs of `n` calls, by whatever devices.
  unfoldable pub generate_jobs {ℓ} :
      {D : Type ℓ} → ℕ → List ℕ → Store D → StratumJobData → Option (List (StratumJob D))
  unfolding generate_job
  generate_jobs zero unwritten st data' = some []
  generate_jobs (suc n) unwritten st data' = do
    f ← generate_job unwritten st data'
    js ← generate_jobs n unwritten f.1 data'
    some (f.0 ∷ js)

unfoldable pub submission {ℓ} : {D : Type ℓ} → StratumJob D → List ℕ → Submission
submission j nonce = record {
  job_id = j.job_id;
  extra2 = j.extra2;
  time = take 4 (drop 72 j.header);
  nonce = nonce;
}
