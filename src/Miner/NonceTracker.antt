-- ===== src/Miner/NonceTracker.antt =====
-- src/miner/gpu/opencl_hasher.{hpp,cpp}: how a GPU hands out the nonces of a job
-- (`JobNonceTracker`, `Sha256tGPUHasher::get_worker_range`). A job is any type; `generate_job` of the
-- parent is what it returns, and the first offset is that of `randuint32`.
pub mod Cover
use janusminer.Common.{ℕ, zero, suc, ◌+◌, ◌-◌, ◌%◌, ◌^◌, ◌≡◌, min}
use janusminer.Common.{
  Bool, true, false, Option, none, some, List, [], ◌∷◌, ◌++◌, u32, ◌==◌, if◌then◌else◌,
}

module _ {ℓ} (Job : Type ℓ) where
  pub record JobNonceRange : Type ℓ where
    pub job : Job
    pub offset : ℕ
    pub count : ℕ

  pub record JobNonceTracker : Type ℓ where
    pub job : Job
    pub remaining : ℕ
    pub offset : ℕ

  unfoldable pub make_tracker : Job → ℕ → JobNonceTracker
  make_tracker j random = record { job = j; remaining = (u32 - 1) + 1; offset = random }

  unfoldable pub exhausted : JobNonceTracker → Bool
  exhausted t = t.remaining == 0

  unfoldable pub get_job : JobNonceTracker → ℕ → Option JobNonceRange × JobNonceTracker
  get_job t n =
      let m = min n t.remaining in
      if m == 0 then (none, t) else (
        some (record { job = t.job; offset = t.offset; count = m % u32 }),
        record t { remaining = t.remaining - m; offset = (t.offset + m % u32) % u32 },
      )

  -- The tracker of the device, and a range; `generated` is the parent's `generate_job()`.
  unfoldable pub worker_range : JobNonceTracker → ℕ → Option JobNonceRange × Option JobNonceTracker
  unfolding get_job exhausted
  worker_range t n =
      let (r, t') = get_job t n in
      elim r [ none ↦ (none, none) | some jr ↦ (some jr, if exhausted t' then none else some t') ]

  unfoldable pub get_worker_range :
      Option Job → ℕ → Option JobNonceTracker → ℕ → Option JobNonceRange × Option JobNonceTracker
  unfolding worker_range make_tracker
  get_worker_range generated random (some t) n = worker_range t n
  get_worker_range none random none n = (none, none)
  get_worker_range (some j) random none n = worker_range (make_tracker j random) n
