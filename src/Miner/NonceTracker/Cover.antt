-- ===== src/Miner/NonceTracker/Cover.antt =====
-- Proofs on `JobNonceTracker::get_job` (src/miner/gpu/opencl_hasher.cpp).
use janusminer.Common.{
  ℕ, zero, suc, ◌+◌, ◌-◌, ◌%◌, ◌≡◌, ◌<◌, min, arith, refl, ap, sym, ◌∙◌, Bool-cases, inl, inr,
}
use janusminer.Common.{
  append_assoc, Option, none, some, List, [], ◌∷◌, ◌++◌, All, u32, ◌==◌, get_elem?,
}
use janusminer.Miner.NonceTracker.{JobNonceRange, JobNonceTracker, get_job, make_tracker}

-- `count` nonces from `offset` on, around the end of a `uint32_t`.
unfoldable pub nonces : ℕ → ℕ → List ℕ
nonces offset zero = []
nonces offset (suc count) = offset ∷ nonces ((offset + 1) % u32) count

nonces-add : (o a b : ℕ) → o < u32 → nonces o (a + b) ≡ nonces o a ++ nonces ((o + a) % u32) b
unfolding nonces
nonces-add o zero b h =
    let e : zero + b ≡ b = omega arith in
    let e' : (o + zero) % u32 ≡ o = omega arith in rw (e, e') refl
nonces-add o (suc a) b h =
    let e : suc a + b ≡ suc (a + b) = omega arith in
    let e' : ((o + 1) % u32 + a) % u32 ≡ (o + suc a) % u32 = omega arith in
    rw (e, ← e') (ap (λ l. o ∷ l) (nonces-add ((o + 1) % u32) a b (omega arith)))

pub get_elem?-nonces :
    (o n i : ℕ) → o < u32 → i < n → get_elem? (nonces o n) i ≡ some ((o + i) % u32)
unfolding nonces
get_elem?-nonces o zero i h l = absurd (omega arith)
get_elem?-nonces o (suc n) zero h l = let e : (o + zero) % u32 ≡ o = omega arith in rw e refl
get_elem?-nonces o (suc n) (suc i) h l =
    let e : ((o + 1) % u32 + i) % u32 ≡ (o + suc i) % u32 = omega arith in
    rw (← e) (get_elem?-nonces ((o + 1) % u32) n i (omega arith) (omega arith))

-- Each request is below the size of a `uint32_t`.
abbrev pub Fits : List ℕ → Type 0
Fits = All (λ n. n < u32)

module _ {ℓ} {Job : Type ℓ} where
  abbrev pub range_nonces : Option (JobNonceRange Job) → List ℕ
  range_nonces none = []
  range_nonces (some r) = nonces r.offset r.count

  -- The nonces of the ranges for one request after the other, and the tracker that is left.
  unfoldable pub request_all : JobNonceTracker Job → List ℕ → List ℕ × JobNonceTracker Job
  request_all t [] = ([], t)
  request_all t (n ∷ ns) =
      let (r, t') = get_job Job t n in
      let (l, t'') = request_all t' ns in (range_nonces r ++ l, t'')

  get_job_lem :
      (t : JobNonceTracker Job) (n : ℕ)
      → n < u32
      → t.offset < u32
      → let (r, t') = get_job Job t n in
        (t'.offset < u32)
        × (nonces t.offset t.remaining ≡ range_nonces r ++ nonces t'.offset t'.remaining)
        × (t'.remaining + min n t.remaining ≡ t.remaining)
  unfolding get_job
  get_job_lem t n h o = elim (Bool-cases (min n t.remaining == 0)) [
    | inl z ↦ rw z (o, refl, ground arith)
    | inr nz ↦
        let m : ℕ = min n t.remaining in
        let plain : m % u32 ≡ m = omega arith in
        let split : m + (t.remaining - m) ≡ t.remaining = omega arith in
        rw (nz, plain)
          (
            omega arith,
            ap (nonces t.offset) (sym split) ∙ nonces-add t.offset m (t.remaining - m) o,
            omega arith,
          )
  ]

  -- The nonces that are handed out, with those that are still left, are those that were left before.
  pub request_all_lem :
      (t : JobNonceTracker Job) (ns : List ℕ)
      → Fits ns
      → t.offset < u32
      → let (l, t') = request_all t ns in
        nonces t.offset t.remaining ≡ l ++ nonces t'.offset t'.remaining
  unfolding request_all
  request_all_lem t [] f o = refl
  request_all_lem t (n ∷ ns) f o =
      let here = get_job_lem t n f.0 o in
      let (r, t') = get_job Job t n in
      here.1
      ∙ ap (λ l. range_nonces r ++ l) (request_all_lem t' ns f.1 here.0)
      ∙ sym (append_assoc (range_nonces r) (request_all t' ns).0 _)

  -- For any first nonce and any requests below 2 ^ 32, the nonces handed out followed by those
  -- that are left are the 2 ^ 32 nonces from the first on, in order and around.
  pub handed_out_lem :
      (j : Job) (random : ℕ) (ns : List ℕ)
      → random < u32
      → Fits ns
      → let (l, t) = request_all (make_tracker Job j random) ns in
        l ++ nonces t.offset t.remaining ≡ nonces random ((u32 - 1) + 1)
  unfolding make_tracker
  handed_out_lem j random ns h f = sym (request_all_lem (make_tracker Job j random) ns f h)
