-- ===== src/Miner/Candidates/Spans.antt =====
-- The loops of `mine_job_v2_1` and `mine_job_v2_2` (src/miner/verusopt/verus_clhash_opt.cpp).
use janusminer.Common.{ℕ, ◌+◌, ◌-◌, ◌%◌, ◌≡◌, min, refl, ◌∙◌, sym}
use janusminer.Common.{Bool, true, false, not, Option, none, some, List, [], ◌∷◌, ◌++◌}
use janusminer.Common.{u64, ltb, ◌==◌, if◌then◌else◌, length, take, drop}
use janusminer.Miner.JobQueue.{CandidateBatch, Proportion}
use janusminer.Miner.Candidates.{
  Element, MinedValues, MineResult, extract_version, try_candidate, try_candidates, mine_spans,
  mine_job, unless_found,
}

-- The variables of the outer loop: where a span of `n` candidates is left, and what they become.
abbrev pub j_bound : ℕ → ℕ → ℕ → ℕ
j_bound n offset len = min ((offset + len) % u64) n

abbrev pub next_offset : ℕ → ℕ → ℕ
next_offset n offset = if ltb n offset then 0 else (offset + (u64 - n)) % u64

abbrev pub next_len : ℕ → ℕ → ℕ → ℕ
next_len n offset len = (len + (u64 - (j_bound n offset len + (u64 - offset)) % u64)) % u64

-- The candidates that the loops go over if none ends them.
abbrev pub visited : List (List Element) → ℕ → ℕ → List Element
visited [] offset len = []
visited (span ∷ spans) offset len =
    take (j_bound (length span) offset len - offset) (drop offset span)
    ++ visited spans (next_offset (length span) offset) (next_len (length span) offset len)

unless_found_ext :
    (o : Option (Bool × MineResult)) (f g : MineResult → Option (Bool × MineResult))
    → ((r : MineResult) → f r ≡ g r)
    → unless_found o f ≡ unless_found o g
unless_found_ext none f g h = refl
unless_found_ext (some (true, r)) f g h = refl
unless_found_ext (some (false, r)) f g h = h r

unless_found_assoc :
    (o : Option (Bool × MineResult)) (f g : MineResult → Option (Bool × MineResult))
    → unless_found (unless_found o f) g ≡ unless_found o (λ r. unless_found (f r) g)
unless_found_assoc none f g = refl
unless_found_assoc (some (true, r)) f g = refl
unless_found_assoc (some (false, r)) f g = refl

module _ (fast_hash verus_hash : Bool → List ℕ → ℕ → List ℕ) (v22 : Bool) (m : MinedValues)
    (threshold : ℕ) where
  try_candidates-append :
      (xs : List Element) (res : MineResult) (ys : List Element)
      → try_candidates fast_hash verus_hash v22 m threshold res (xs ++ ys)
        ≡ unless_found
            (try_candidates fast_hash verus_hash v22 m threshold res xs)
            (λ r. try_candidates fast_hash verus_hash v22 m threshold r ys)
  unfolding try_candidates
  try_candidates-append [] res ys = refl
  try_candidates-append (x ∷ xs) res ys =
      unless_found_ext (try_candidate fast_hash verus_hash v22 m threshold res x) _ _
        (λ r. try_candidates-append xs r ys)
      ∙ sym (unless_found_assoc (try_candidate fast_hash verus_hash v22 m threshold res x) _ _)

  mine_spans-visited :
      (spans : List (List Element)) (res : MineResult) (offset len : ℕ)
      → mine_spans fast_hash verus_hash v22 m threshold res spans offset len
        ≡ try_candidates fast_hash verus_hash v22 m threshold res (visited spans offset len)
  unfolding mine_spans try_candidates
  mine_spans-visited [] res offset len = refl
  mine_spans-visited (span ∷ spans) res offset len =
      unless_found_ext (try_candidates fast_hash verus_hash v22 m threshold res _) _ _
        (λ r. mine_spans-visited spans r _ _)
      ∙ sym (try_candidates-append _ res _)

module _ (fast_hash verus_hash : Bool → List ℕ → ℕ → List ℕ) (scale : Proportion → ℕ → ℕ) where
  -- The loops over the spans try the candidates that they go over one by one.
  pub mine_job-visited :
      (m : MinedValues) (res : MineResult) (batch : CandidateBatch) (threshold : ℕ)
      → mine_job fast_hash verus_hash scale m res batch threshold
        ≡ try_candidates fast_hash verus_hash
            (not (extract_version m.header == 2))
            m
            threshold
            res
            (visited (m.first ∷ m.second ∷ []) batch.offset batch.len)
  unfolding mine_job
  mine_job-visited m res batch threshold =
      mine_spans-visited fast_hash verus_hash _ m threshold _ res batch.offset batch.len
