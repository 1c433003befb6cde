-- ===== src/Miner/Candidates/Visited.antt =====
-- The variables `offset` and `len` of `mine_job_v2_1` and `mine_job_v2_2`
-- (src/miner/verusopt/verus_clhash_opt.cpp), over two spans.
use janusminer.Common.{ℕ, ◌+◌, ◌-◌, ◌≡◌, ◌≤◌, ◌<◌, min, refl, ap, ◌∙◌, sym, arith, Bool-cases}
use janusminer.Common.{
  Bool, not, ◌==◌, leb, if◌then◌else◌, inl, inr, List, [], ◌∷◌, ◌++◌, u32, ltb, length, take, drop,
}
use janusminer.Common.{
  append-nil, length-drop, drop-append, take-short, drop-short, take-all, take-min,
}
use janusminer.Miner.JobQueue.{CandidateBatch, Proportion}
use janusminer.Miner.Candidates.{
  Element, MinedValues, MineResult, extract_version, try_candidates, mine_job,
}
use janusminer.Miner.Candidates.Spans.{mine_job-visited, visited, j_bound, next_offset, next_len}

module _ (n k offset len : ℕ) (small : n < u32) (small' : k < u32)
    (inside : offset + len ≤ n + k) where
  first_within : offset + len ≤ n → j_bound n offset len - offset ≡ len
  first_within h = omega arith

  second_within :
      offset + len ≤ n
      → j_bound k (next_offset n offset) (next_len n offset len) - next_offset n offset ≡ 0
  second_within h = ground arith

  first_across : offset < n → n < offset + len → j_bound n offset len - offset ≡ n - offset
  first_across h h' = omega arith

  second_across :
      offset < n
      → n < offset + len
      → j_bound k (next_offset n offset) (next_len n offset len) - next_offset n offset ≡ 0
  second_across h h' = ground arith

  first_behind : n ≤ offset → j_bound n offset len - offset ≡ 0
  first_behind h = omega arith

  next_offset_behind : n ≤ offset → next_offset n offset ≡ 0
  next_offset_behind h = ground arith

  second_behind : n ≤ offset → j_bound k 0 (next_len n offset len) - 0 ≡ min (offset - n + len) k
  second_behind h = ground arith

module _ {ℓ} {A : Type ℓ} where
  -- What a batch stands for in two spans.
  abbrev pub slice : List A → List A → ℕ → ℕ → List A
  slice s t offset len = take len (drop offset (s ++ t))

visited-behind :
    (s t : List Element) (offset len : ℕ)
    → length s < u32
    → length t < u32
    → offset + len ≤ length s + length t
    → length s ≤ offset
    → visited (s ∷ t ∷ []) offset len ≡ take (offset - length s + len) t
visited-behind s t offset len small small' inside h =
    rw
      (
        first_behind _ _ offset len small small' inside h,
        next_offset_behind _ _ offset len small small' inside h,
        second_behind _ _ offset len small small' inside h,
        append-nil,
      )
      (take-min _ t)

-- `visited` over two spans: the batch if it lies in the first span or starts where the second one
-- does; otherwise other candidates.
visited_lem :
    (s t : List Element) (offset len : ℕ)
    → length s < u32
    → length t < u32
    → offset + len ≤ length s + length t
    → (offset + len ≤ length s → visited (s ∷ t ∷ []) offset len ≡ slice s t offset len)
      × (offset ≡ length s → visited (s ∷ t ∷ []) offset len ≡ slice s t offset len)
      × (offset < length s
          → length s < offset + len
          → visited (s ∷ t ∷ []) offset len ≡ drop offset s)
      × (length s < offset → visited (s ∷ t ∷ []) offset len ≡ take (offset - length s + len) t)
visited_lem s t offset len small small' inside = (
  λ h.
      rw
        (
          first_within _ _ offset len small small' inside h,
          second_within _ _ offset len small small' inside h,
          append-nil,
        )
        (sym (
          rw (drop-short offset s t (omega arith))
            (take-short len (drop offset s) t (omega (arith, length-drop offset s))))),
  λ h.
      visited-behind s t offset len small small' inside (omega arith)
      ∙ rw (h, drop-append s t, sub_self) refl,
  λ h h'.
      rw
        (
          first_across _ _ offset len small small' inside h h',
          second_across _ _ offset len small small' inside h h',
          append-nil,
        )
        (take-all _ _ (omega (arith, length-drop offset s))),
  λ h. visited-behind s t offset len small small' inside (omega arith),
)
  where
    sub_self : length s - length s + len ≡ len
    sub_self = omega arith

-- The candidates that the loops over two spans go over, in each position of a batch.
abbrev pub reached : List Element → List Element → ℕ → ℕ → List Element
reached s t offset len =
    if leb (offset + len) (length s)
    then slice s t offset len
    else if ltb offset (length s)
    then drop offset s
    else if offset == length s
    then slice s t offset len
    else take (offset - length s + len) t

visited-reached :
    (s t : List Element) (offset len : ℕ)
    → length s < u32
    → length t < u32
    → offset + len ≤ length s + length t
    → visited (s ∷ t ∷ []) offset len ≡ reached s t offset len
visited-reached s t offset len small small' inside =
    elim (Bool-cases (leb (offset + len) (length s))) [
      | inl a ↦ rw a (cases.0 (ground arith))
      | inr a ↦ rw a (elim (Bool-cases (ltb offset (length s))) [
        | inl b ↦ rw b (cases.2 (ground arith) (ground arith))
        | inr b ↦ rw b (elim (Bool-cases (offset == length s)) [
          | inl c ↦ rw c (cases.1 (ground arith))
          | inr c ↦ rw c (cases.3 (ground arith))
        ])
      ])
    ]
  where
    cases :
        (offset + len ≤ length s → visited (s ∷ t ∷ []) offset len ≡ slice s t offset len)
        × (offset ≡ length s → visited (s ∷ t ∷ []) offset len ≡ slice s t offset len)
        × (offset < length s
            → length s < offset + len
            → visited (s ∷ t ∷ []) offset len ≡ drop offset s)
        × (length s < offset → visited (s ∷ t ∷ []) offset len ≡ take (offset - length s + len) t)
    cases = visited_lem s t offset len small small' inside

-- For spans of less than 2 ^ 32 candidates and a batch inside them, mine_job tries one by one the
-- candidates of the batch where it lies in the first span or starts at its end; where it reaches
-- from the first span into the second only its part in the first, and where it starts behind the
-- end of the first, those of the second from its beginning on.
pub mine_job_lem :
    (fast_hash verus_hash : Bool → List ℕ → ℕ → List ℕ) (scale : Proportion → ℕ → ℕ)
    (m : MinedValues) (res : MineResult) (batch : CandidateBatch) (threshold : ℕ)
    → length m.first < u32
    → length m.second < u32
    → batch.offset + batch.len ≤ length m.first + length m.second
    → mine_job fast_hash verus_hash scale m res batch threshold
      ≡ try_candidates fast_hash verus_hash
          (not (extract_version m.header == 2))
          m
          threshold
          res
          (reached m.first m.second batch.offset batch.len)
mine_job_lem fast_hash verus_hash scale m res batch threshold small small' inside =
    mine_job-visited fast_hash verus_hash scale m res batch threshold
    ∙ ap (try_candidates fast_hash verus_hash (not (extract_version m.header == 2)) m threshold res)
        (visited-reached m.first m.second batch.offset batch.len small small' inside)
