-- ===== src/Miner/Candidates.antt =====
-- src/miner/verusopt/verus_clhash_opt.cpp (`JanusMinerOpt` and its comparisons) and
-- src/miner/sha256t_results.hpp: how a worker tries the candidates of a job. The hash of a header
-- with a nonce (`verus_hash`, and the code around `__verusclmulwithoutreduction64alignedrepeat`, its key and
-- `haraka512_keyed_local`) and the scaling of a threshold by a `double` are parameters.
pub mod Comparison
pub mod Score
pub mod Spans
pub mod Visited
pub mod Found
mod Tests
use janusminer.Common.{ℕ, zero, suc, ◌+◌, ◌-◌, ◌*◌, ◌%◌, ◌^◌, ◌≡◌, ◌<◌, min}
use janusminer.Common.{Bool, true, false, not, ◌&&◌, ◌||◌, Option, none, some, List, [], ◌∷◌, ◌++◌}
use janusminer.Common.{u32, u64, ltb, leb, ◌==◌, if◌then◌else◌, guard, ◌>>=◌, ◌>>◌}
use janusminer.Common.{length, take, drop, replicate, pos, neg_part, leb_ℤ}
use janusminer.General.ByteOrder.{hton32, bytes32}
use janusminer.Chain.Target.{TargetV2, zeros10, bits22}
use janusminer.Chain.CustomFloat.{CustomFloat, make, from_hash, multiply}
use janusminer.Chain.CustomFloat.Power.{pow}
use janusminer.Miner.JobQueue.{CandidateBatch, Proportion, one, quotient, WorkerJob}

-- `sha256t_results::span::ElementType`: two words of the results.
pub record Element : Type 0 where
  pub nonce : ℕ
  pub hash_start : ℕ

-- The elements of a `span`. `none` is the failed `assert` on an odd number of words.
unfoldable pub elements : List ℕ → Option (List Element)
elements [] = some []
elements (n ∷ []) = none
elements (n ∷ h ∷ ws) = do es ← elements ws; some (record { nonce = n; hash_start = h } ∷ es)

-- `operator<` of a product of hashes and a target. `none` is a failed `assert`.
unfoldable pub below_target : CustomFloat → TargetV2 → Option Bool
unfolding zeros10 bits22
below_target f t = do
  guard f.positive
  guard (leb_ℤ f.exponent (pos 0))
  let zeros_target = zeros10 t
  let zeros_product = neg_part f.exponent
  let bits32 = bits22 t * 2 ^ 10 % u32
  if ltb zeros_product zeros_target
      then some false
      else if ltb zeros_target zeros_product
      then some true
      else some (ltb f.mantissa bits32)

-- `operator<` of two numbers.
unfoldable pub below_bound : CustomFloat → CustomFloat → Option Bool
below_bound f bound = do
  guard bound.positive
  guard (leb_ℤ bound.exponent (pos 0))
  guard f.positive
  guard (leb_ℤ f.exponent (pos 0))
  if ltb (neg_part f.exponent) (neg_part bound.exponent)
      then some false
      else if ltb (neg_part bound.exponent) (neg_part f.exponent)
      then some true
      else some (ltb f.mantissa bound.mantissa)

-- `dummySha256tHash`: the first word of the hash, then ones.
unfoldable pub sha256t_hash : ℕ → List ℕ
unfolding hton32 bytes32
sha256t_hash hash_start = bytes32 (hton32 hash_start) ++ replicate 28 0xFF

unfoldable pub janushash : List ℕ → ℕ → Option CustomFloat
janushash verus_hash hash_start = do
  verus_float ← from_hash verus_hash
  sha256t_float ← from_hash (sha256t_hash hash_start)
  factor ← make (pos 0) 3006477107 true
  p ← pow sha256t_float factor
  multiply verus_float p

-- `extract_version`: the bytes from 68 on, the highest first.
unfoldable pub extract_version : List ℕ → ℕ
unfolding hton32
extract_version header = elim (drop 68 header) [
  | a ∷ b ∷ c ∷ d ∷ h ↦ hton32 (a + b * 2 ^ 8 + c * 2 ^ 16 + d * 2 ^ 24)
  | _ ↦ 0
]

-- What a batch uses of `MinedValues`.
pub record MinedValues : Type 0 where
  pub header : List ℕ
  pub target : TargetV2
  pub threshold : ℕ
  pub first : List Element
  pub second : List Element

abbrev pub c_constant : ℕ
c_constant = 0x147ae14

-- `Success`: the hash and the bytes of the nonce that is submitted.
pub record Success : Type 0 where
  pub hash : List ℕ
  pub nonce : List ℕ

-- `MineResult` without its duration.
pub record MineResult : Type 0 where
  pub total : ℕ
  pub processed : ℕ
  pub success : Option Success

-- A loop goes on unless its round ended with a success.
abbrev pub unless_found :
    Option (Bool × MineResult)
    → (MineResult → Option (Bool × MineResult))
    → Option (Bool × MineResult)
unless_found none k = none
unless_found (some (true, res)) k = some (true, res)
unless_found (some (false, res)) k = k res

-- `operator==` of two hashes.
unfoldable pub same_hash : List ℕ → List ℕ → Bool
same_hash [] [] = true
same_hash (b ∷ bs) (c ∷ cs) = (b == c) && same_hash bs cs
same_hash _ _ = false

-- Two hashes of a header with a nonce, for version 2.2 or 2.1: `fast_hash` is the one that the loop
-- computes, and `verus_hash` the one that it asserts it to be.
module _ (fast_hash verus_hash : Bool → List ℕ → ℕ → List ℕ) (v22 : Bool) (m : MinedValues)
    (threshold : ℕ) where
  -- One round: whether the loop ends with a success.
  unfoldable pub try_candidate : MineResult → Element → Option (Bool × MineResult)
  try_candidate res e = do
    guard (not (e.hash_start == 0))
    let counted = record res { total = res.total + 1 }
    if ltb threshold e.hash_start then some (false, counted) else do
      let tried = record counted { processed = counted.processed + 1 }
      let hash = fast_hash v22 m.header e.nonce
      product ← janushash hash e.hash_start
      below ← below_target product m.target
      guard (not below || same_hash hash (verus_hash v22 m.header e.nonce))
      some (
          if below
          then (
            true,
            record tried {
              success = some (record { hash = hash; nonce = bytes32 (hton32 e.nonce) });
            },
          )
          else (false, tried))

  -- The inner loop, over the candidates from `offset` up to `jBound`.
  unfoldable pub try_candidates : MineResult → List Element → Option (Bool × MineResult)
  try_candidates res [] = some (false, res)
  try_candidates res (e ∷ es) = unless_found (try_candidate res e) (λ res'. try_candidates res' es)

  -- The outer loop, with the variables `offset` and `len`, which wrap around at 64 bits.
  unfoldable pub mine_spans : MineResult → List (List Element) → ℕ → ℕ → Option (Bool × MineResult)
  mine_spans res [] offset len = some (false, res)
  mine_spans res (span ∷ spans) offset len =
      let j_bound = min ((offset + len) % u64) (length span) in
      unless_found (try_candidates res (take (j_bound - offset) (drop offset span))) (λ res'.
        mine_spans res' spans
          (if ltb (length span) offset then 0 else (offset + (u64 - length span)) % u64)
          ((len + (u64 - (j_bound + (u64 - offset)) % u64)) % u64))

-- `d <= 1.0 && d > 0.0`.
abbrev pub is_share : Proportion → Bool
is_share one = true
is_share (quotient b a) = ltb 0 b && leb b a

-- `scale p x` is `uint32_t(d * x)` for the proportion `d`.
module _ (fast_hash verus_hash : Bool → List ℕ → ℕ → List ℕ) (scale : Proportion → ℕ → ℕ) where
  unfoldable pub scaled_threshold : MinedValues → Proportion → Option ℕ
  scaled_threshold m d = do
    guard (is_share d)
    some ((scale d ((m.threshold + u32 - c_constant) % u32) + c_constant) % u32)

  -- `mine_job` and its two versions, which differ in the hash only.
  unfoldable pub mine_job :
      MinedValues → MineResult → CandidateBatch → ℕ → Option (Bool × MineResult)
  mine_job m res batch threshold =
      mine_spans fast_hash verus_hash (not (extract_version m.header == 2)) m threshold res
        (m.first ∷ m.second ∷ []) batch.offset batch.len

  -- The loop of `mine`; `values` gives the results that belong to the label of a job.
  unfoldable pub mine_batches :
      (ℕ → MinedValues) → Proportion → MineResult → List CandidateBatch → Option MineResult
  mine_batches values d res [] = some res
  mine_batches values d res (b ∷ bs) = do
    let m = values b.shared.label
    threshold ← scaled_threshold m d
    (found, res') ← mine_job m res b threshold
    elim found [ true ↦ some res' | false ↦ mine_batches values d res' bs ]

  unfoldable pub mine : (ℕ → MinedValues) → WorkerJob → Option MineResult
  mine values j = do
    res ←
        mine_batches values j.mine_proportion (record { total = 0; processed = 0; success = none })
          j.batches
    guard (not (res.total == 0))
    some res
