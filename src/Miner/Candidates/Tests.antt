-- ===== src/Miner/Candidates/Tests.antt =====
-- Inputs of the search for a nonce.
use janusminer.Common.{
  ℕ, ◌+◌, ◌*◌, ◌^◌, ◌≡◌, ◌↔◌, refl, arith, Bool, some, none, true, not, List, [], ◌∷◌, neg_part,
  negsuc, ◌+ℤ◌, ◌-ℤ◌, replicate, ◌==◌,
}
use janusminer.Chain.Target.{TargetV2, zeros10, bits22}
use janusminer.Chain.CustomFloat.{
  CustomFloat, from_hash, skip_zero_bytes, shift_left_loop, make, is_zero, multiply, add,
  new_shift_left, add_near, add_ordered, empty, negate, set_assert, set_exponent,
  set_nonzero_mantissa, shift_left, shift_right, shift_right_loop, subtract,
}
use janusminer.Chain.CustomFloat.Power.{
  pow, log2, log2_polynomial, cubic, from_int, add_exponent, from_exponent, negate_exponent, pow2,
  pow2_fraction, pow2_part, pow2_whole,
}
use janusminer.Chain.Digest.{four_bytes}
use janusminer.General.ByteOrder.{byte_swap32, hton32, bytes32}
use janusminer.Chain.CustomFloat.Bounds.{Gives}
use janusminer.Chain.CustomFloat.PowerTotal.{bound}
use janusminer.Miner.JobQueue.{Proportion, CandidateBatch}
use janusminer.Miner.Candidates.{
  Element, MinedValues, MineResult, below_target, janushash, mine_job, try_candidate,
  try_candidates, extract_version, same_hash, sha256t_hash,
}
use janusminer.Miner.Candidates.Comparison.{Less, below_target_lem}
use janusminer.Miner.Candidates.Found.{Outcome, try_candidates-Outcome}
use janusminer.Miner.Candidates.Score.{janushash-Gives}
use janusminer.Miner.Candidates.Visited.{reached, mine_job_lem}

abbrev ones_hash : Bool → List ℕ → ℕ → List ℕ
ones_hash v22 header nonce = replicate 32 0xFF

abbrev no_scale : Proportion → ℕ → ℕ
no_scale d x = x

abbrev element : ℕ → ℕ → Element
element n h = record { nonce = n; hash_start = h }

-- Three candidates in the first span and two in the second.
abbrev values : MinedValues
values = record {
  header = replicate 76 0;
  target = record { bits = 0 * 2 ^ 22 + 0x3FFFFF };
  threshold = 0x20000000;
  first = element 1 50 ∷ element 2 60 ∷ element 3 70 ∷ [];
  second = element 4 80 ∷ element 5 90 ∷ [];
}

abbrev fresh_result : MineResult
fresh_result = record { total = 0; processed = 0; success = none }

-- It reaches into the second span.
abbrev batch : CandidateBatch
batch = record { shared = record { label = 0; clean_index = 0; size = 5 }; offset = 1; len = 4 }

mine_job_lem_example :
    mine_job ones_hash ones_hash no_scale values fresh_result batch 40
    ≡ try_candidates ones_hash ones_hash
        (not (extract_version values.header == 2))
        values
        40
        fresh_result
        (reached values.first values.second 1 4)
mine_job_lem_example =
    mine_job_lem ones_hash ones_hash no_scale values fresh_result batch 40 (omega arith)
      (omega arith) (omega arith)

-- The first candidate succeeds.
abbrev found_result : MineResult
found_result = record {
  total = 1;
  processed = 1;
  success = some (record { hash = replicate 32 0xFF; nonce = 0 ∷ 0 ∷ 0 ∷ 1 ∷ [] });
}

succeeds :
    try_candidates ones_hash ones_hash true values 100 fresh_result values.first
    ≡ some (true, found_result)
unfolding try_candidates try_candidate janushash below_target same_hash sha256t_hash from_hash
    four_bytes skip_zero_bytes shift_left_loop byte_swap32 ◌-ℤ◌ ◌+ℤ◌ make pow log2 is_zero
    log2_polynomial cubic multiply add from_int new_shift_left add_exponent from_exponent
    negate_exponent pow2 pow2_fraction pow2_part pow2_whole add_near add_ordered empty negate
    set_assert set_exponent set_nonzero_mantissa shift_left shift_right shift_right_loop subtract
    hton32 bytes32
succeeds = refl

try_candidates-Outcome_example :
    Outcome ones_hash ones_hash true values 100 true fresh_result found_result values.first
try_candidates-Outcome_example =
    try_candidates-Outcome ones_hash ones_hash true values 100 values.first fresh_result true
      found_result succeeds

abbrev product : CustomFloat
product = record { exponent = negsuc 4; mantissa = 0x90000000; positive = true }

abbrev target : TargetV2
target = record { bits = 5 * 2 ^ 22 + 0x300000 }

below_target_lem_example :
    (b : Bool) × (below_target product target ≡ some b)
    × ((b ≡ true)
        ↔ Less product.mantissa
            (neg_part product.exponent)
            (bits22 target * 2 ^ 10)
            (zeros10 target))
below_target_lem_example =
    below_target_lem product target (omega arith, omega arith) (unfold bits22 in omega arith) refl
      refl

janushash-Gives_example : Gives (janushash (0 ∷ 0 ∷ 7 ∷ []) 5) (287 + bound + 1) bound
janushash-Gives_example =
    janushash-Gives (0 ∷ 0 ∷ 7 ∷ []) 5 (omega arith, (omega arith, (omega arith, tt))) (omega arith)
