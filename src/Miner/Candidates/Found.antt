-- ===== src/Miner/Candidates/Found.antt =====
-- What a success of `mine_job` (src/miner/verusopt/verus_clhash_opt.cpp) is, and what it counts.
use janusminer.Common.{ℕ, suc, ◌+◌, ◌≡◌, ◌≤◌, refl, ap, ◌∙◌, arith, Bool-cases, ltb, ◌==◌, inl, inr}
use janusminer.Common.{Bool, true, false, Option, none, some, List, [], ◌∷◌, ◌++◌, length}
use janusminer.Common.{Option-cases, if◌then◌else◌, not, ◌||◌, guard, ◌>>◌}
use mathlib.Core.Path.{subst}
use janusminer.General.ByteOrder.{hton32, bytes32}
use janusminer.Chain.CustomFloat.{CustomFloat}
use janusminer.Miner.Candidates.{
  Element, MinedValues, MineResult, Success, janushash, below_target, same_hash, try_candidate,
  try_candidates, unless_found,
}

module _ (fast_hash verus_hash : Bool → List ℕ → ℕ → List ℕ) (v22 : Bool) (m : MinedValues)
    (threshold : ℕ) where
  -- A candidate whose product of hashes is below the target, with the hash that the loop asserts.
  abbrev pub IsHit : Element → Type 0
  IsHit e =
      (ltb threshold e.hash_start ≡ false)
      × ((product : CustomFloat) × (janushash (fast_hash v22 m.header e.nonce) e.hash_start
            ≡ some product)
          × (below_target product m.target ≡ some true))
      × (same_hash (fast_hash v22 m.header e.nonce) (verus_hash v22 m.header e.nonce) ≡ true)

  abbrev pub success_of : Element → Success
  success_of e = record { hash = fast_hash v22 m.header e.nonce; nonce = bytes32 (hton32 e.nonce) }

  -- What a round does to the counters and the success.
  abbrev Round : Bool → MineResult → MineResult → Element → Type 0
  Round true res res' e =
      IsHit e
      × (res'.success ≡ some (success_of e))
      × (res'.total ≡ res.total + 1)
      × (res'.processed ≡ res.processed + 1)
  Round false res res' e =
      (res'.success ≡ res.success)
      × (res'.total ≡ res.total + 1)
      × (res'.processed ≤ res.processed + 1)
      × (res.processed ≤ res'.processed)

  abbrev After : MineResult → Element → Option (Bool × MineResult) → Type 0
  After res e none = Unit
  After res e (some (found, res')) = Round found res res' e

  try_candidate-After :
      (res : MineResult) (e : Element)
      → After res e (try_candidate fast_hash verus_hash v22 m threshold res e)
  unfolding try_candidate
  try_candidate-After res e = elim (Bool-cases (e.hash_start == 0)) [
    | inl z ↦ rw z tt
    | inr nonzero ↦ rw nonzero (elim (Bool-cases (ltb threshold e.hash_start)) [
      | inl above ↦ rw above (refl, refl, omega arith, omega arith)
      | inr low ↦
          rw low (elim (Option-cases (janushash (fast_hash v22 m.header e.nonce) e.hash_start)) [
            | inl failed ↦ rw failed tt
            | inr (product, eq) ↦ rw eq (elim (Option-cases (below_target product m.target)) [
              | inl failed ↦ rw failed tt
              | inr (below, eq') ↦ rw eq' (compared low product eq below eq')
            ])
          ])
    ])
  ]
    where
      compared :
          ltb threshold e.hash_start ≡ false
          → (product : CustomFloat)
          → janushash (fast_hash v22 m.header e.nonce) e.hash_start ≡ some product
          → (below : Bool) → below_target product m.target ≡ some below
          → After res e (do
            guard (
                not below
                || same_hash (fast_hash v22 m.header e.nonce) (verus_hash v22 m.header e.nonce))
            some (
                if below
                then (
                  true,
                  record res {
                    total = res.total + 1;
                    processed = res.processed + 1;
                    success = some (success_of e);
                  },
                )
                else (false, record res { total = res.total + 1; processed = res.processed + 1 })))
      compared low product eq true eq' =
          elim (Bool-cases
            (same_hash (fast_hash v22 m.header e.nonce) (verus_hash v22 m.header e.nonce))) [
              | inl same ↦ rw same ((low, (product, eq, eq'), same), refl, refl, refl)
              | inr wrong ↦ rw wrong tt
            ]
      compared low product eq false eq' = (refl, refl, omega arith, omega arith)

  -- What the loop over candidates does: the first hit ends it.
  abbrev pub Outcome : Bool → MineResult → MineResult → List Element → Type 0
  Outcome true res res' es =
      (before : List Element) × (e : Element) × (after : List Element) × (es ≡ before ++ e ∷ after)
      × IsHit e
      × (res'.success ≡ some (success_of e))
      × (res'.total ≡ res.total + suc (length before))
  Outcome false res res' es =
      (res'.success ≡ res.success)
      × (res'.total ≡ res.total + length es)
      × (res'.processed ≤ res.processed + length es)

  abbrev Ends : MineResult → List Element → Option (Bool × MineResult) → Type 0
  Ends res es none = Unit
  Ends res es (some (found, res')) = Outcome found res res' es

  Ends-cons :
      (res : MineResult) (e : Element) (es : List Element) (o : Option (Bool × MineResult))
      (k : MineResult → Option (Bool × MineResult))
      → After res e o
      → ((r : MineResult) → Ends r es (k r))
      → Ends res (e ∷ es) (unless_found o k)
  Ends-cons res e es none k first rest = tt
  Ends-cons res e es (some (true, r)) k first rest = ([], e, es, refl, first.0, first.1, first.2)
  Ends-cons res e es (some (false, r)) k first rest = Ends_later (k r) (rest r)
    where
      Ends_later : (o : Option (Bool × MineResult)) → Ends r es o → Ends res (e ∷ es) o
      Ends_later none h = tt
      Ends_later (some (true, r')) (before, e', after, split, hit, success, total) = (
        e ∷ before,
        e',
        after,
        ap (λ l. e ∷ l) split,
        hit,
        success,
        omega (arith, total, first.1),
      )
      Ends_later (some (false, r')) (same, total, processed) =
          (same ∙ first.0, omega (arith, total, first.1), omega (arith, processed, first.2))

  try_candidates-Ends :
      (es : List Element) (res : MineResult)
      → Ends res es (try_candidates fast_hash verus_hash v22 m threshold res es)
  unfolding try_candidates
  try_candidates-Ends [] res = (refl, omega arith, omega arith)
  try_candidates-Ends (e ∷ es) res =
      Ends-cons res e es _ _ (try_candidate-After res e) (λ r. try_candidates-Ends es r)

  -- If the loop over candidates ends with a success, it is the hash and the nonce of a candidate
  -- whose hash start is not above the threshold, whose product of hashes is below the target and
  -- whose hash passes the assert, and the total counts the candidates up to it; if it ends without
  -- one, the success is as before and the total counts them all.
  pub try_candidates-Outcome :
      (es : List Element) (res : MineResult) (found : Bool) (res' : MineResult)
      → try_candidates fast_hash verus_hash v22 m threshold res es ≡ some (found, res')
      → Outcome found res res' es
  try_candidates-Outcome es res found res' h = subst (Ends res es) h (try_candidates-Ends es res)
