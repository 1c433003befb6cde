-- ===== src/Chain/Height/Supply.antt =====
-- Proofs on the rewards of a chain (src/shared/src/block/chain/height.hpp).
use janusminer.Common.{ℕ, zero, suc, ◌+◌, ◌-◌, ◌*◌, ◌/◌, ◌%◌, ◌^◌, ◌≡◌, ◌<◌, ◌≤◌, arith}
use janusminer.Common.{Option, none, some, u32, ◌>>=◌, ap, refl, dec_lt}
use native.Mathlib.Nat.{pow-suc, div-div-eq-div-mul}
use janusminer.Chain.Height.{reward, halving_interval, genesis_block_reward, max_supply}

-- The sum of the rewards of the blocks at heights 1 to `n`.
unfoldable pub issued : ℕ → Option ℕ
issued zero = some 0
issued (suc n) = do s ← issued n; r ← reward (suc n); some (s + r)

-- What one more block of the period pays.
pays : ℕ → ℕ
pays n = genesis_block_reward / 2 ^ (n / halving_interval)

reward-pays : (n r : ℕ) → suc n < u32 → reward (suc n) ≡ some r → r ≡ pays n
unfolding reward pays
reward-pays n r h e = ground (arith, halvings)
  where
    halvings : (suc n + u32 - 1) % u32 ≡ n
    halvings = omega arith

pays-same : (n : ℕ) → n % halving_interval + 1 < halving_interval → pays (suc n) ≡ pays n
unfolding pays
pays-same n h = ap (λ k. genesis_block_reward / 2 ^ k) (omega arith)

pays-halved : (n : ℕ) → n % halving_interval + 1 ≡ halving_interval → pays (suc n) ≡ pays n / 2
unfolding pays
pays-halved n h =
    let next : suc n / halving_interval ≡ suc (n / halving_interval) = omega arith in
    rw (
      next,
      pow-suc 2 (n / halving_interval),
      ← div-div-eq-div-mul genesis_block_reward (2 ^ (n / halving_interval)) 2,
    )

issued-suc :
    (n s : ℕ)
    → issued (suc n) ≡ some s
    → (s' : ℕ) × (r : ℕ) × (issued n ≡ some s') × (reward (suc n) ≡ some r) × (s ≡ s' + r)
unfolding issued
issued-suc n s e = go (issued n) (reward (suc n)) e
  where
    go :
        (a b : Option ℕ)
        → (a >>= λ s. b >>= λ r. some (s + r)) ≡ some s
        → (s' : ℕ) × (r : ℕ) × (a ≡ some s') × (b ≡ some r) × (s ≡ s' + r)
    go none b e = cc
    go (some s') none e = cc
    go (some s') (some r) e = (s', r, refl, refl, ground arith)

split : (a b : ℕ) → b < a → a - b ≡ (a - (b + 1)) + 1
split a b h = omega arith

-- What is issued, and what the rest of this period and all later ones can still pay.
reserve :
    (n s : ℕ)
    → n < u32
    → issued n ≡ some s
    → s + (2 * halving_interval - n % halving_interval) * pays n ≤ max_supply
unfolding issued
reserve zero s h e = unfold pays in ground arith
reserve (suc n) s h e =
    let (s', r, e', er, eq) = issued-suc n s e in
    let ih = reserve n s' (omega arith) e' in
    let er' = reward-pays n r h er in
    let c = halving_interval - 1 - n % halving_interval in
    elim (dec_lt (n % halving_interval + 1) halving_interval) [
      | yes p ↦
          let k : suc n % halving_interval ≡ n % halving_interval + 1 = omega arith in
          let m : (2 * halving_interval - n % halving_interval) * pays n
              ≡ (2 * halving_interval - (n % halving_interval + 1)) * pays n + pays n =
            omega (
              arith,
              ap (λ (t : ℕ). t * pays n)
                  (split (2 * halving_interval) (n % halving_interval) (omega arith)),
            ) in
          rw (pays-same n p, k, eq, er') (omega (arith, m, ih))
      | no p ↦
          let k : suc n % halving_interval ≡ 0 = omega arith in
          let k' : n % halving_interval ≡ halving_interval - 1 = omega arith in
          rw (pays-halved n (omega arith), k, eq, er') (omega (arith, rw k' at ih))
    ]

-- No chain issues more than the maximal supply, at any height where the rewards are defined.
pub issued-le-max_supply : (n : ℕ) {s : ℕ} → n < u32 → issued n ≡ some s → s ≤ max_supply
issued-le-max_supply n {s} h e = omega (arith, reserve n s h e)

-- The rewards are defined up to the end of the 64th halving interval.
pub issued-IsSome : (n : ℕ) → n ≤ 64 * halving_interval → (s : ℕ) × (issued n ≡ some s)
unfolding issued reward
issued-IsSome zero h = (0, refl)
issued-IsSome (suc n) h =
    let (s, e) = issued-IsSome n (omega arith) in
    (s + genesis_block_reward / 2 ^ (n / halving_interval), ground (arith, e))

-- Beyond the 64th halving interval the reward of a 32-bit height is a shift by 64 or more, which
-- is undefined.
pub reward_undefined : (h : ℕ) → 64 * halving_interval < h → h < u32 → reward h ≡ none
unfolding reward
reward_undefined h p q = ground arith

-- Up to the end of the 64th halving interval the rewards of a chain are defined, and their sum is
-- at most the maximal supply.
pub issued_lem :
    (n : ℕ) → n ≤ 64 * halving_interval → (s : ℕ) × (issued n ≡ some s) × (s ≤ max_supply)
issued_lem n h = let (s, e) = issued-IsSome n h in (s, e, issued-le-max_supply n (omega arith) e)
