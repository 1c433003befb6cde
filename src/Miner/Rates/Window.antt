-- ===== src/Miner/Rates/Window.antt =====
-- Proofs on the window of `AverageEstimator` (src/miner/cpu/efficiency_estimator.hpp).
use janusminer.Common.{
  ℕ, zero, suc, ◌+◌, ◌-◌, ◌%◌, ◌≡◌, ◌≤◌, arith, refl, ap, sym, ◌∙◌, Bool-cases, inl, inr,
}
use janusminer.Common.{
  List, [], ◌∷◌, ◌++◌, append_assoc, u64, ltb, length, drop, sum, sum-append, append-nil,
  length-append, length-drop,
}
use janusminer.Miner.Rates.Average.{State, empty, drop_loop, push_hashrate}
use mathlib.Core.Path.{subst}
use janusminer.Miner.Rates.{add64, sub64}

-- The last `n` elements.
abbrev pub suffix {ℓ} : {A : Type ℓ} → ℕ → List A → List A
suffix n l = drop (length l - n) l

drop-drop {ℓ} : {A : Type ℓ} (k m : ℕ) (l : List A) → drop k (drop m l) ≡ drop (m + k) l
drop-drop k zero l = let e : zero + k ≡ k = omega arith in rw e refl
drop-drop zero (suc m) [] = let e : suc m + zero ≡ suc m = omega arith in rw e refl
drop-drop (suc k) (suc m) [] = let e : suc m + suc k ≡ suc (m + suc k) = omega arith in rw e refl
drop-drop k (suc m) (x ∷ l) =
    let e : suc m + k ≡ suc (m + k) = omega arith in rw e (drop-drop k m l)

drop-prefix {ℓ} :
    {A : Type ℓ} (m : ℕ) (l ys : List A) → m ≤ length l → drop m (l ++ ys) ≡ drop m l ++ ys
drop-prefix zero l ys h = refl
drop-prefix (suc m) [] ys h = absurd (omega arith)
drop-prefix (suc m) (x ∷ l) ys h = drop-prefix m l ys (omega arith)

-- A window that was full stays the suffix of what has been pushed.
pub suffix-push {ℓ} :
    {A : Type ℓ} (n : ℕ) (l : List A) (x : A)
    → suffix n (suffix n l ++ x ∷ []) ≡ suffix n (l ++ x ∷ [])
suffix-push n l x =
    let q = l ++ x ∷ [] in
    let m = length l - n in
    let lq : length q ≡ length l + 1 = length-append l (x ∷ []) in
    let front : drop m l ++ x ∷ [] ≡ drop m q = sym (drop-prefix m l (x ∷ []) (omega arith)) in
    let count : m + (length (drop m q) - n) ≡ length q - n = omega (arith, length-drop m q) in
    rw (front, drop-drop (length (drop m q) - n) m q, count) refl

pub sub64_lem : (t x s : ℕ) → t ≡ (x + s) % u64 → sub64 t x ≡ s % u64
unfolding sub64
sub64_lem t x s h = omega arith

pub add64_lem : (t x s : ℕ) → t ≡ s % u64 → add64 t x ≡ (s + x) % u64
unfolding add64
add64_lem t x s h = omega arith

pub record IsWindow (s : State) (pushed : List ℕ) : Type 0 where
  pub kept : s.vals ≡ suffix 10 pushed
  pub summed : s.total ≡ sum s.vals % u64

drop_loop_lem : (t : ℕ) (l : List ℕ) → t ≡ sum l % u64 → IsWindow (drop_loop t l) l
unfolding drop_loop
drop_loop_lem t [] h = record { kept = refl; summed = h }
drop_loop_lem t (v ∷ vs) h = elim (Bool-cases (ltb 10 (suc (length vs)))) [
  | inl y ↦
      let w = drop_loop_lem (sub64 t v) vs (sub64_lem t v (sum vs) h) in
      let e : suc (length vs) - 10 ≡ suc (length vs - 10) = ground arith in
      rw y (record { kept = rw e w.kept; summed = w.summed })
  | inr n ↦
      let e : suc (length vs) - 10 ≡ 0 = ground arith in
      rw n (record { kept = rw e refl; summed = h })
]

push_hashrate_lem :
    (s : State) (pushed : List ℕ) (x : ℕ)
    → IsWindow s pushed
    → IsWindow (push_hashrate s x) (pushed ++ x ∷ [])
unfolding push_hashrate
push_hashrate_lem s pushed x w =
    let here : sum (s.vals ++ x ∷ []) ≡ sum s.vals + x =
      omega (arith, sum-append s.vals (x ∷ [])) in
    let l =
      drop_loop_lem (add64 s.total x) (s.vals ++ x ∷ [])
        (add64_lem s.total x (sum s.vals) w.summed ∙ ap (λ n. n % u64) (sym here)) in
    record {
      kept = l.kept ∙ ap (λ v. suffix 10 (v ++ x ∷ [])) w.kept ∙ suffix-push 10 pushed x;
      summed = l.summed;
    }

unfoldable pub push_all : State → List ℕ → State
push_all s [] = s
push_all s (x ∷ xs) = push_all (push_hashrate s x) xs

push_all_from :
    (s : State) (before xs : List ℕ) → IsWindow s before → IsWindow (push_all s xs) (before ++ xs)
unfolding push_all
push_all_from s before [] w = rw append-nil w
push_all_from s before (x ∷ xs) w =
    let e : (before ++ x ∷ []) ++ xs ≡ before ++ x ∷ xs = append_assoc before (x ∷ []) xs in
    subst (IsWindow (push_all (push_hashrate s x) xs)) e
      (push_all_from (push_hashrate s x) (before ++ x ∷ []) xs (push_hashrate_lem s before x w))

-- Whatever hash rates have been pushed, the estimator keeps the last ten, and its total is their
-- sum modulo 2 ^ 64.
pub push_all_lem :
    (rates : List ℕ)
    → let s = push_all empty rates in
      (s.vals ≡ suffix 10 rates) × (s.total ≡ sum (suffix 10 rates) % u64)
push_all_lem rates =
    let w = push_all_from empty [] rates (record { kept = refl; summed = refl }) in
    (w.kept, w.summed ∙ ap (λ l. sum l % u64) w.kept)
