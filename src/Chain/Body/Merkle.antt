-- ===== src/Chain/Body/Merkle.antt =====
-- Proofs on `BodyView::merkleRoot` (src/shared/src/block/body/view.cpp), against the tree that splits
-- its leaves at a power of two.
use janusminer.Common.{
  ℕ, zero, suc, ◌+◌, ◌*◌, ◌/◌, ◌^◌, ◌≡◌, ◌<◌, ◌≤◌, arith, refl, ap, ◌∙◌, append-nil,
}
use janusminer.Common.{
  Bool, true, false, none, some, List, [], ◌∷◌, ◌++◌, length, take, drop, Bool-cases, inl, inr,
}
use janusminer.Common.{leb, if◌then◌else◌, pow_pos, length-take, length-drop, length-append, map}
use native.Mathlib.Nat.{pow-suc}
use janusminer.Chain.Body.{
  pair_up, merkle_round, merkle_loop, merkle_root, BodyView, leaves, entries, is_new_structure,
}
use janusminer.Chain.Body.{address_size, reward_size, transfer_size}

double : ℕ → ℕ
double zero = zero
double (suc n) = suc (suc (double n))

double-eq : (n : ℕ) → double n ≡ 2 * n
unfolding double
double-eq zero = refl
double-eq (suc n) = omega (arith, double-eq n)

double_pow : (k : ℕ) → double (2 ^ k) ≡ 2 ^ suc k
double_pow k = omega (arith, double-eq (2 ^ k), pow-suc 2 k)

take-nil : (n : ℕ) → take {A = List ℕ} n [] ≡ []
take-nil zero = refl
take-nil (suc n) = refl

drop-nil : (n : ℕ) → drop {A = List ℕ} n [] ≡ []
drop-nil zero = refl
drop-nil (suc n) = refl

length-entries : (s : List ℕ) (offset size n : ℕ) → length (entries s offset size n) ≡ n
unfolding entries
length-entries s offset size zero = refl
length-entries s offset size (suc n) = ap suc (length-entries s (offset + size) size n)

-- The entries of a body, of all three sections.
abbrev pub count : BodyView → ℕ
count b = b.n_addresses + b.n_rewards + b.n_transfers

length-leaves : (b : BodyView) → length (leaves b) ≡ count b
length-leaves b =
    let a = entries b.bytes b.offset_addresses address_size b.n_addresses in
    let r = entries b.bytes b.offset_rewards reward_size b.n_rewards in
    let t = entries b.bytes b.offset_transfers transfer_size b.n_transfers in
    unfold leaves in
    omega (
      arith,
      length-append a (r ++ t),
      length-append r t,
      length-entries b.bytes b.offset_addresses address_size b.n_addresses,
      length-entries b.bytes b.offset_rewards reward_size b.n_rewards,
      length-entries b.bytes b.offset_transfers transfer_size b.n_transfers,
    )

length-map : (f : List ℕ → List ℕ) (l : List (List ℕ)) → length (map f l) ≡ length l
length-map f [] = refl
length-map f (x ∷ l) = ap suc (length-map f l)

lt-pow : (k : ℕ) → k < 2 ^ k
lt-pow zero = omega arith
lt-pow (suc k) = omega (arith, lt-pow k, pow-suc 2 k)

module _ (sha256 : List ℕ → List ℕ) where
  -- The hash of a tree of depth `k` over at most `2 ^ k` leaves: a subtree that is not full is hashed
  -- alone where it has no sibling.
  unfoldable pub tree : ℕ → List (List ℕ) → List ℕ
  tree zero [] = []
  tree zero (x ∷ l) = x
  tree (suc k) l =
      let left = tree k (take (2 ^ k) l) in
      let both = tree k (take (2 ^ k) l) ++ tree k (drop (2 ^ k) l) in
      if leb (length l) (2 ^ k) then sha256 left else sha256 both

  pairs : List (List ℕ) → List (List ℕ)
  unfolding pair_up
  pairs l = pair_up sha256 [] l

  take-pairs : (n : ℕ) (l : List (List ℕ)) → take n (pairs l) ≡ pairs (take (double n) l)
  unfolding pairs double
  take-pairs zero l = refl
  take-pairs (suc n) [] = refl
  take-pairs (suc n) (a ∷ []) = ap (λ r. sha256 (a ++ []) ∷ r) (take-nil n)
  take-pairs (suc n) (a ∷ b ∷ l) = ap (λ r. sha256 (a ++ b ++ []) ∷ r) (take-pairs n l)

  drop-pairs : (n : ℕ) (l : List (List ℕ)) → drop n (pairs l) ≡ pairs (drop (double n) l)
  unfolding pairs double
  drop-pairs zero l = refl
  drop-pairs (suc n) [] = refl
  drop-pairs (suc n) (a ∷ []) = drop-nil n
  drop-pairs (suc n) (a ∷ b ∷ l) = drop-pairs n l

  length-pairs : (l : List (List ℕ)) → length (pairs l) ≡ (length l + 1) / 2
  unfolding pairs
  length-pairs [] = omega arith
  length-pairs (a ∷ []) = omega arith
  length-pairs (a ∷ b ∷ l) = omega (arith, length-pairs l)

  -- The two halves of a tree's leaves, hashed in pairs.
  left-pairs : (k : ℕ) (l : List (List ℕ)) → take (2 ^ k) (pairs l) ≡ pairs (take (2 ^ suc k) l)
  left-pairs k l = take-pairs (2 ^ k) l ∙ ap (λ n. pairs (take n l)) (double_pow k)

  right-pairs : (k : ℕ) (l : List (List ℕ)) → drop (2 ^ k) (pairs l) ≡ pairs (drop (2 ^ suc k) l)
  right-pairs k l = drop-pairs (2 ^ k) l ∙ ap (λ n. pairs (drop n l)) (double_pow k)

  tree-suc :
      (k : ℕ) (l : List (List ℕ))
      → tree (suc k) l ≡ (
          if leb (length l) (2 ^ k)
          then sha256 (tree k (take (2 ^ k) l))
          else sha256 (tree k (take (2 ^ k) l) ++ tree k (drop (2 ^ k) l)))
  unfolding tree
  tree-suc k l = refl

  -- A round of pairs takes the lowest layer off the tree.
  tree-pairs : (k : ℕ) (l : List (List ℕ)) → 0 < length l → tree k (pairs l) ≡ tree (suc k) l
  tree-pairs zero [] h = absurd (omega arith)
  tree-pairs zero (a ∷ []) h = unfold tree pairs in ap sha256 (append-nil a)
  tree-pairs zero (a ∷ b ∷ l) h =
      let c : leb (suc (suc (length l))) 1 ≡ false = ground arith in
      unfold tree pairs in rw c (ap sha256 (append-nil (a ++ b)))
  tree-pairs (suc k) l h =
      let up = pow-suc 2 k in
      let len = length-pairs l in
      let size = length-take (2 ^ suc k) l in
      let pos = pow_pos k in
      let left : tree k (take (2 ^ k) (pairs l)) ≡ tree (suc k) (take (2 ^ suc k) l) =
        ap (tree k) (left-pairs k l)
        ∙ tree-pairs k (take (2 ^ suc k) l) (omega (arith, size, up, pos)) in
      elim (Bool-cases (leb (length l) (2 ^ suc k))) [
        | inl c ↦
            let c' : leb (length (pairs l)) (2 ^ k) ≡ true = ground (arith, up, len) in
            rw (tree-suc k (pairs l), tree-suc (suc k) l, c, c', left) refl
        | inr c ↦
            let c' : leb (length (pairs l)) (2 ^ k) ≡ false = ground (arith, up, len) in
            let more : 0 < length (drop (2 ^ suc k) l) =
              ground (arith, length-drop (2 ^ suc k) l) in
            let right : tree k (drop (2 ^ k) (pairs l)) ≡ tree (suc k) (drop (2 ^ suc k) l) =
              ap (tree k) (right-pairs k l) ∙ tree-pairs k (drop (2 ^ suc k) l) more in
            rw (tree-suc k (pairs l), tree-suc (suc k) l, c, c', left, right) refl
      ]

  -- The last round, on the two halves of the leaves with the seed behind.
  unfoldable pub rooted : ℕ → List ℕ → List (List ℕ) → List ℕ
  rooted k seed l = sha256 (tree k (take (2 ^ k) l) ++ tree k (drop (2 ^ k) l) ++ seed)

  merkle_round-pairs :
      (seed : List ℕ) (l : List (List ℕ)) → 2 < length l → merkle_round sha256 seed l ≡ pairs l
  unfolding merkle_round pairs
  merkle_round-pairs seed l h = let big : leb (length l) 2 ≡ false = ground arith in rw big refl

  merkle_loop-step :
      (fuel : ℕ) (seed : List ℕ) (l : List (List ℕ))
      → 2 < length l
      → merkle_loop sha256 (suc fuel) seed l ≡ merkle_loop sha256 fuel seed (pairs l)
  merkle_loop-step fuel seed (a ∷ b ∷ c ∷ l) h =
      unfold merkle_loop in rw (merkle_round-pairs seed (a ∷ b ∷ c ∷ l) h, merkle_loop) (more l)
    where
      more :
          (l : List (List ℕ))
          → elim (pairs (a ∷ b ∷ c ∷ l)) [
            | [] ↦ none
            | root ∷ [] ↦ some root
            | x ∷ y ∷ z ↦ merkle_loop sha256 fuel seed (x ∷ y ∷ z)
          ]
            ≡ merkle_loop sha256 fuel seed (pairs (a ∷ b ∷ c ∷ l))
      more [] = unfold pairs in refl
      more (d ∷ l) = unfold pairs in refl
  merkle_loop-step fuel seed (a ∷ b ∷ []) h = absurd (omega arith)
  merkle_loop-step fuel seed (a ∷ []) h = absurd (omega arith)
  merkle_loop-step fuel seed [] h = absurd (omega arith)

  -- Above `2 ^ k` and up to `2 ^ (k + 1)` leaves the loop ends within `k + 1` rounds, with the root of
  -- their tree.
  pub merkle_loop-tree :
      (k fuel : ℕ) (seed : List ℕ) (l : List (List ℕ))
      → k < fuel
      → 2 ^ k < length l
      → length l ≤ 2 ^ suc k
      → merkle_loop sha256 fuel seed l ≡ some (rooted k seed l)
  merkle_loop-tree k zero seed l f lo hi = absurd (omega arith)
  merkle_loop-tree zero (suc fuel) seed (a ∷ b ∷ []) f lo hi =
      unfold merkle_loop merkle_round pair_up rooted tree in refl
  merkle_loop-tree zero (suc fuel) seed (a ∷ b ∷ c ∷ l) f lo hi = absurd (omega arith)
  merkle_loop-tree zero (suc fuel) seed (a ∷ []) f lo hi = absurd (omega arith)
  merkle_loop-tree zero (suc fuel) seed [] f lo hi = absurd (omega arith)
  merkle_loop-tree (suc k) (suc fuel) seed l f lo hi =
      let up = pow-suc 2 k in
      let up' = pow-suc 2 (suc k) in
      let pos = pow_pos k in
      let len = length-pairs l in
      let left =
        tree-pairs k (take (2 ^ suc k) l) (omega (arith, length-take (2 ^ suc k) l, up, pos)) in
      let right = tree-pairs k (drop (2 ^ suc k) l) (omega (arith, length-drop (2 ^ suc k) l)) in
      merkle_loop-step fuel seed l (omega (arith, up, pos))
      ∙ merkle_loop-tree k fuel seed (pairs l) (omega arith) (omega (arith, up, len))
          (omega (arith, up', up, len))
      ∙ unfold rooted in rw (left-pairs k l, right-pairs k l, left, right) refl

  -- For any hash function, the merkle root of a body with more than 2 ^ k entries and at most
  -- twice as many is the root of the tree over the hashes of its entries, seeded with the first
  -- ten or four bytes of the body.
  pub merkle_root-tree :
      (b : BodyView) (h : ℕ) (testnet : Bool) (k : ℕ)
      → 2 ^ k < count b
      → count b ≤ 2 ^ suc k
      → merkle_root sha256 b h testnet
        ≡ some (
            rooted k
              (take (if is_new_structure h testnet then 10 else 4) b.bytes)
              (map sha256 (leaves b)))
  unfolding merkle_root
  merkle_root-tree b h testnet k lo hi =
      let n : length (map sha256 (leaves b)) ≡ count b =
        length-map sha256 (leaves b) ∙ length-leaves b in
      merkle_loop-tree k (suc (length (map sha256 (leaves b)))) _ (map sha256 (leaves b))
        (omega (arith, n, lt-pow k)) (omega (arith, n)) (omega (arith, n))
