-- ===== src/Chain/Body.antt =====
-- src/shared/src/block/body/view.{hpp,cpp}: the sections of a block's body, and its merkle root. The
-- hash function is `hashSHA256` of crypto/hasher_sha256.hpp, over a third-party SHA-256: a parameter.
pub mod Layout
pub mod Merkle
use janusminer.Common.{ℕ, zero, suc, ◌+◌, ◌-◌, ◌*◌, ◌≡◌, ◌<◌}
use janusminer.Common.{
  Bool, true, false, ◌||◌, Option, none, some, List, [], ◌∷◌, ◌++◌, length, take, drop, map,
}
use janusminer.Common.{ltb, leb, ◌==◌, if◌then◌else◌, ◌>>=◌, ◌>>◌}
use janusminer.General.Reader.{Reader, skip, uint16, uint32}

abbrev pub max_block_size : ℕ
max_block_size = 35000

abbrev pub new_block_structure_height : ℕ
new_block_structure_height = 981500

abbrev pub address_size : ℕ
address_size = 20

abbrev pub reward_size : ℕ
reward_size = 16

abbrev pub transfer_size : ℕ
transfer_size = 34 + 65

-- A `BodyView` with `isValid`.
pub record BodyView : Type 0 where
  pub bytes : List ℕ
  pub n_addresses : ℕ
  pub n_rewards : ℕ
  pub n_transfers : ℕ
  pub offset_addresses : ℕ
  pub offset_rewards : ℕ
  pub offset_transfers : ℕ

-- What the constructor does: `invalid` is a view without `isValid`, of which nothing is read.
pub data Parsed : Type 0 where
  view : BodyView → Parsed
  invalid malformed : Parsed

-- An exception of the reader leaves the constructor.
abbrev pub or_malformed {ℓ} : {A : Type ℓ} → Option A → (A → Parsed) → Parsed
or_malformed none f = malformed
or_malformed (some a) f = f a

unfoldable pub is_new_structure : ℕ → Bool → Bool
is_new_structure h testnet = leb new_block_structure_height h || testnet

-- From the count of addresses on, in the new structure. `at r` is the offset of the cursor.
unfoldable pub new_transfers : List ℕ → ℕ → ℕ → ℕ → Reader → Parsed
new_transfers s na oa ow r =
    let done : ℕ → Reader → Parsed = λ nt r'. view (record {
      bytes = s;
      n_addresses = na;
      n_rewards = 1;
      n_transfers = nt;
      offset_addresses = oa;
      offset_rewards = ow;
      offset_transfers = length s - length r';
    }) in
    if length r == 0
    then done 0 r
    else or_malformed (uint32 r)
        λ p. if length p.1 == transfer_size * p.0 then done p.0 p.1 else invalid

unfoldable pub new_rewards : List ℕ → ℕ → ℕ → Reader → Parsed
new_rewards s na oa r =
    if ltb (length r) reward_size
    then invalid
    else or_malformed (skip 16 r) (new_transfers s na oa (length s - length r))

unfoldable pub new_structure : List ℕ → Parsed
new_structure s = or_malformed (skip 10 s) λ r. or_malformed (uint16 r) λ p.
    if ltb (length p.1) (p.0 * address_size)
    then invalid
    else or_malformed (skip (p.0 * address_size) p.1) (new_rewards s p.0 (length s - length p.1))

unfoldable pub old_transfers : List ℕ → ℕ → ℕ → ℕ → ℕ → Reader → Parsed
old_transfers s na oa nw ow r = or_malformed (uint32 r) λ p.
    if length p.1 == transfer_size * p.0
    then view (record {
      bytes = s;
      n_addresses = na;
      n_rewards = nw;
      n_transfers = p.0;
      offset_addresses = oa;
      offset_rewards = ow;
      offset_transfers = length s - length p.1;
    })
    else invalid

unfoldable pub old_rewards : List ℕ → ℕ → ℕ → Reader → Parsed
old_rewards s na oa r = or_malformed (uint16 r) λ p.
    if ltb (length p.1) (reward_size * p.0 + 4)
    then invalid
    else or_malformed (skip (16 * p.0) p.1) (old_transfers s na oa p.0 (length s - length p.1))

unfoldable pub old_structure : List ℕ → Parsed
old_structure s =
    if ltb (length s) 8
    then invalid
    else or_malformed (skip 4 s) λ r. or_malformed (uint32 r) λ p.
      if ltb (length p.1) (p.0 * address_size + 4)
      then invalid
      else or_malformed (skip (p.0 * address_size) p.1) (old_rewards s p.0 (length s - length p.1))

-- `BodyView(s, h, testnet)`.
unfoldable pub parse_body : List ℕ → ℕ → Bool → Parsed
parse_body s h testnet =
    if ltb max_block_size (length s)
    then invalid
    else if is_new_structure h testnet
    then new_structure s
    else old_structure s

-- `n` entries of `size` bytes from `offset` on.
unfoldable pub entries : List ℕ → ℕ → ℕ → ℕ → List (List ℕ)
entries s offset size zero = []
entries s offset size (suc n) = take size (drop offset s) ∷ entries s (offset + size) size n

-- What `merkleRoot` hashes first.
unfoldable pub leaves : BodyView → List (List ℕ)
leaves b =
    entries b.bytes b.offset_addresses address_size b.n_addresses
    ++ (entries b.bytes b.offset_rewards reward_size b.n_rewards
        ++ entries b.bytes b.offset_transfers transfer_size b.n_transfers)

module _ (sha256 : List ℕ → List ℕ) where
  -- One round of the loop: the hash of each pair, of a last single hash alone, with `seed` behind.
  unfoldable pub pair_up : List ℕ → List (List ℕ) → List (List ℕ)
  pair_up seed [] = []
  pair_up seed (a ∷ []) = sha256 (a ++ seed) ∷ []
  pair_up seed (a ∷ b ∷ hashes) = sha256 (a ++ b ++ seed) ∷ pair_up seed hashes

  unfoldable pub merkle_round : List ℕ → List (List ℕ) → List (List ℕ)
  merkle_round seed hashes = pair_up (if leb (length hashes) 2 then seed else []) hashes

  -- The `do` loop, on fuel: `none` is no fuel, or `front` of no hashes.
  unfoldable pub merkle_loop : ℕ → List ℕ → List (List ℕ) → Option (List ℕ)
  merkle_loop zero seed hashes = none
  merkle_loop (suc fuel) seed hashes = elim (merkle_round seed hashes) [
    | [] ↦ none
    | root ∷ [] ↦ some root
    | a ∷ b ∷ more ↦ merkle_loop fuel seed (a ∷ b ∷ more)
  ]

  unfoldable pub merkle_root : BodyView → ℕ → Bool → Option (List ℕ)
  merkle_root b h testnet =
      let hashes = map sha256 (leaves b) in
      merkle_loop (suc (length hashes))
        (take (if is_new_structure h testnet then 10 else 4) b.bytes) hashes
