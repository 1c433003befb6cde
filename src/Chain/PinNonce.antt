-- ===== src/Chain/PinNonce.antt =====
-- src/shared/src/block/body/nonce.{hpp,cpp}: the nonce of a transaction, which names the height that
-- the transaction is pinned to relative to the height of its block.
use janusminer.Common.{ℕ, ◌-◌, ◌*◌, ◌/◌, ◌%◌, ◌^◌, ◌≡◌, ◌<◌, ◌≤◌, ◌↔◌, min, arith}
use janusminer.Common.{true, Option, none, some, List, [], ◌∷◌}
use janusminer.Common.{u32, ltb, if◌then◌else◌}
use janusminer.Chain.Height.{pin_floor, is_pin_height, pin_bgin, difference}

pub record PinNonce : Type 0 where
  pub id : ℕ
  pub relative_pin : ℕ
  pub reserved : List ℕ

unfoldable pub pin_offset : PinNonce → ℕ
pin_offset n = n.relative_pin * 2 ^ 5

-- `height - 1` wraps.
unfoldable pub make_pin_nonce : ℕ → ℕ → ℕ → Option PinNonce
unfolding difference pin_floor
make_pin_nonce nid height pin_height =
    let ph = pin_floor (difference height 1) in
    let index = difference ph pin_height / 2 ^ 5 in
    if ltb ph pin_height
    then none
    else if ltb 255 index
    then none
    else some (record { id = nid; relative_pin = index % 2 ^ 8; reserved = 0 ∷ 0 ∷ 0 ∷ [] })

-- `PinNonce::pin_height`; `none` is its failed `assert`, and `PinHeight` throws in no other case.
unfoldable pub nonce_pin_height : PinNonce → ℕ → Option ℕ
unfolding difference pin_offset is_pin_height
nonce_pin_height n pf =
    let h = difference pf (min (pin_offset n) pf) in if is_pin_height h then some h else none

module _ (nid height pin : ℕ) (ph : 0 < height) (hh : height < u32)
    (pin_ok : is_pin_height pin ≡ true) where
  -- A nonce that is made for a positive 32-bit height and a pin height gives back the pin height
  -- at that height.
  pub nonce_pin_height-make_pin_nonce :
      {n : PinNonce}
      → make_pin_nonce nid height pin ≡ some n
      → nonce_pin_height n (pin_floor (difference height 1)) ≡ some pin
  unfolding make_pin_nonce nonce_pin_height is_pin_height
  nonce_pin_height-make_pin_nonce {n} e = ground arith

  -- For a positive 32-bit height, a nonce is made exactly for the pin heights from pin_bgin to the
  -- pin floor of the height before.
  pub make_pin_nonce-IsSome :
      ((n : PinNonce) × (make_pin_nonce nid height pin ≡ some n))
      ↔ ((pin_bgin (height - 1) ≤ pin) × (pin ≤ pin_floor (height - 1)))
  unfolding make_pin_nonce pin_bgin is_pin_height
  make_pin_nonce-IsSome = (
    λ p. let e = p.1 in ground arith,
    λ p. (
      record {
        id = nid;
        relative_pin = (pin_floor (height - 1) - pin) / 2 ^ 5;
        reserved = 0 ∷ 0 ∷ 0 ∷ [];
      },
      ground arith,
    ),
  )
