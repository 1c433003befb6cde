-- ===== src/Chain/Tests.antt =====
-- Inputs of the targets, the sums of work, the heights, the messages and the bodies of blocks.
use janusminer.Common.{
  ◌/◌, ℕ, zero, suc, ◌+◌, ◌-◌, ◌*◌, ◌%◌, ◌^◌, ◌≡◌, ◌<◌, ◌≤◌, ◌⊎◌, ◌↔◌, arith, refl, inl, true,
  false, Bool, Option, none, some, List, [], ◌∷◌, ◌++◌, length, map, take, replicate, if◌then◌else◌,
  length-replicate,
}
use janusminer.Chain.Target.{
  TargetV1, TargetV2, scale_v1, scale_v2, cap_factor, zeros8, zeros10, bits22, bits24,
  min_diff_exponent, max_target_host,
}
use janusminer.Chain.Target.ScaleV1
use janusminer.Chain.Target.ScaleV2
use janusminer.Chain.Target.LimitsV2.{scale_v2-below_min, scale_v2-at_max}
use janusminer.Chain.Digest.{Digest, digest, fresh}
use janusminer.Chain.Digest.Bounds
use janusminer.Chain.Digest.Bounds.{digest_total}
use janusminer.Chain.Worksum.{Worksum, IsWorksum, ◌+=◌, ◌*=◌, ◌<w◌, ◌>w◌, ◌≤w◌, ◌≥w◌, ◌==w◌}
use janusminer.Chain.Worksum.Value.{value}
use janusminer.Chain.Worksum.Arithmetic.{value-add, value-mul}
use janusminer.Chain.Worksum.FromTarget.{
  made, overrun, from_target_v2, value-from_target_v2, from_target_v2_overrun,
}
use janusminer.Chain.Worksum.Order.{compare_values}
use janusminer.Chain.Height.{max_supply, pin_floor, difference, is_pin_height}
use janusminer.Chain.Height.Supply.{issued, issued_lem}
use janusminer.Chain.PinNonce.{
  PinNonce, make_pin_nonce, nonce_pin_height, nonce_pin_height-make_pin_nonce,
}
use janusminer.General.Reader.{Reader, skip, uint16, read}
use janusminer.General.ByteOrder.{hton16, byte_swap16, from_bytes}
use janusminer.Chain.Messages.Payment.{
  PaymentCreateMessage, payment_bytes, payment_size, read_payment,
}
use janusminer.Chain.Messages.PaymentRoundTrip.{payment_bytes_lem}
use janusminer.Chain.Body.{
  new_structure, new_rewards, new_transfers, BodyView, parse_body, view, leaves, merkle_root,
  is_new_structure, max_block_size,
}
use janusminer.Chain.Body.Layout.{IsLaidOut, parse_body-IsLaidOut}
use janusminer.Chain.Body.Merkle.{rooted, merkle_root-tree}

abbrev target_v1 : TargetV1
target_v1 = record { bits = 40 * 2 ^ 24 + 0xABCDEF }

target_v1-IsNormal : ScaleV1.IsNormal target_v1
unfolding bits24
target_v1-IsNormal = record { word = omega arith; leading = omega arith }

abbrev target_v2 : TargetV2
target_v2 = record { bits = 40 * 2 ^ 22 + 0x3BCDEF }

target_v2-IsNormal : ScaleV2.IsNormal target_v2
unfolding bits22
target_v2-IsNormal = record { word = omega arith; leading = omega arith }

scale_v2_total_example :
    (t' : TargetV2) × (scale_v2 target_v2 90 100 ≡ some t')
    × ((t'.bits ≡ max_target_host) ⊎ (ScaleV2.IsNormal t' × (min_diff_exponent ≤ zeros10 t')))
scale_v2_total_example =
    ScaleV2.scale_v2_total target_v2 90 100 target_v2-IsNormal (omega arith) (omega arith)

scale_v2-at_max_example : scale_v2 (record { bits = max_target_host }) 90 100 ≡ none
scale_v2-at_max_example =
    scale_v2-at_max 90 100 (omega arith) (omega arith) (omega arith) (omega arith)

abbrev minimal_v2 : TargetV2
minimal_v2 = record { bits = 22 * 2 ^ 22 + 0x3FFFFF }

minimal_v2-IsNormal : ScaleV2.IsNormal minimal_v2
unfolding bits22
minimal_v2-IsNormal = record { word = omega arith; leading = omega arith }

scale_v2-below_min_example :
    (t' : TargetV2) × (scale_v2 minimal_v2 300 100 ≡ some t')
    × (zeros10 t' ≡ 88)
    × (bits22 t' ≡ 2 ^ 22 - 1)
unfolding zeros10
scale_v2-below_min_example =
    scale_v2-below_min minimal_v2 300 100 minimal_v2-IsNormal (omega arith) (omega arith) refl
      (omega arith)

abbrev hash_bytes : List ℕ
hash_bytes = 0 ∷ 0 ∷ replicate 30 171

fresh-IsNormal : Bounds.IsNormal fresh
unfolding fresh
fresh-IsNormal = record { started = inl refl; low = omega arith; high = omega arith }

digest_total_example :
    (d' : Digest) × (digest fresh hash_bytes ≡ some d')
    × Bounds.IsNormal d'
    × (0 < d'.neg_exp)
    × (fresh.neg_exp ≤ d'.neg_exp)
    × (d'.neg_exp ≤ fresh.neg_exp + 8 * length hash_bytes + 8)
unfolding fresh
digest_total_example = digest_total fresh hash_bytes fresh-IsNormal (omega arith) (omega arith)

abbrev work_a : Worksum
work_a = record { fragments = 4294967295 ∷ 4294967295 ∷ 1 ∷ replicate 5 0 }

abbrev work_b : Worksum
work_b = record { fragments = 2 ∷ 4294967295 ∷ 2 ∷ replicate 5 0 }

work_a-IsWorksum : IsWorksum work_a
work_a-IsWorksum = record { size = refl; words = omega arith }

work_b-IsWorksum : IsWorksum work_b
work_b-IsWorksum = record { size = refl; words = omega arith }

value-add_example :
    IsWorksum (work_a += work_b)
    × (value (work_a += work_b) ≡ (value work_a + value work_b) % 2 ^ 256)
value-add_example = value-add work_a work_b work_a-IsWorksum work_b-IsWorksum

value-mul_example : IsWorksum (work_a *= 77) × (value (work_a *= 77) ≡ value work_a * 77 % 2 ^ 256)
value-mul_example = value-mul work_a 77 work_a-IsWorksum (omega arith)

compare_values_example :
    (((work_a <w work_b) ≡ true) ↔ (value work_a < value work_b))
    × (((work_a >w work_b) ≡ true) ↔ (value work_b < value work_a))
    × (((work_a ≤w work_b) ≡ true) ↔ (value work_a ≤ value work_b))
    × (((work_a ≥w work_b) ≡ true) ↔ (value work_b ≤ value work_a))
    × (((work_a ==w work_b) ≡ true) ↔ (value work_a ≡ value work_b))
compare_values_example = compare_values work_a work_b work_a-IsWorksum work_b-IsWorksum

issued_lem_example : (s : ℕ) × (issued 10 ≡ some s) × (s ≤ max_supply)
issued_lem_example = issued_lem 10 (omega arith)

abbrev pin_nonce : PinNonce
pin_nonce = record { id = 9; relative_pin = 1; reserved = 0 ∷ 0 ∷ 0 ∷ [] }

pin_nonce_made : make_pin_nonce 9 100 64 ≡ some pin_nonce
unfolding make_pin_nonce
pin_nonce_made = refl

nonce_pin_height-make_pin_nonce_example :
    nonce_pin_height pin_nonce (pin_floor (difference 100 1)) ≡ some 64
unfolding is_pin_height
nonce_pin_height-make_pin_nonce_example =
    nonce_pin_height-make_pin_nonce 9 100 64 (omega arith) (omega arith) refl pin_nonce_made

abbrev body_bytes : List ℕ
body_bytes = replicate 10 0 ++ 0 ∷ 1 ∷ replicate 20 1 ++ replicate 16 2

-- A signature is a Boolean, and its 65 bytes are all 1 or all 0.
abbrev signature_bytes : Bool → List ℕ
signature_bytes s = replicate 65 (if s then 1 else 0)

abbrev signature_from : List ℕ → Option Bool
signature_from [] = none
signature_from (zero ∷ bs) = some false
signature_from (suc b ∷ bs) = some true

signature_from-bytes : (s : Bool) → signature_from (signature_bytes s) ≡ some s
signature_from-bytes true = refl
signature_from-bytes false = refl

abbrev payment : PaymentCreateMessage Bool
payment = record {
  pin_height = 64;
  nonce_id = 5;
  reserved = 0 ∷ 0 ∷ 0 ∷ [];
  compact_fee = 300;
  to_addr = replicate 20 7;
  amount = 100000000;
  signature = true;
}

payment_bytes_lem_example :
    (bytes : List ℕ) × (payment_bytes Bool signature_from signature_bytes payment ≡ some bytes)
    × (length bytes ≡ payment_size)
    × ((r : Reader)
        → read_payment Bool signature_from signature_bytes (bytes ++ r) ≡ some (payment, r))
unfolding is_pin_height
payment_bytes_lem_example =
    payment_bytes_lem Bool signature_from signature_bytes
      (λ s. length-replicate {A = ℕ} 65 (if s then 1 else 0)) signature_from-bytes payment
      (record {
        pin_range = omega arith;
        is_pin = refl;
        nonce_range = omega arith;
        three = refl;
        fee_range = omega arith;
        twenty = refl;
        amount_range = omega arith;
      })

-- An address and a reward, without transfers.
abbrev body_view : BodyView
body_view = record {
  bytes = body_bytes;
  n_addresses = 1;
  n_rewards = 1;
  n_transfers = 0;
  offset_addresses = 12;
  offset_rewards = 32;
  offset_transfers = 48;
}

body_parsed : parse_body body_bytes 5 true ≡ view body_view
unfolding parse_body is_new_structure new_structure skip uint16 read hton16 byte_swap16 from_bytes
    new_rewards new_transfers
body_parsed = refl

parse_body-IsLaidOut_example : IsLaidOut body_bytes body_view × (length body_bytes ≤ max_block_size)
parse_body-IsLaidOut_example = parse_body-IsLaidOut body_bytes 5 true body_parsed

-- In place of SHA256.
abbrev length_hash : List ℕ → List ℕ
length_hash l = length l ∷ l

merkle_root-tree_example :
    merkle_root length_hash body_view 5 true
    ≡ some (
        rooted length_hash 0
          (take (if is_new_structure 5 true then 10 else 4) body_view.bytes)
          (map length_hash (leaves body_view)))
merkle_root-tree_example =
    merkle_root-tree length_hash body_view 5 true 0 (omega arith) (omega arith)

abbrev scaled_v1 : TargetV1
scaled_v1 = record { bits = 681222077 }

scaled_v1_computed : scale_v1 target_v1 90 100 ≡ some scaled_v1
unfolding scale_v1
scaled_v1_computed = refl

abbrev scaled_v2 : TargetV2
scaled_v2 = record { bits = 171299568 }

scaled_v2_computed : scale_v2 target_v2 90 100 ≡ some scaled_v2
unfolding scale_v2
scaled_v2_computed = refl

scale_v1-threshold_example :
    ((2 * cap_factor 90 ≤ cap_factor 100)
      × (ScaleV1.threshold scaled_v1 * 2 ≡ ScaleV1.threshold target_v1))
    ⊎ ((2 * cap_factor 100 ≤ cap_factor 90)
        × (ScaleV1.threshold scaled_v1 ≡ ScaleV1.threshold target_v1 * 2))
    ⊎ ((cap_factor 100 < 2 * cap_factor 90)
        × (cap_factor 90 < 2 * cap_factor 100)
        × (ScaleV1.threshold scaled_v1 * cap_factor 100
            ≤ ScaleV1.threshold target_v1 * cap_factor 90)
        × (ScaleV1.threshold target_v1 * cap_factor 90
            < (ScaleV1.threshold scaled_v1 + ScaleV1.unit scaled_v1) * cap_factor 100))
unfolding zeros8
scale_v1-threshold_example =
    ScaleV1.scale_v1-threshold target_v1 90 100 target_v1-IsNormal (omega arith) (omega arith)
      (omega arith) (omega arith) scaled_v1_computed

scale_v2-threshold_example :
    ((2 * cap_factor 90 ≤ cap_factor 100)
      × (ScaleV2.threshold scaled_v2 * 2 ≡ ScaleV2.threshold target_v2))
    ⊎ ((2 * cap_factor 100 ≤ cap_factor 90)
        × (ScaleV2.threshold scaled_v2 ≡ ScaleV2.threshold target_v2 * 2))
    ⊎ ((cap_factor 100 < 2 * cap_factor 90)
        × (cap_factor 90 < 2 * cap_factor 100)
        × (ScaleV2.threshold scaled_v2 * cap_factor 100
            ≤ ScaleV2.threshold target_v2 * cap_factor 90)
        × (ScaleV2.threshold target_v2 * cap_factor 90
            < (ScaleV2.threshold scaled_v2 + ScaleV2.unit scaled_v2) * cap_factor 100))
unfolding zeros10
scale_v2-threshold_example =
    ScaleV2.scale_v2-threshold target_v2 90 100 target_v2-IsNormal (omega arith) (omega arith)
      (omega arith) (omega arith) scaled_v2_computed

value-from_target_v2_example :
    (w : Worksum) × (from_target_v2 target_v2 ≡ made w)
    × (value w ≡ 2 ^ 53 / bits22 target_v2 * 2 ^ zeros10 target_v2 / 2 ^ 31)
unfolding zeros10
value-from_target_v2_example = value-from_target_v2 target_v2 target_v2-IsNormal (omega arith)

abbrev hard_v2 : TargetV2
hard_v2 = record { bits = 300 * 2 ^ 22 + 0x3BCDEF }

from_target_v2_overrun_example : from_target_v2 hard_v2 ≡ overrun
unfolding zeros10 bits22
from_target_v2_overrun_example =
    from_target_v2_overrun hard_v2 (omega arith) (omega arith) (omega arith)
