-- ===== src/Chain/Body/Layout.antt =====
-- Proofs on the constructor of `BodyView` (src/shared/src/block/body/view.cpp).
use janusminer.Common.{ℕ, ◌+◌, ◌-◌, ◌*◌, ◌≡◌, ◌≤◌, inl, inr, arith, refl, Bool-cases, ==_iff}
use janusminer.Common.{Bool, true, false, Option, none, some, List, length}
use janusminer.Common.{ltb, ◌==◌, if◌then◌else◌}
use janusminer.General.Reader.{Reader, skip, uint16, uint32}
use janusminer.General.Reader.Laws.{skip_moves, uint16_moves, uint32_moves}
use janusminer.Chain.Body.{
  BodyView, Parsed, view, invalid, or_malformed, is_new_structure, parse_body,
}
use janusminer.Chain.Body.{
  new_structure, new_rewards, new_transfers, old_structure, old_rewards, old_transfers,
}
use janusminer.Chain.Body.{address_size, reward_size, transfer_size, max_block_size}

pub record IsLaidOut (s : List ℕ) (b : BodyView) : Type 0 where
  pub same : b.bytes ≡ s
  pub addresses : b.offset_addresses + b.n_addresses * address_size ≤ b.offset_rewards
  pub rewards : b.offset_rewards + b.n_rewards * reward_size ≤ b.offset_transfers
  pub transfers : b.offset_transfers + b.n_transfers * transfer_size ≡ length s

or_malformed-view {ℓ} :
    {A : Type ℓ} (o : Option A) (f : A → Parsed) {b : BodyView}
    → or_malformed o f ≡ view b
    → (a : A) × (o ≡ some a) × (f a ≡ view b)
or_malformed-view none f e = cc
or_malformed-view (some a) f e = (a, refl, e)

valid-if :
    (c : Bool) (p : Parsed) {b : BodyView}
    → (if c then p else invalid) ≡ view b
    → (c ≡ true) × (p ≡ view b)
valid-if true p e = (refl, e)
valid-if false p e = cc

invalid-if :
    (c : Bool) (p : Parsed) {b : BodyView}
    → (if c then invalid else p) ≡ view b
    → (c ≡ false) × (p ≡ view b)
invalid-if true p e = cc
invalid-if false p e = (refl, e)

view-injective : {a b : BodyView} → view a ≡ view b → a ≡ b
view-injective e = cc

old_transfers_lem :
    (s : List ℕ) (na oa nw ow : ℕ) (r : Reader) {b : BodyView}
    → oa + na * address_size ≤ ow
    → ow + nw * reward_size + length r ≡ length s
    → old_transfers s na oa nw ow r ≡ view b
    → IsLaidOut s b
unfolding old_transfers
old_transfers_lem s na oa nw ow r h1 h2 e =
    let (p, e1, e2) = or_malformed-view (uint32 r) _ e in
    let (c, e3) = valid-if (length p.1 == transfer_size * p.0) _ e2 in
    let l = uint32_moves r e1 in
    let n = (==_iff (length p.1) (transfer_size * p.0)).0 c in
    rw (← view-injective e3) (record {
      same = refl;
      addresses = h1;
      rewards = omega (arith, l, n);
      transfers = omega (arith, l, n);
    })

old_rewards_lem :
    (s : List ℕ) (na oa : ℕ) (r : Reader) {b : BodyView}
    → oa + na * address_size + length r ≡ length s
    → old_rewards s na oa r ≡ view b
    → IsLaidOut s b
unfolding old_rewards
old_rewards_lem s na oa r h e =
    let (p, e1, e2) = or_malformed-view (uint16 r) _ e in
    let (c, e3) = invalid-if (ltb (length p.1) (reward_size * p.0 + 4)) _ e2 in
    let (r2, e4, e5) = or_malformed-view (skip (16 * p.0) p.1) _ e3 in
    let l1 = uint16_moves r e1 in
    let l2 = skip_moves (16 * p.0) p.1 e4 in
    old_transfers_lem s na oa p.0 (length s - length p.1) r2 (omega (arith, l1))
      (omega (arith, l1, l2)) e5

old_structure_lem : (s : List ℕ) {b : BodyView} → old_structure s ≡ view b → IsLaidOut s b
unfolding old_structure
old_structure_lem s e =
    let (c, e0) = invalid-if (ltb (length s) 8) _ e in
    let (r, e1, e2) = or_malformed-view (skip 4 s) _ e0 in
    let (p, e3, e4) = or_malformed-view (uint32 r) _ e2 in
    let (d, e5) = invalid-if (ltb (length p.1) (p.0 * address_size + 4)) _ e4 in
    let (r2, e6, e7) = or_malformed-view (skip (p.0 * address_size) p.1) _ e5 in
    let l1 = skip_moves 4 s e1 in
    let l2 = uint32_moves r e3 in
    let l3 = skip_moves (p.0 * address_size) p.1 e6 in
    old_rewards_lem s p.0 (length s - length p.1) r2 (omega (arith, l1, l2, l3)) e7

new_transfers_lem :
    (s : List ℕ) (na oa ow : ℕ) (r : Reader) {b : BodyView}
    → oa + na * address_size ≤ ow
    → ow + reward_size + length r ≡ length s
    → new_transfers s na oa ow r ≡ view b
    → IsLaidOut s b
unfolding new_transfers
new_transfers_lem s na oa ow r h1 h2 e = elim (Bool-cases (length r == 0)) [
  | inl z ↦
      let n = (==_iff (length r) 0).0 z in
      rw (← view-injective (rw z at e)) (record {
        same = refl;
        addresses = h1;
        rewards = omega (arith, n);
        transfers = omega (arith, n);
      })
  | inr nz ↦
      let (p, e1, e2) = or_malformed-view (uint32 r) _ (rw nz at e) in
      let (c, e3) = valid-if (length p.1 == transfer_size * p.0) _ e2 in
      let l = uint32_moves r e1 in
      let n = (==_iff (length p.1) (transfer_size * p.0)).0 c in
      rw (← view-injective e3) (record {
        same = refl;
        addresses = h1;
        rewards = omega (arith, l, n);
        transfers = omega (arith, l, n);
      })
]

new_rewards_lem :
    (s : List ℕ) (na oa : ℕ) (r : Reader) {b : BodyView}
    → oa + na * address_size + length r ≡ length s
    → new_rewards s na oa r ≡ view b
    → IsLaidOut s b
unfolding new_rewards
new_rewards_lem s na oa r h e =
    let (c, e1) = invalid-if (ltb (length r) reward_size) _ e in
    let (r2, e2, e3) = or_malformed-view (skip 16 r) _ e1 in
    let l = skip_moves 16 r e2 in
    new_transfers_lem s na oa (length s - length r) r2 (omega (arith, l)) (omega (arith, l)) e3

new_structure_lem : (s : List ℕ) {b : BodyView} → new_structure s ≡ view b → IsLaidOut s b
unfolding new_structure
new_structure_lem s e =
    let (r, e1, e2) = or_malformed-view (skip 10 s) _ e in
    let (p, e3, e4) = or_malformed-view (uint16 r) _ e2 in
    let (d, e5) = invalid-if (ltb (length p.1) (p.0 * address_size)) _ e4 in
    let (r2, e6, e7) = or_malformed-view (skip (p.0 * address_size) p.1) _ e5 in
    let l1 = skip_moves 10 s e1 in
    let l2 = uint16_moves r e3 in
    let l3 = skip_moves (p.0 * address_size) p.1 e6 in
    new_rewards_lem s p.0 (length s - length p.1) r2 (omega (arith, l1, l2, l3)) e7

-- Of a body that is valid, in either structure, the sections of addresses, rewards and transfers
-- stand in this order, apart from one another, the last ends with the body, and the body has at
-- most the maximal size.
pub parse_body-IsLaidOut :
    (s : List ℕ) (h : ℕ) (testnet : Bool) {b : BodyView}
    → parse_body s h testnet ≡ view b
    → IsLaidOut s b × (length s ≤ max_block_size)
unfolding parse_body
parse_body-IsLaidOut s h testnet e =
    let (c, e1) = invalid-if (ltb max_block_size (length s)) _ e in
    (by_structure (is_new_structure h testnet) e1, ground arith)
  where
    by_structure :
        (n : Bool) {b : BodyView}
        → (if n then new_structure s else old_structure s) ≡ view b
        → IsLaidOut s b
    by_structure true e = new_structure_lem s e
    by_structure false e = old_structure_lem s e
