-- ===== src/Chain/Height/Retarget.antt =====
-- Proofs on `retarget_floor` (src/shared/src/general/params.hpp).
use janusminer.Common.{ℕ, ◌≡◌, ◌<◌, ◌≤◌, true, arith}
use janusminer.Chain.Height.{retarget_floor, is_retarget_height}

-- For a retarget height k from 1 to h, the floor of h is positive, at most h, a retarget height,
-- and at least k.
pub retarget_floor_lem :
    (h k : ℕ)
    → 0 < k
    → k ≤ h
    → is_retarget_height k ≡ true
    → (0 < retarget_floor h)
      × (retarget_floor h ≤ h)
      × (is_retarget_height (retarget_floor h) ≡ true)
      × (k ≤ retarget_floor h)
unfolding retarget_floor is_retarget_height
retarget_floor_lem h k p q r = ground arith
