-- ===== src/Chain/Worksum.antt =====
-- src/shared/src/block/chain/worksum.{hpp,cpp}: 256-bit numbers of eight 32-bit fragments, the
-- lowest first.
pub mod Value
pub mod Arithmetic
pub mod Order
pub mod FromTarget
pub mod Bytes
use janusminer.Common.{ℕ, zero, suc, ◌+◌, ◌-◌, ◌*◌, ◌/◌, ◌%◌, ◌^◌, ◌≡◌, ◌<◌}
use janusminer.Common.{Bool, true, false, not, ◌||◌, Option, none, some, List, [], ◌∷◌}
use janusminer.Common.{u32, u64, length, All, ltb, leb, ◌==◌, if◌then◌else◌, replicate, map}

pub record Worksum : Type 0 where
  pub fragments : List ℕ

abbrev pub elements : ℕ
elements = 8

-- What the C++ type gives: an array of eight `uint32_t`.
pub record IsWorksum (w : Worksum) : Type 0 where
  pub size : length w.fragments ≡ elements
  pub words : All (λ f. f < u32) w.fragments

unfoldable pub max_worksum : Worksum
max_worksum = record { fragments = replicate elements (u32 - 1) }

-- `Worksum()` and `setzero`.
unfoldable pub zero_worksum : Worksum
zero_worksum = record { fragments = replicate elements 0 }

-- The loops over `i`, with the `uint64_t carry`. Each `n` is reduced as a `uint64_t`.
pub add_loop : ℕ → List ℕ → List ℕ → List ℕ
add_loop carry (f ∷ fs) (w ∷ ws) =
    let n = (carry + f + w) % u64 in (n % u32) ∷ add_loop (n / 2 ^ 32) fs ws
add_loop carry fs _ = fs

pub sub_loop : ℕ → List ℕ → List ℕ → List ℕ
sub_loop carry (f ∷ fs) (w ∷ ws) =
    let carry' = (carry + w) % u64 in
    ((f + u64 - carry') % u64 % u32) ∷ sub_loop (if leb carry' f then 0 else 1) fs ws
sub_loop carry fs _ = fs

pub mul_loop : ℕ → ℕ → List ℕ → List ℕ
mul_loop factor carry [] = []
mul_loop factor carry (f ∷ fs) =
    let n = (carry + f * factor % u64) % u64 in (n % u32) ∷ mul_loop factor (n / 2 ^ 32) fs

infixl 65 ◌+=◌ ◌-=◌
infixl 70 ◌*=◌
unfoldable pub ◌+=◌ : Worksum → Worksum → Worksum
a += w = record { fragments = add_loop 0 a.fragments w.fragments }

unfoldable pub ◌-=◌ : Worksum → Worksum → Worksum
a -= w = record { fragments = sub_loop 0 a.fragments w.fragments }

unfoldable pub ◌*=◌ : Worksum → ℕ → Worksum
a *= factor = record { fragments = mul_loop factor 0 a.fragments }

-- The comparison at the highest fragment that differs; `none` if none does. The tail is compared
-- first, as the loop counts `j` down.
pub first_difference : List ℕ → List ℕ → Option Bool
first_difference (f ∷ fs) (w ∷ ws) = elim (first_difference fs ws) [
  | some b ↦ some b
  | none ↦ if f == w then none else some (ltb f w)
]
first_difference _ _ = none

infix 50 ◌<w◌ ◌>w◌ ◌≤w◌ ◌≥w◌ ◌==w◌
unfoldable pub ◌<w◌ : Worksum → Worksum → Bool
a <w b = elim (first_difference a.fragments b.fragments) [ some r ↦ r | none ↦ false ]

unfoldable pub same_fragments : List ℕ → List ℕ → Bool
same_fragments (f ∷ fs) (w ∷ ws) = elim (f == w) [ true ↦ same_fragments fs ws | false ↦ false ]
same_fragments [] [] = true
same_fragments _ _ = false

unfoldable pub ◌==w◌ : Worksum → Worksum → Bool
unfolding same_fragments
a ==w b = same_fragments a.fragments b.fragments

unfoldable pub ◌>w◌ : Worksum → Worksum → Bool
unfolding ◌<w◌
a >w b = b <w a

unfoldable pub ◌≤w◌ : Worksum → Worksum → Bool
unfolding ◌>w◌
a ≤w b = not (a >w b)

unfoldable pub ◌≥w◌ : Worksum → Worksum → Bool
unfolding ◌>w◌ ◌==w◌
a ≥w b = (a >w b) || (a ==w b)

unfoldable pub is_zero : Worksum → Bool
unfolding ◌==w◌ zero_worksum
is_zero a = a ==w zero_worksum
