-- ===== src/Common/Tests.antt =====
-- Boolean tests on the native numbers, the conditional, and case splits that keep an equation.
use Prim.Native.Nat.{ℕ, compare, Ordering}
use mathlib.Core.Path.{◌≡◌, refl, sym, ap, subst}
use mathlib.Core.Logic.{◌↔◌, ◌⊎◌, inl, inr}
use mathlib.Core.Bool.{Bool, true, false}
use mathlib.Core.Option.{Option, none, some}
use native.Mathlib.Omega.{arith}

abbrev pub ltb : ℕ → ℕ → Bool
ltb a b = elim (compare a b) [ Ordering.lt ↦ true | _ ↦ false ]

abbrev pub leb : ℕ → ℕ → Bool
leb a b = elim (compare a b) [ Ordering.gt ↦ false | _ ↦ true ]

infix 50 ◌==◌
abbrev pub ◌==◌ : ℕ → ℕ → Bool
a == b = elim (compare a b) [ Ordering.eq ↦ true | _ ↦ false ]

infix 1 if◌then◌else◌
abbrev pub if◌then◌else◌ {ℓ} : {A : Type ℓ} → Bool → A → A → A
if true then x else y = x
if false then x else y = y

pub ==_iff : (a b : ℕ) → ((a == b) ≡ true) ↔ (a ≡ b)
==_iff a b = ground arith

pub Bool-cases : (b : Bool) → (b ≡ true) ⊎ (b ≡ false)
Bool-cases true = inl refl
Bool-cases false = inr refl

pub Option-cases {ℓ} : {A : Type ℓ} (o : Option A) → (o ≡ none) ⊎ ((a : A) × (o ≡ some a))
Option-cases none = inl refl
Option-cases (some a) = inr (a, refl)

-- `optional` values in sequence, and a failed `assert` or an exception as `none`.
infixl 5 ◌>>=◌ ◌>>◌
abbrev pub ◌>>=◌ {ℓ κ} : {A : Type ℓ} {B : Type κ} → Option A → (A → Option B) → Option B
none >>= f = none
some a >>= f = f a

abbrev pub ◌>>◌ {ℓ} : {B : Type ℓ} → Option (Unit {0}) → Option B → Option B
m >> k = m >>= λ _. k

abbrev pub guard : Bool → Option (Unit {0})
guard true = some tt
guard false = none

abbrev from_some {ℓ} : {A : Type ℓ} → A → Option A → A
from_some d none = d
from_some d (some a) = a

-- `o` returns a value, and `P` holds of it.
abbrev pub Returns {ℓ κ} : {A : Type ℓ} → (A → Type κ) → Option A → Type (ℓ ⊔ κ)
Returns {A} P o = (a : A) × (o ≡ some a) × P a

pub bind-Returns {ℓ κ μ ν} :
    {A : Type ℓ} {B : Type κ} {P : A → Type μ} {Q : B → Type ν}
    → (o : Option A) (f : A → Option B) → Returns P o
    → ((a : A) → P a → Returns Q (f a))
    → Returns Q (o >>= f)
bind-Returns none f (a, eq, p) k = absurd cc
bind-Returns {P} (some a') f (a, eq, p) k = k a' (subst P (ap (λ o. from_some a' o) (sym eq)) p)

pub guard-Returns {ℓ κ} :
    {A : Type ℓ} {P : A → Type κ} {b : Bool}
    → (o : Option A) → b ≡ true
    → Returns P o
    → Returns P (guard b >> o)
guard-Returns {P} {b} o h r = rw h r

pub if-Returns {ℓ κ} :
    {A : Type ℓ} {P : A → Type κ} (b : Bool) (x y : Option A)
    → (b ≡ true → Returns P x)
    → (b ≡ false → Returns P y)
    → Returns P (if b then x else y)
if-Returns true x y f g = f refl
if-Returns false x y f g = g refl

-- A sequence that returns went through each of its steps.
pub bind_inv {ℓ κ} :
    {A : Type ℓ} {B : Type κ} (o : Option A) (f : A → Option B) (b : B)
    → (o >>= f) ≡ some b
    → (a : A) × (o ≡ some a) × (f a ≡ some b)
bind_inv none f b h = absurd cc
bind_inv (some a) f b h = (a, refl, h)

pub guard_inv {ℓ} :
    {A : Type ℓ} (t : Bool) (o : Option A) (a : A)
    → (guard t >> o) ≡ some a
    → (t ≡ true) × (o ≡ some a)
guard_inv true o a h = (refl, h)
guard_inv false o a h = absurd cc
