-- ===== src/Base/Tests.antt =====
-- Boolean tests, and splits on computed values that keep the equation.
use Prim.Native.Nat.{ℕ, compare, Ordering}
use mathlib.Core.Path.{◌≡◌, refl}
use mathlib.Core.Logic.{◌⊎◌, inl, inr, ◌↔◌}
use mathlib.Core.Bool.{Bool, true, false, not, ◌&&◌, ◌||◌}
use mathlib.Core.Option.{Option, none, some}
use native.Mathlib.Omega.{arith}

abbrev pub ltb : ℕ → ℕ → Bool
ltb a b = elim (compare a b) [ Ordering.lt ↦ true | _ ↦ false ]

abbrev pub leb : ℕ → ℕ → Bool
leb a b = elim (compare a b) [ Ordering.gt ↦ false | _ ↦ true ]

abbrev pub nat_eq : ℕ → ℕ → Bool
nat_eq a b = elim (compare a b) [ Ordering.eq ↦ true | _ ↦ false ]

infix 1 if◌then◌else◌
abbrev pub if◌then◌else◌ {ℓ} : {A : Type ℓ} → Bool → A → A → A
if true then x else y = x
if false then x else y = y

pub nat_eq_iff : (a b : ℕ) → (nat_eq a b ≡ true) ↔ (a ≡ b)
nat_eq_iff a b = (λ h. ground arith, λ h. ground arith)

pub nat_eq_refl : (a : ℕ) → nat_eq a a ≡ true
nat_eq_refl a = ground arith

pub Bool-cases : (b : Bool) → (b ≡ true) ⊎ (b ≡ false)
Bool-cases true = inl refl
Bool-cases false = inr refl

pub Option-cases {ℓ} : {A : Type ℓ} (o : Option A) → (o ≡ none) ⊎ ((a : A) × (o ≡ some a))
Option-cases none = inl refl
Option-cases (some a) = inr (a, refl)

abbrev pub is_some {ℓ} : {A : Type ℓ} → Option A → Bool
is_some none = false
is_some (some a) = true

pub is_some-false {ℓ} : {A : Type ℓ} (o : Option A) → is_some o ≡ false → o ≡ none
is_some-false none h = refl
is_some-false (some a) h = absurd (cc h)

-- What both branches of a test have, each knowing how the test came out.
pub if_both {ℓ κ} :
    {A : Type ℓ} (P : A → Type κ) (b : Bool) {x y : A}
    → (b ≡ true → P x)
    → (b ≡ false → P y)
    → P (if b then x else y)
if_both P true p q = p refl
if_both P false p q = q refl

-- Connectives of tests.
pub and_iff : (a b : Bool) → (a && b ≡ true) ↔ ((a ≡ true) × (b ≡ true))
and_iff true b = (λ h. (refl, h), λ h. h.1)
and_iff false b = (λ h. cc, λ h. h.0)

pub or_iff : (a b : Bool) → (a || b ≡ true) ↔ ((a ≡ true) ⊎ (b ≡ true))
or_iff true b = (λ h. inl refl, λ h. refl)
or_iff false b = (λ h. inr h, λ m. elim m [ inl h ↦ absurd (cc h) | inr h ↦ h ])

pub not_iff : (b : Bool) → (not b ≡ true) ↔ (b ≡ false)
not_iff true = (λ h. cc, λ h. cc)
not_iff false = (λ h. refl, λ h. refl)
