-- ===== src/Base/Lists.antt =====
-- Lists over the native numbers, with Boolean tests.
use Prim.Native.Nat.{ℕ, zero, suc, ◌+◌}
use mathlib.Core.Path.{◌≡◌, refl, sym, ap, ◌∙◌}
use mathlib.Core.Logic.{◌⊎◌, inl, inr}
use mathlib.Core.Bool.{Bool, true, false, ◌&&◌, ◌||◌}
use mathlib.Core.Option.{Option, none, some}
use mathlib.Core.List.{List, [], ◌∷◌, ◌++◌}
use native.Mathlib.Omega.{arith}
use nauts.Base.Tests.{if◌then◌else◌, Bool-cases}

module _ {ℓ} {A : Type ℓ} where
  abbrev pub length : List A → ℕ
  length [] = 0
  length (x ∷ xs) = suc (length xs)

  abbrev pub drop : ℕ → List A → List A
  drop zero xs = xs
  drop (suc n) [] = []
  drop (suc n) (x ∷ xs) = drop n xs

  abbrev pub get_elem? : List A → ℕ → Option A
  get_elem? [] i = none
  get_elem? (x ∷ xs) zero = some x
  get_elem? (x ∷ xs) (suc i) = get_elem? xs i

  abbrev pub is_nonempty : List A → Bool
  is_nonempty [] = false
  is_nonempty (x ∷ xs) = true

  -- `xs.filter(p)`
  unfoldable pub filter : (A → Bool) → List A → List A
  filter p [] = []
  filter p (x ∷ xs) = let rest = filter p xs in if p x then x ∷ rest else rest

  -- `xs.find(p)`
  unfoldable pub find : (A → Bool) → List A → Option A
  find p [] = none
  find p (x ∷ xs) = if p x then some x else find p xs

  -- `xs.some(p)` and `xs.every(p)`
  unfoldable pub any : (A → Bool) → List A → Bool
  any p [] = false
  any p (x ∷ xs) = p x || any p xs

  unfoldable pub all : (A → Bool) → List A → Bool
  all p [] = true
  all p (x ∷ xs) = p x && all p xs

  pub length-append : (xs ys : List A) → length (xs ++ ys) ≡ length xs + length ys
  length-append [] ys = omega arith
  length-append (x ∷ xs) ys = omega (arith, length-append xs ys)

  pub drop-append : (xs ys : List A) → drop (length xs) (xs ++ ys) ≡ ys
  drop-append [] ys = refl
  drop-append (x ∷ xs) ys = drop-append xs ys

  pub filter-append :
      (p : A → Bool) (xs ys : List A) → filter p (xs ++ ys) ≡ filter p xs ++ filter p ys
  unfolding filter
  filter-append p [] ys = refl
  filter-append p (x ∷ xs) ys = ground (arith, filter-append p xs ys)

  pub filter-true : (p : A → Bool) (xs : List A) → all p xs ≡ true → filter p xs ≡ xs
  unfolding filter all
  filter-true p [] h = refl
  filter-true p (x ∷ xs) h = ground (arith, filter-true p xs)

abbrev pub All {ℓ κ} : {A : Type ℓ} → (A → Type κ) → List A → Type κ
All P [] = Unit
All P (x ∷ xs) = P x × All P xs

-- Membership by recursion, which the tactics take apart. It stands in the universe of `⊥`.
module _ {A : Type 0} where
  abbrev pub In : A → List A → Type 0
  In a [] = ⊥
  In a (x ∷ xs) = (a ≡ x) ⊎ In a xs

  -- What a filtered list holds.
  pub In-filter : (p : A → Bool) (xs : List A) {a : A} → In a (filter p xs) → In a xs × (p a ≡ true)
  unfolding filter
  In-filter p [] m = absurd m
  In-filter p (x ∷ xs) {a} m = elim (Bool-cases (p x)) [
    | inl e ↦ elim (rw e at m) as (λ _. In a (x ∷ xs) × (p a ≡ true)) [
      | inl q ↦ (inl q, ap p q ∙ e)
      | inr n ↦ let (k, h) = In-filter p xs n in (inr k, h)
    ]
    | inr e ↦ let (n, h) = In-filter p xs (rw (e) at m) in (inr n, h)
  ]

  pub filter-In : (p : A → Bool) (xs : List A) {a : A} → In a xs → p a ≡ true → In a (filter p xs)
  unfolding filter
  filter-In p [] m h = absurd m
  filter-In p (x ∷ xs) (inl q) h = rw (ap p (sym q) ∙ h) (inl q)
  filter-In p (x ∷ xs) (inr m) h = elim (Bool-cases (p x)) [
    | inl e ↦ rw e (inr (filter-In p xs m h))
    | inr e ↦ rw e (filter-In p xs m h)
  ]

  pub find-eq-some :
      (p : A → Bool) (xs : List A) (a : A) → find p xs ≡ some a → In a xs × (p a ≡ true)
  unfolding find
  find-eq-some p [] a h = cc
  find-eq-some p (x ∷ xs) a h = ground (arith, find-eq-some p xs a)

  pub find-eq-none : (p : A → Bool) (xs : List A) (a : A) → find p xs ≡ none → In a xs → p a ≡ false
  unfolding find
  find-eq-none p [] a h m = absurd m
  find-eq-none p (x ∷ xs) a h (inl q) = ground arith
  find-eq-none p (x ∷ xs) a h (inr m) = ground (arith, find-eq-none p xs a)

  -- What a concatenation holds.
  pub In-append : (a : A) (xs ys : List A) → In a (xs ++ ys) → In a xs ⊎ In a ys
  In-append a [] ys m = inr m
  In-append a (x ∷ xs) ys (inl q) = inl (inl q)
  In-append a (x ∷ xs) ys (inr m) = elim (In-append a xs ys m) [
    | inl n ↦ inl (inr n)
    | inr n ↦ inr n
  ]

  pub append-In : (a : A) (xs ys : List A) → In a xs ⊎ In a ys → In a (xs ++ ys)
  append-In a [] ys (inl m) = absurd m
  append-In a [] ys (inr m) = m
  append-In a (x ∷ xs) ys (inl (inl q)) = inl q
  append-In a (x ∷ xs) ys (inl (inr m)) = inr (append-In a xs ys (inl m))
  append-In a (x ∷ xs) ys (inr m) = inr (append-In a xs ys (inr m))
