-- ===== src/Base/Sort.antt =====
-- Sorting: a stable sort by a test for "comes after", which is what `Array.prototype.sort` does with
-- a comparator that is an order.
use mathlib.Core.Path.{◌≡◌, refl, ap, ◌∙◌}
use mathlib.Core.Logic.{◌↔◌, inl, inr}
use mathlib.Core.Bool.{Bool, true, false, not, ◌&&◌}
use mathlib.Core.List.{List, [], ◌∷◌, ◌++◌}
use nauts.Base.Tests.{if◌then◌else◌, Bool-cases}
use nauts.Base.Lists.{filter, In}

module _ {ℓ} {A : Type ℓ} (after : A → A → Bool) where
  unfoldable pub insert_by : A → List A → List A
  insert_by x [] = x ∷ []
  insert_by x (y ∷ ys) = let rest = insert_by x ys in if after x y then y ∷ rest else x ∷ y ∷ ys

  unfoldable pub sort_by : List A → List A
  sort_by [] = []
  sort_by (x ∷ xs) = insert_by x (sort_by xs)

module _ {A : Type 0} where
  In-swap : (a x y : A) (zs : List A) → In a (y ∷ x ∷ zs) → In a (x ∷ y ∷ zs)
  In-swap a x y zs (inl q) = inr (inl q)
  In-swap a x y zs (inr (inl q)) = inl q
  In-swap a x y zs (inr (inr m)) = inr (inr m)

  In-cons : (a y : A) (xs ys : List A) → (In a xs → In a ys) → In a (y ∷ xs) → In a (y ∷ ys)
  In-cons a y xs ys f (inl q) = inl q
  In-cons a y xs ys f (inr m) = inr (f m)

  module _ (after : A → A → Bool) where
    In-insert_by : (a x : A) (ys : List A) → In a (insert_by after x ys) ↔ In a (x ∷ ys)
    unfolding insert_by
    In-insert_by a x [] = (λ m. m, λ m. m)
    In-insert_by a x (y ∷ ys) =
        let w = In-insert_by a x ys in
        elim (Bool-cases (after x y)) [
          | inl e ↦ rw e (
            λ m. In-swap a x y ys (In-cons a y (insert_by after x ys) (x ∷ ys) w.0 m),
            λ m. In-cons a y (x ∷ ys) (insert_by after x ys) w.1 (In-swap a y x ys m),
          )
          | inr e ↦ rw e (λ m. m, λ m. m)
        ]

    -- Sorting keeps the members.
    pub In-sort_by : (a : A) (xs : List A) → In a (sort_by after xs) ↔ In a xs
    unfolding sort_by
    In-sort_by a [] = (λ m. m, λ m. m)
    In-sort_by a (x ∷ xs) =
        let v = In-sort_by a xs in
        let w = In-insert_by a x (sort_by after xs) in
        (
          λ m. In-cons a x (sort_by after xs) xs v.0 (w.0 m),
          λ m. w.1 (In-cons a x xs (sort_by after xs) v.1 m),
        )

module _ {ℓ} {A : Type ℓ} (late : A → Bool) where
  abbrev pub later : A → A → Bool
  later x y = late x && not (late y)

  -- An element that is not late goes to the front, a late one behind all that are not.
  insert_by-early : (x : A) (ys : List A) → late x ≡ false → insert_by later x ys ≡ x ∷ ys
  unfolding insert_by
  insert_by-early x [] h = refl
  insert_by-early x (y ∷ ys) h = rw h refl

  insert_by-late :
      (x : A) (ys zs : List A)
      → late x ≡ true
      → insert_by later x (filter (λ a. not (late a)) ys ++ filter late zs)
        ≡ filter (λ a. not (late a)) ys ++ (x ∷ filter late zs)
  unfolding insert_by filter
  insert_by-late x [] [] h = refl
  insert_by-late x [] (z ∷ zs) h = elim (Bool-cases (late z)) [
    | inl e ↦ rw e (rw h (rw e refl))
    | inr e ↦ rw e (insert_by-late x [] zs h)
  ]
  insert_by-late x (y ∷ ys) zs h = elim (Bool-cases (late y)) [
    | inl e ↦ rw e (insert_by-late x ys zs h)
    | inr e ↦ rw e (rw h (rw e (ap (λ l. y ∷ l) (insert_by-late x ys zs h))))
  ]

  -- Sorting by one test puts what fails it first, each part in its old order.
  pub sort_by-partition :
      (xs : List A) → sort_by later xs ≡ filter (λ a. not (late a)) xs ++ filter late xs
  unfolding sort_by
  sort_by-partition [] = unfold filter in refl
  sort_by-partition (x ∷ xs) = elim (Bool-cases (late x)) [
    | inl e ↦
        ap (insert_by later x) (sort_by-partition xs)
        ∙ insert_by-late x xs xs e
        ∙ unfold filter in rw e refl
    | inr e ↦
        ap (insert_by later x) (sort_by-partition xs)
        ∙ insert_by-early x _ e
        ∙ unfold filter in rw e refl
  ]
