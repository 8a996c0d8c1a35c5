-- ===== src/PolicyDialog/Chips.antt =====
-- The lists of chips: values without repeats, and what pushing and removing does to them.
use nauts.Base.{
  ℕ, zero, suc, ◌≡◌, refl, sym, ap, ◌∙◌, inl, inr, Bool, List, [], ◌∷◌, ◌++◌, if_both, Bool-cases,
  filter, length, In, In-filter, In-append, All, arith,
}
use nauts.Base.Text.{Text}
use nauts.PolicyStore.{includes_text}
use nauts.PolicyStore.Queries.{includes_text_iff}
use nauts.PolicyDialog.{update_at, remove_at, push_new}

abbrev pub NoRepeats : List Text → Type 0
NoRepeats [] = Unit
NoRepeats (v ∷ values) = (¬ In v values) × NoRepeats values

NoRepeats-snoc :
    (v : Text) (values : List Text)
    → ¬ In v values
    → NoRepeats values
    → NoRepeats (values ++ (v ∷ []))
NoRepeats-snoc v [] h n = (λ m. m, tt)
NoRepeats-snoc v (x ∷ values) h (fresh, n) = (
  λ m. elim (In-append x values (v ∷ []) m) [
    | inl k ↦ fresh k
    | inr (inl q) ↦ h (inl (sym q))
    | inr (inr k) ↦ k
  ],
  NoRepeats-snoc v values (λ m. h (inr m)) n,
)

pub NoRepeats-push_new :
    (v : Text) (values : List Text) → NoRepeats values → NoRepeats (push_new v values)
unfolding push_new
NoRepeats-push_new v values n =
    if_both NoRepeats (includes_text v values) (λ h. n)
      (λ h. NoRepeats-snoc v values (λ m. cc (sym h ∙ (includes_text_iff v values).1 m)) n)

pub NoRepeats-filter :
    (p : Text → Bool) (values : List Text) → NoRepeats values → NoRepeats (filter p values)
unfolding filter
NoRepeats-filter p [] n = tt
NoRepeats-filter p (v ∷ values) (fresh, n) = elim (Bool-cases (p v)) [
  | inl e ↦ rw e (λ m. fresh (In-filter p values m).0, NoRepeats-filter p values n)
  | inr e ↦ rw e (NoRepeats-filter p values n)
]

module _ (P : Text → Type 0) where
  pub All-push_new :
      (v : Text) (values : List Text) → P v → All P values → All P (push_new v values)
  unfolding push_new
  All-push_new v values h a = if_both (All P) (includes_text v values) (λ h. a) (λ e. snoc values a)
    where
      snoc : (vs : List Text) → All P vs → All P (vs ++ (v ∷ []))
      snoc [] b = (h, tt)
      snoc (x ∷ vs) (p, b) = (p, snoc vs b)

  pub All-filter : (p : Text → Bool) (values : List Text) → All P values → All P (filter p values)
  unfolding filter
  All-filter p [] a = tt
  All-filter p (v ∷ values) (h, a) =
      if_both (All P) (p v) (λ e. (h, All-filter p values a)) (λ e. All-filter p values a)

module _ {ℓ} {A : Type ℓ} where
  pub length-update_at : (f : A → A) (i : ℕ) (xs : List A) → length (update_at f i xs) ≡ length xs
  unfolding update_at
  length-update_at f i [] = refl
  length-update_at f zero (x ∷ xs) = refl
  length-update_at f (suc i) (x ∷ xs) = ap suc (length-update_at f i xs)

  pub length-remove_at :
      {B : Type ℓ} (i : ℕ) (xs : List A) (ys : List B)
      → length xs ≡ length ys
      → length (remove_at i xs) ≡ length (remove_at i ys)
  unfolding remove_at
  length-remove_at i [] [] h = refl
  length-remove_at i [] (y ∷ ys) h = absurd (omega (arith, h))
  length-remove_at i (x ∷ xs) [] h = absurd (omega (arith, h))
  length-remove_at zero (x ∷ xs) (y ∷ ys) h = omega (arith, h)
  length-remove_at (suc i) (x ∷ xs) (y ∷ ys) h =
      ap suc (length-remove_at i xs ys (omega (arith, h)))

  module _ {κ} (P : A → Type κ) where
    pub All-update_at :
        (f : A → A) (i : ℕ) (xs : List A)
        → ((x : A) → P x → P (f x))
        → All P xs
        → All P (update_at f i xs)
    unfolding update_at
    All-update_at f i [] h a = tt
    All-update_at f zero (x ∷ xs) h (p, a) = (h x p, a)
    All-update_at f (suc i) (x ∷ xs) h (p, a) = (p, All-update_at f i xs h a)

    pub All-remove_at : (i : ℕ) (xs : List A) → All P xs → All P (remove_at i xs)
    unfolding remove_at
    All-remove_at i [] a = tt
    All-remove_at zero (x ∷ xs) (p, a) = a
    All-remove_at (suc i) (x ∷ xs) (p, a) = (p, All-remove_at i xs a)

    pub All-append : (xs ys : List A) → All P xs → All P ys → All P (xs ++ ys)
    All-append [] ys a b = b
    All-append (x ∷ xs) ys (p, a) b = (p, All-append xs ys a b)
