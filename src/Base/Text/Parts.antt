-- ===== src/Base/Text/Parts.antt =====
-- Single code units in a text, and the parts that `split` gives.
use Prim.Native.Nat.{ℕ, ◌+◌}
use mathlib.Core.Path.{◌≡◌, refl, sym, ap, ap₂, ◌∙◌}
use mathlib.Core.Logic.{◌≢◌, inl, inr}
use mathlib.Core.Bool.{Bool, false, ◌||◌}
use mathlib.Core.List.{List, [], ◌∷◌, ◌++◌}
use native.Mathlib.Omega.{arith}
use nauts.Base.Tests.{if◌then◌else◌, nat_eq, nat_eq_iff, nat_eq_refl, Bool-cases}
use nauts.Base.Lists.{All}
use nauts.Base.Text.Defs.{Text, starts_with, includes, split, push_front}

-- The text holds the code unit.
unfoldable pub has : ℕ → Text → Bool
has c [] = false
has c (d ∷ s) = nat_eq d c || has c s

pub has-nil : (c : ℕ) → has c [] ≡ false
unfolding has
has-nil c = refl

pub has-append : (c : ℕ) (s t : Text) → has c (s ++ t) ≡ (has c s || has c t)
unfolding has
has-append c [] t = refl
has-append c (d ∷ s) t = ground (arith, has-append c s t)

pub free-append :
    (c : ℕ) (s t : Text) → has c (s ++ t) ≡ false → (has c s ≡ false) × (has c t ≡ false)
free-append c s t h = ground (arith, has-append c s t)

pub append_free : (c : ℕ) (s t : Text) → has c s ≡ false → has c t ≡ false → has c (s ++ t) ≡ false
append_free c s t h k = ground (arith, has-append c s t)

free-tail : (c d : ℕ) (s : Text) → has c (d ∷ s) ≡ false → has c s ≡ false
unfolding has
free-tail c d s h = ground arith

-- `includes` of one code unit
pub includes-eq-has : (c : ℕ) (s : Text) → includes s (c ∷ []) ≡ has c s
unfolding includes starts_with has
includes-eq-has c [] = refl
includes-eq-has c (d ∷ []) = ground arith
includes-eq-has c (d ∷ e ∷ s) = ground (arith, includes-eq-has c (e ∷ s))

-- `parts.join(sep)`
unfoldable pub join : ℕ → List Text → Text
join sep [] = []
join sep (t ∷ []) = t
join sep (t ∷ u ∷ ts) = t ++ sep ∷ join sep (u ∷ ts)

push_front-ne-nil : (c : ℕ) (ts : List Text) → push_front c ts ≢ []
unfolding push_front
push_front-ne-nil c [] h = cc
push_front-ne-nil c (t ∷ ts) h = cc

pub split-ne-nil : (sep : ℕ) (s : Text) → split sep s ≢ []
unfolding split
split-ne-nil sep [] h = cc
split-ne-nil sep (c ∷ s) h = ground (arith, push_front-ne-nil c (split sep s))

pub split_free : (sep : ℕ) (s : Text) → has sep s ≡ false → split sep s ≡ s ∷ []
unfolding split push_front has
split_free sep [] h = refl
split_free sep (c ∷ s) h = ground (arith, split_free sep s)

pub split-append :
    (sep : ℕ) (s t : Text) → has sep s ≡ false → split sep (s ++ sep ∷ t) ≡ s ∷ split sep t
unfolding split push_front has
split-append sep [] t h = ground arith
split-append sep (c ∷ s) t h = ground (arith, split-append sep s t)

join-push_front : (sep c : ℕ) (ts : List Text) → join sep (push_front c ts) ≡ c ∷ join sep ts
unfolding join push_front
join-push_front sep c [] = refl
join-push_front sep c (t ∷ []) = refl
join-push_front sep c (t ∷ u ∷ ts) = refl

join-cons :
    (sep : ℕ) (t : Text) (ts : List Text) → ts ≢ [] → join sep (t ∷ ts) ≡ t ++ sep ∷ join sep ts
unfolding join
join-cons sep t [] h = absurd (h refl)
join-cons sep t (u ∷ ts) h = refl

-- Joining the parts gives the text back.
pub join-split : (sep : ℕ) (s : Text) → join sep (split sep s) ≡ s
unfolding split
join-split sep [] = unfold join in refl
join-split sep (c ∷ s) = elim (Bool-cases (nat_eq c sep)) [
  | inl e ↦ rw e (
      join-cons sep [] (split sep s) (split-ne-nil sep s)
      ∙ ap₂ (λ d t. d ∷ t) (sym ((nat_eq_iff c sep).0 e)) (join-split sep s))
  | inr e ↦ rw e (join-push_front sep c (split sep s) ∙ ap (λ t. c ∷ t) (join-split sep s))
]

push_front-All_free :
    (sep c : ℕ) (ts : List Text)
    → nat_eq c sep ≡ false
    → All (λ t. has sep t ≡ false) ts
    → All (λ t. has sep t ≡ false) (push_front c ts)
unfolding push_front has
push_front-All_free sep c [] e h = (ground arith, tt)
push_front-All_free sep c (t ∷ ts) e (f, h) = (ground arith, h)

-- No part holds the separator.
pub split-All_free : (sep : ℕ) (s : Text) → All (λ t. has sep t ≡ false) (split sep s)
unfolding split
split-All_free sep [] = (has-nil sep, tt)
split-All_free sep (c ∷ s) = elim (Bool-cases (nat_eq c sep)) [
  | inl e ↦ rw e (has-nil sep, split-All_free sep s)
  | inr e ↦ rw e (push_front-All_free sep c (split sep s) e (split-All_free sep s))
]

-- How often the code unit stands in the text.
unfoldable pub count : ℕ → Text → ℕ
count c [] = 0
count c (d ∷ s) = (if nat_eq d c then 1 else 0) + count c s

pub count-cons_self : (c : ℕ) (s : Text) → count c (c ∷ s) ≡ 1 + count c s
unfolding count
count-cons_self c s = ground (arith, nat_eq_refl c)

pub count-append : (c : ℕ) (s t : Text) → count c (s ++ t) ≡ count c s + count c t
unfolding count
count-append c [] t = omega arith
count-append c (d ∷ s) t = omega (arith, count-append c s t)

pub count_free : (c : ℕ) (s : Text) → has c s ≡ false → count c s ≡ 0
unfolding count has
count_free c [] h = refl
count_free c (d ∷ s) h = ground (arith, count_free c s)

pub free_of_count : (c : ℕ) (s : Text) → count c s ≡ 0 → has c s ≡ false
unfolding count has
free_of_count c [] h = refl
free_of_count c (d ∷ s) h = ground (arith, free_of_count c s)

-- Two ways to cut a text at a first separator are one.
pub first_part :
    (c : ℕ) (s t u v : Text)
    → has c s ≡ false
    → has c t ≡ false
    → s ++ c ∷ u ≡ t ++ c ∷ v
    → (s ≡ t) × (u ≡ v)
unfolding has
first_part c [] [] u v f g e = (refl, cc e)
first_part c [] (d ∷ t) u v f g e = absurd (ground arith)
first_part c (d ∷ s) [] u v f g e = absurd (ground arith)
first_part c (d ∷ s) (x ∷ t) u v f g e =
    let ih = first_part c s t u v (ground arith) (ground arith) (cc e) in ground arith

push_front-append :
    (c : ℕ) (ts us : List Text) → ts ≢ [] → push_front c (ts ++ us) ≡ push_front c ts ++ us
unfolding push_front
push_front-append c [] us h = absurd (h refl)
push_front-append c (t ∷ ts) us h = refl

-- The parts of two texts with the separator between them.
pub split-append_sep :
    (sep : ℕ) (s t : Text) → split sep (s ++ sep ∷ t) ≡ split sep s ++ split sep t
unfolding split
split-append_sep sep [] t = rw (nat_eq_refl sep)
split-append_sep sep (c ∷ s) t = elim (Bool-cases (nat_eq c sep)) [
  | inl e ↦ rw e (ap (λ ts. [] ∷ ts) (split-append_sep sep s t))
  | inr e ↦ rw e (
      ap (push_front c) (split-append_sep sep s t)
      ∙ push_front-append c (split sep s) (split sep t) (split-ne-nil sep s))
]

-- What the whole does not hold, no part holds.
pub join-All_free :
    (sep c : ℕ) (ts : List Text) → has c (join sep ts) ≡ false → All (λ t. has c t ≡ false) ts
join-All_free sep c [] h = tt
join-All_free sep c (t ∷ []) h = (unfold join in h, tt)
join-All_free sep c (t ∷ u ∷ ts) h =
    let e : has c (t ++ sep ∷ join sep (u ∷ ts)) ≡ false = unfold join in h in
    let (f, g) = free-append c t (sep ∷ join sep (u ∷ ts)) e in
    (f, join-All_free sep c (u ∷ ts) (free-tail c sep (join sep (u ∷ ts)) g))
