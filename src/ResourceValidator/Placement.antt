-- ===== src/ResourceValidator/Placement.antt =====
-- Where the wildcard ">" can stand: the loop over the tokens accepts a text exactly when ">" does
-- not occur, or is the whole text, or ends it behind a dot and occurs nowhere else.
use nauts.Base.{
  ℕ, ◌+◌, ◌-◌, ◌≡◌, ◌↔◌, ◌⊎◌, inl, inr, refl, sym, ap, subst, ◌∙◌, true, false, none, List, [], ◌∷◌,
  ◌++◌, nat_eq, length, arith, append_assoc, All,
}
use nauts.Base.Text.{
  Text, codes, eq_iff, includes-eq-has, has, append_free, join-All_free, split-append_sep,
  push_front, has-nil, split, join, join-split,
}
use nauts.ResourceValidator.{check_tokens, validate_gt_placement}

-- ">" occurs only as the last token.
abbrev pub IsTerminal : Text → Type 0
IsTerminal v =
    (has b'>' v ≡ false)
    ⊎ (v ≡ codes ">")
    ⊎ ((p : Text) × (v ≡ p ++ codes ".>") × (has b'>' p ≡ false))

-- What the loop accepts.
abbrev GoodTokens : List Text → Type 0
GoodTokens [] = Unit
GoodTokens (t ∷ []) = (has b'>' t ≡ false) ⊎ (t ≡ codes ">")
GoodTokens (t ∷ u ∷ ts) = (has b'>' t ≡ false) × GoodTokens (u ∷ ts)

gt_token : (t : Text) → t ≡ codes ">" → has b'>' t ≡ true
unfolding has
gt_token t e = rw e

-- One round of the loop, before the last token.
check_tokens_inner :
    (i n : ℕ) (t : Text) (ts : List Text)
    → nat_eq i (n - 1) ≡ false
    → check_tokens i n (t ∷ ts) ≡ none
    → (has b'>' t ≡ false) × (check_tokens (i + 1) n ts ≡ none)
unfolding check_tokens
check_tokens_inner i n t ts e h = ground (arith, eq_iff t (codes ">"), includes-eq-has b'>' t)

check_tokens_skip :
    (i n : ℕ) (t : Text) (ts : List Text)
    → has b'>' t ≡ false
    → check_tokens i n (t ∷ ts) ≡ check_tokens (i + 1) n ts
unfolding check_tokens
check_tokens_skip i n t ts f =
    ground (arith, eq_iff t (codes ">"), includes-eq-has b'>' t, gt_token t)

check_tokens_sound :
    (i n : ℕ) (ts : List Text) → n ≡ i + length ts → check_tokens i n ts ≡ none → GoodTokens ts
check_tokens_sound i n [] e h = tt
check_tokens_sound i n (t ∷ []) e h =
    unfold check_tokens in ground (arith, eq_iff t (codes ">"), includes-eq-has b'>' t)
check_tokens_sound i n (t ∷ u ∷ ts) e h =
    let (f, g) = check_tokens_inner i n t (u ∷ ts) (ground arith) h in
    (f, check_tokens_sound (i + 1) n (u ∷ ts) (omega arith) g)

check_tokens_complete :
    (i n : ℕ) (ts : List Text) → n ≡ i + length ts → GoodTokens ts → check_tokens i n ts ≡ none
check_tokens_complete i n [] e h = unfold check_tokens in refl
check_tokens_complete i n (t ∷ []) e h =
    unfold check_tokens in ground (arith, eq_iff t (codes ">"), includes-eq-has b'>' t)
check_tokens_complete i n (t ∷ u ∷ ts) e (f, h) =
    check_tokens_skip i n t (u ∷ ts) f ∙ check_tokens_complete (i + 1) n (u ∷ ts) (omega arith) h

dotted : (v : Text) → has b'>' v ≡ false → has b'>' (b'.' ∷ v) ≡ false
unfolding has
dotted v f = f

extend : (t v : Text) → has b'>' t ≡ false → IsTerminal v → IsTerminal (t ++ b'.' ∷ v)
extend t v f (inl g) = inl (append_free b'>' t (b'.' ∷ v) f (dotted v g))
extend t v f (inr (inl e)) = inr (inr (t, ap (λ w. t ++ b'.' ∷ w) e, f))
extend t v f (inr (inr (p, e, g))) = inr (
    inr (
      t ++ b'.' ∷ p,
      ap (λ w. t ++ b'.' ∷ w) e ∙ sym (append_assoc t (b'.' ∷ p) (codes ".>")),
      append_free b'>' t (b'.' ∷ p) f (dotted p g),
    ))

-- Good tokens, joined by dots, have ">" in its place.
join-IsTerminal : (ts : List Text) → GoodTokens ts → IsTerminal (join b'.' ts)
unfolding join
join-IsTerminal [] h = inl (has-nil b'>')
join-IsTerminal (t ∷ []) (inl f) = inl f
join-IsTerminal (t ∷ []) (inr e) = inr (inl e)
join-IsTerminal (t ∷ u ∷ ts) (f, h) = extend t (join b'.' (u ∷ ts)) f (join-IsTerminal (u ∷ ts) h)

GoodTokens-of_All : (ts : List Text) → All (λ t. has b'>' t ≡ false) ts → GoodTokens ts
GoodTokens-of_All [] h = tt
GoodTokens-of_All (t ∷ []) h = inl h.0
GoodTokens-of_All (t ∷ u ∷ ts) (f, h) = (f, GoodTokens-of_All (u ∷ ts) h)

GoodTokens-append :
    (ts : List Text) (u : Text)
    → All (λ t. has b'>' t ≡ false) ts
    → GoodTokens (u ∷ [])
    → GoodTokens (ts ++ u ∷ [])
GoodTokens-append [] u h g = g
GoodTokens-append (t ∷ []) u h g = (h.0, g)
GoodTokens-append (t ∷ v ∷ ts) u (f, h) g = (f, GoodTokens-append (v ∷ ts) u h g)

parts_free : (v : Text) → has b'>' v ≡ false → All (λ t. has b'>' t ≡ false) (split b'.' v)
parts_free v f = join-All_free b'.' b'>' (split b'.' v) (ap (has b'>') (join-split b'.' v) ∙ f)

split-GoodTokens : (v : Text) → IsTerminal v → GoodTokens (split b'.' v)
split-GoodTokens v (inl f) = GoodTokens-of_All (split b'.' v) (parts_free v f)
split-GoodTokens v (inr (inl e)) = rw e (unfold split push_front in inr refl)
split-GoodTokens v (inr (inr (p, e, f))) =
    subst GoodTokens (sym (ap (split b'.') e ∙ split-append_sep b'.' p (codes ">"))) (
      unfold split push_front in
      GoodTokens-append (split b'.' p) (codes ">") (parts_free p f) (inr refl))

-- The check of the placement passes exactly where ">" does not occur, or is the whole text, or
-- stands at the end behind a dot and nowhere else.
pub validate_gt_placement-none_iff : (v : Text) → (validate_gt_placement v ≡ none) ↔ IsTerminal v
unfolding validate_gt_placement
validate_gt_placement-none_iff v = (
  λ h. subst IsTerminal (join-split b'.' v) (
      join-IsTerminal (split b'.' v)
        (check_tokens_sound 0 (length (split b'.' v)) (split b'.' v) (omega arith) h)),
  λ h.
      check_tokens_complete 0 (length (split b'.' v)) (split b'.' v) (omega arith)
        (split-GoodTokens v h),
)
