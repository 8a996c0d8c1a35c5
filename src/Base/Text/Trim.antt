-- ===== src/Base/Text/Trim.antt =====
-- When a trimmed text is empty.
use Prim.Native.Nat.{ℕ}
use mathlib.Core.Path.{◌≡◌, refl}
use mathlib.Core.Logic.{◌↔◌, ◌≢◌, inl, inr}
use mathlib.Core.Bool.{true, false}
use mathlib.Core.List.{[], ◌∷◌}
use native.Mathlib.Omega.{arith}
use nauts.Base.Tests.{Bool-cases}
use nauts.Base.Lists.{All}
use nauts.Base.Text.Defs.{Text, is_space, trim_start, trim_end, push_trimmed, trim}

-- Only white space.
abbrev pub Blank : Text → Type 0
Blank s = All (λ c. is_space c ≡ true) s

push_trimmed-ne-nil : (c : ℕ) (s : Text) → is_space c ≡ false → push_trimmed c s ≢ []
unfolding push_trimmed
push_trimmed-ne-nil c [] h e = ground arith
push_trimmed-ne-nil c (d ∷ s) h e = cc

trim_end-ne-nil : (c : ℕ) (s : Text) → is_space c ≡ false → trim_end (c ∷ s) ≢ []
unfolding trim_end
trim_end-ne-nil c s h e = push_trimmed-ne-nil c (trim_end s) h e

trim_of_Blank : (s : Text) → Blank s → trim s ≡ []
unfolding trim trim_start trim_end
trim_of_Blank [] h = refl
trim_of_Blank (c ∷ s) (e, h) = rw e (trim_of_Blank s h)

Blank-of_trim : (s : Text) → trim s ≡ [] → Blank s
unfolding trim trim_start
Blank-of_trim [] h = tt
Blank-of_trim (c ∷ s) h = elim (Bool-cases (is_space c)) [
  | inl e ↦ (e, Blank-of_trim s (rw e at h))
  | inr e ↦ absurd (trim_end-ne-nil c s e (rw e at h))
]

-- `trim` leaves nothing exactly of white space.
pub trim_eq_nil_iff : (s : Text) → (trim s ≡ []) ↔ Blank s
trim_eq_nil_iff s = (Blank-of_trim s, trim_of_Blank s)
