-- ===== src/Base/Text/Eq.antt =====
-- Laws of `===` and `startsWith`.
use mathlib.Core.Path.{◌≡◌, refl}
use mathlib.Core.Logic.{◌↔◌, ◌≢◌}
use mathlib.Core.Bool.{true, false}
use mathlib.Core.List.{[], ◌∷◌, ◌++◌}
use native.Mathlib.Omega.{arith}
use nauts.Base.Lists.{length, drop}
use nauts.Base.Text.Defs.{Text, ◌==◌, starts_with}

eq_sound : (s t : Text) → (s == t) ≡ true → s ≡ t
unfolding ◌==◌
eq_sound [] [] h = refl
eq_sound [] (d ∷ t) h = cc
eq_sound (c ∷ s) [] h = cc
eq_sound (c ∷ s) (d ∷ t) h = ground (arith, eq_sound s t)

pub eq_refl : (s : Text) → (s == s) ≡ true
unfolding ◌==◌
eq_refl [] = refl
eq_refl (c ∷ s) = ground (arith, eq_refl s)

pub eq_iff : (s t : Text) → ((s == t) ≡ true) ↔ (s ≡ t)
eq_iff s t = (eq_sound s t, λ e. rw e (eq_refl t))

pub eq-false : (s t : Text) → s ≢ t → (s == t) ≡ false
eq-false s t h = ground (arith, eq_iff s t)

pub starts_with-append : (p s : Text) → starts_with (p ++ s) p ≡ true
unfolding starts_with
starts_with-append [] [] = refl
starts_with-append [] (d ∷ s) = refl
starts_with-append (c ∷ p) s = ground (arith, starts_with-append p s)

-- A text that starts with `p` is `p` and what `substring(p.length)` leaves.
pub starts_with-drop : (s p : Text) → starts_with s p ≡ true → s ≡ p ++ drop (length p) s
unfolding starts_with
starts_with-drop s [] h = refl
starts_with-drop [] (c ∷ p) h = cc
starts_with-drop (d ∷ s) (c ∷ p) h = ground (arith, starts_with-drop s p)
