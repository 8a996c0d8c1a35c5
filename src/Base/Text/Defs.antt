-- ===== src/Base/Text/Defs.antt =====
-- JavaScript strings as lists of UTF-16 code units, and the methods of `String` that the control
-- plane calls: `===`, `startsWith`, `includes`, `split`, `trim`.
use Prim.Native.Char.{code}
use Prim.Native.String.{String}
use Prim.Native.Nat.{ℕ}
use mathlib.Core.Bool.{Bool, true, false, ◌&&◌, ◌||◌}
use mathlib.Core.List.{List, [], ◌∷◌}
use nauts.Base.Tests.{nat_eq, leb, if◌then◌else◌}

abbrev pub Text : Type 0
Text = List ℕ

-- A literal of the source; all are ASCII.
abbrev pub codes : String → Text
codes String.[] = []
codes (String.◌∷◌ c s) = code c ∷ codes s

abbrev pub is_empty : Text → Bool
is_empty [] = true
is_empty (c ∷ s) = false

infix 50 ◌==◌
unfoldable pub ◌==◌ : Text → Text → Bool
[] == [] = true
[] == (d ∷ t) = false
(c ∷ s) == [] = false
(c ∷ s) == (d ∷ t) = nat_eq c d && (s == t)

-- `s.startsWith(p)`
unfoldable pub starts_with : Text → Text → Bool
starts_with s [] = true
starts_with [] (c ∷ p) = false
starts_with (d ∷ s) (c ∷ p) = nat_eq d c && starts_with s p

-- `s.includes(p)`
unfoldable pub includes : Text → Text → Bool
unfolding starts_with
includes [] p = starts_with [] p
includes (c ∷ s) p = starts_with (c ∷ s) p || includes s p

-- The first part of `split` takes a code unit more.
unfoldable pub push_front : ℕ → List Text → List Text
push_front c [] = (c ∷ []) ∷ []
push_front c (t ∷ ts) = (c ∷ t) ∷ ts

-- `s.split(sep)` for a separator of one code unit
unfoldable pub split : ℕ → Text → List Text
split sep [] = [] ∷ []
split sep (c ∷ s) = let rest = split sep s in if nat_eq c sep then [] ∷ rest else push_front c rest

-- White space and line terminators of ECMAScript.
unfoldable pub is_space : ℕ → Bool
is_space c =
    (leb 9 c && leb c 13)
    || nat_eq c 32
    || nat_eq c 160
    || nat_eq c 0x1680
    || (leb 0x2000 c && leb c 0x200a)
    || nat_eq c 0x2028
    || nat_eq c 0x2029
    || nat_eq c 0x202f
    || nat_eq c 0x205f
    || nat_eq c 0x3000
    || nat_eq c 0xfeff

unfoldable pub trim_start : Text → Text
trim_start [] = []
trim_start (c ∷ s) = if is_space c then trim_start s else c ∷ s

unfoldable pub push_trimmed : ℕ → Text → Text
push_trimmed c [] = if is_space c then [] else c ∷ []
push_trimmed c (d ∷ t) = c ∷ d ∷ t

unfoldable pub trim_end : Text → Text
trim_end [] = []
trim_end (c ∷ s) = push_trimmed c (trim_end s)

-- `s.trim()`
unfoldable pub trim : Text → Text
unfolding trim_start trim_end
trim s = trim_end (trim_start s)
