-- ===== src/Base/Dict.antt =====
-- JavaScript's `Map` with string keys: the entries in the order in which their keys came in.
pub mod Laws
use mathlib.Core.Path.{◌≡◌}
use mathlib.Core.Option.{Option, none, some}
use mathlib.Core.List.{List, [], ◌∷◌}
use nauts.Base.Tests.{if◌then◌else◌}
use nauts.Base.Text.{Text, ◌==◌}

abbrev pub Dict {ℓ} : Type ℓ → Type ℓ
Dict V = List (Text × V)

module _ {ℓ} {V : Type ℓ} where
  -- `m.get(k)`
  unfoldable pub get : Text → Dict V → Option V
  get k [] = none
  get k ((j, v) ∷ m) = if j == k then some v else get k m

  -- `m.set(k, v)`: a key that is there keeps its place.
  unfoldable pub set : Text → V → Dict V → Dict V
  set k v [] = (k, v) ∷ []
  set k v ((j, w) ∷ m) = let rest = set k v m in if j == k then (j, v) ∷ m else (j, w) ∷ rest

  -- `m.delete(k)`
  unfoldable pub delete : Text → Dict V → Dict V
  delete k [] = []
  delete k ((j, w) ∷ m) = let rest = delete k m in if j == k then m else (j, w) ∷ rest

  -- `Array.from(m.values())`
  unfoldable pub values : Dict V → List V
  values [] = []
  values ((k, v) ∷ m) = v ∷ values m
