-- ===== src/Base/Dict/Laws.antt =====
-- Laws of `Map`: what a lookup finds after a write, and that no key stands twice.
use mathlib.Core.Path.{◌≡◌, refl}
use mathlib.Core.Logic.{inl, inr}
use mathlib.Core.Bool.{false}
use mathlib.Core.Option.{none, some}
use mathlib.Core.List.{[], ◌∷◌}
use native.Mathlib.Omega.{arith}
use nauts.Base.Tests.{if◌then◌else◌, Bool-cases}
use nauts.Base.Lists.{In}
use nauts.Base.Text.{Text, ◌==◌, eq_iff}
use nauts.Base.Dict.{Dict, get, set, delete, values}

module _ {ℓ} {V : Type ℓ} where
  -- No later entry has the key.
  abbrev pub Fresh : Text → Dict V → Type 0
  Fresh k [] = Unit
  Fresh k ((j, v) ∷ m) = ((j == k) ≡ false) × Fresh k m

  -- Every key stands once.
  abbrev pub HasDistinctKeys : Dict V → Type 0
  HasDistinctKeys [] = Unit
  HasDistinctKeys ((k, v) ∷ m) = Fresh k m × HasDistinctKeys m

  pub get-set :
      (k j : Text) (v : V) (m : Dict V) → get j (set k v m) ≡ (if k == j then some v else get j m)
  unfolding get set
  get-set k j v [] = refl
  get-set k j v ((i, w) ∷ m) = ground (arith, eq_iff k j, eq_iff i k, eq_iff i j, get-set k j v m)

  get_of_Fresh : (k : Text) (m : Dict V) → Fresh k m → get k m ≡ none
  unfolding get
  get_of_Fresh k [] h = refl
  get_of_Fresh k ((j, v) ∷ m) (e, h) = rw e (get_of_Fresh k m h)

  pub get-delete :
      (k j : Text) (m : Dict V)
      → HasDistinctKeys m
      → get j (delete k m) ≡ (if k == j then none else get j m)
  unfolding get delete
  get-delete k j [] d = ground arith
  get-delete k j ((i, w) ∷ m) (f, d) =
      ground (arith, eq_iff k j, eq_iff i k, eq_iff i j, get-delete k j m d, get_of_Fresh i m f)

  Fresh-set : (i k : Text) (v : V) (m : Dict V) → (k == i) ≡ false → Fresh i m → Fresh i (set k v m)
  unfolding set
  Fresh-set i k v [] e h = (e, tt)
  Fresh-set i k v ((j, w) ∷ m) e (f, h) = ground (arith, Fresh-set i k v m e h)

  pub set-HasDistinctKeys :
      (k : Text) (v : V) (m : Dict V) → HasDistinctKeys m → HasDistinctKeys (set k v m)
  unfolding set
  set-HasDistinctKeys k v [] d = (tt, tt)
  set-HasDistinctKeys k v ((j, w) ∷ m) (f, d) = elim (Bool-cases (j == k)) [
    | inl e ↦ rw e (f, d)
    | inr e ↦
        rw e (
          Fresh-set j k v m (ground (arith, eq_iff j k, eq_iff k j)) f,
          set-HasDistinctKeys k v m d,
        )
  ]

  Fresh-delete : (i k : Text) (m : Dict V) → Fresh i m → Fresh i (delete k m)
  unfolding delete
  Fresh-delete i k [] h = tt
  Fresh-delete i k ((j, w) ∷ m) (f, h) = ground (arith, Fresh-delete i k m h)

  pub delete-HasDistinctKeys :
      (k : Text) (m : Dict V) → HasDistinctKeys m → HasDistinctKeys (delete k m)
  unfolding delete
  delete-HasDistinctKeys k [] d = tt
  delete-HasDistinctKeys k ((j, w) ∷ m) (f, d) =
      ground (arith, Fresh-delete j k m f, delete-HasDistinctKeys k m d)

-- The values of a map are what a lookup of some key finds.
module _ {V : Type 0} where
  pub In-values : (m : Dict V) (k : Text) (v : V) → get k m ≡ some v → In v (values m)
  unfolding get values
  In-values [] k v h = cc
  In-values ((j, w) ∷ m) k v h = ground (arith, In-values m k v)

  pub values-get :
      (m : Dict V) (v : V) → HasDistinctKeys m → In v (values m) → (k : Text) × (get k m ≡ some v)
  unfolding get values
  values-get [] v d h = absurd h
  values-get ((j, w) ∷ m) v (f, d) (inl e) = (j, ground (arith, eq_iff j j))
  values-get ((j, w) ∷ m) v (f, d) (inr h) =
      let (k, e) = values-get m v d h in (k, ground (arith, eq_iff j k, get_of_Fresh j m f))
