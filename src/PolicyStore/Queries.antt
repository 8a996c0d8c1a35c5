-- ===== src/PolicyStore/Queries.antt =====
-- Which bindings the store lists for a policy.
use nauts.Base.{
  ◌≡◌, ◌↔◌, ◌⊎◌, sym, Bool, true, ◌||◌, some, List, [], ◌∷◌, ◌++◌, In, In-filter, filter-In, any,
  Bool-cases, inl, inr, arith,
}
use nauts.Base.Text.{Text, ◌==◌, eq_iff, eq_refl}
use nauts.Base.Dict
use nauts.Base.Dict.{Dict}
use nauts.Base.Dict.Laws.{In-values, values-get}
use nauts.Models.{BindingEntry}
use nauts.KvKeys.{global_policy_prefix, add_global_prefix}
use nauts.PolicyStore.{Store, get_bindings_for_policy, includes_text}
use nauts.PolicyStore.Tracking.{IsCurrent}

In-of_includes : (t : Text) (ts : List Text) → includes_text t ts ≡ true → In t ts
unfolding includes_text any
In-of_includes t [] h = cc
In-of_includes t (u ∷ us) h = elim (Bool-cases (u == t)) [
  | inl e ↦ inl (sym ((eq_iff u t).0 e))
  | inr e ↦ inr (In-of_includes t us (rw e at h))
]

includes_of_In : (t : Text) (ts : List Text) → In t ts → includes_text t ts ≡ true
unfolding includes_text any
includes_of_In t [] h = absurd h
includes_of_In t (u ∷ us) (inl e) = rw (← e) (rw (eq_refl t))
includes_of_In t (u ∷ us) (inr m) = ground (arith, includes_of_In t us m)

pub includes_text_iff : (t : Text) (ts : List Text) → (includes_text t ts ≡ true) ↔ In t ts
includes_text_iff t ts = (In-of_includes t ts, includes_of_In t ts)

or_cases : (a b : Bool) → (a || b) ≡ true → (a ≡ true) ⊎ (b ≡ true)
or_cases a b h = ground arith

-- The entries of the map, by their keys.
abbrev pub Holds : {V : Type 0} → V → Dict V → Type 0
Holds e m = (k : Text) × (Dict.get k m ≡ some e)

module _ (s : Store) (c : IsCurrent s) where
  -- In a store that is up to date, the bindings of a policy are exactly the stored ones that name
  -- its ID, plain or with the "_global:" marker.
  In-get_bindings_for_policy :
      (id : Text) (e : BindingEntry)
      → In e (get_bindings_for_policy id s) ↔ (
          Holds e s.bindings_map
          × (In id e.binding.policies ⊎ In (add_global_prefix id) e.binding.policies))
  unfolding get_bindings_for_policy add_global_prefix
  In-get_bindings_for_policy id e = (
    λ m.
        let (n, h) = In-filter _ (Dict.values s.bindings_map) m in
        (values-get s.bindings_map e c.binding_keys n, named (or_cases _ _ h)),
    λ m.
        let ((k, g), h) = m in
        filter-In _ (Dict.values s.bindings_map) (In-values s.bindings_map k e g) (marked h),
  )
    where
      named :
          (includes_text id e.binding.policies ≡ true)
            ⊎ (includes_text (global_policy_prefix ++ id) e.binding.policies ≡ true)
          → In id e.binding.policies ⊎ In (global_policy_prefix ++ id) e.binding.policies
      named (inl h) = inl (In-of_includes id e.binding.policies h)
      named (inr h) = inr (In-of_includes (global_policy_prefix ++ id) e.binding.policies h)

      marked :
          In id e.binding.policies ⊎ In (global_policy_prefix ++ id) e.binding.policies
          → (includes_text id e.binding.policies
              || includes_text (global_policy_prefix ++ id) e.binding.policies)
            ≡ true
      marked (inl h) = ground (arith, includes_of_In id e.binding.policies h)
      marked (inr h) =
          ground (arith, includes_of_In (global_policy_prefix ++ id) e.binding.policies h)
