-- ===== src/BindingsPage/Dangling.antt =====
-- The IDs of a binding that are those of no policy: in the list of the page and in its details.
use nauts.Base.{
  ◌≡◌, ◌↔◌, ◌⊎◌, inl, inr, refl, sym, ap, ◌∙◌, Bool, true, false, not, ◌||◌, some, List, [], ◌∷◌,
  any, In, Bool-cases, is_nonempty, if_both,
}
use nauts.Base.Text.{is_empty, Text, ◌==◌}
use nauts.Models.{BindingEntry}
use nauts.KvKeys.{strip_global_prefix}
use nauts.AccountService.{add_to_set}
use nauts.AccountService.Found.{In-add_to_set}
use nauts.PolicyStore.{includes_text}
use nauts.BindingsPage.{
  BindingsPage, collect_dangling, dangling_of, update_dangling_policies, update_available,
  has_dangling_policies,
}

In-collect_dangling :
    (available ids set : List Text) (id : Text)
    → In id (collect_dangling available ids set)
      ↔ (In id set ⊎ (In id ids × (includes_text (strip_global_prefix id) available ≡ false)))
unfolding collect_dangling
In-collect_dangling available [] set id =
    (λ m. inl m, λ m. elim m [ inl n ↦ n | inr n ↦ absurd n.0 ])
In-collect_dangling available (x ∷ ids) set id =
    elim (Bool-cases (includes_text (strip_global_prefix x) available)) [
      | inl e ↦
          let w = In-collect_dangling available ids set id in
          rw e
            (λ m. elim (w.0 m) [ inl n ↦ inl n | inr n ↦ inr (inr n.0, n.1) ], λ m. w.1 (known e m))
      | inr e ↦
          let w = In-collect_dangling available ids (add_to_set x set) id in
          let v = In-add_to_set id x set in
          rw e (
            λ m. elim (w.0 m) [ inl n ↦ added e (v.0 n) | inr n ↦ inr (inr n.0, n.1) ],
            λ m. w.1 (found v.1 m),
          )
    ]
  where
    known :
        includes_text (strip_global_prefix x) available ≡ true
        → In id set
          ⊎ ((id ≡ x) ⊎ In id ids) × (includes_text (strip_global_prefix id) available ≡ false)
        → In id set ⊎ (In id ids × (includes_text (strip_global_prefix id) available ≡ false))
    known e (inl m) = inl m
    known e (inr (inl q, h)) =
        absurd (cc (sym e ∙ ap (λ t. includes_text (strip_global_prefix t) available) (sym q) ∙ h))
    known e (inr (inr m, h)) = inr (m, h)

    added :
        includes_text (strip_global_prefix x) available ≡ false
        → In id set ⊎ (id ≡ x)
        → In id set
          ⊎ ((id ≡ x) ⊎ In id ids) × (includes_text (strip_global_prefix id) available ≡ false)
    added e (inl m) = inl m
    added e (inr q) = inr (inl q, ap (λ t. includes_text (strip_global_prefix t) available) q ∙ e)

    found :
        (In id set ⊎ (id ≡ x) → In id (add_to_set x set))
        → In id set
          ⊎ ((id ≡ x) ⊎ In id ids) × (includes_text (strip_global_prefix id) available ≡ false)
        → In id (add_to_set x set)
          ⊎ (In id ids × (includes_text (strip_global_prefix id) available ≡ false))
    found put (inl m) = inl (put (inl m))
    found put (inr (inl q, h)) = inl (put (inr q))
    found put (inr (inr m, h)) = inr (m, h)

-- What the details mark of the selected binding.
pub In-dangling_of :
    (available : List Text) (e : BindingEntry) (id : Text)
    → In id (dangling_of available (some e))
      ↔ (In id e.binding.policies × (includes_text (strip_global_prefix id) available ≡ false))
unfolding dangling_of
In-dangling_of available e id =
    let w = In-collect_dangling available e.binding.policies [] id in
    (λ m. elim (w.0 m) [ inl n ↦ absurd n | inr n ↦ n ], λ m. w.1 (inr m))

add_to_set-nonempty : (t : Text) (set : List Text) → is_nonempty (add_to_set t set) ≡ true
unfolding add_to_set
add_to_set-nonempty t [] = unfold any in refl
add_to_set-nonempty t (x ∷ set) =
    if_both (λ (l : List Text). is_nonempty l ≡ true) (any (λ b. b == t) (x ∷ set)) (λ h. refl)
      (λ h. refl)

abbrev missing : List Text → Text → Bool
missing available policy_id = not (includes_text (strip_global_prefix policy_id) available)

collect_dangling-nonempty :
    (available ids set : List Text)
    → is_nonempty (collect_dangling available ids set)
      ≡ (is_nonempty set || any (missing available) ids)
unfolding collect_dangling any
collect_dangling-nonempty available [] [] = refl
collect_dangling-nonempty available [] (x ∷ set) = refl
collect_dangling-nonempty available (x ∷ ids) set =
    elim (Bool-cases (includes_text (strip_global_prefix x) available)) [
      | inl e ↦ rw e (collect_dangling-nonempty available ids set)
      | inr e ↦ rw e (
          collect_dangling-nonempty available ids (add_to_set x set)
          ∙ by (is_nonempty set) (add_to_set-nonempty x set))
    ]
  where
    by :
        (b : Bool)
        → is_nonempty (add_to_set x set) ≡ true
        → (is_nonempty (add_to_set x set) || any (missing available) ids) ≡ (b || true)
    by true h = rw h refl
    by false h = rw h refl

-- Where an account is chosen, the list marks a binding of that account exactly if its details, were
-- it selected, mark one of its IDs.
pub has_dangling_policies-details :
    (p : BindingsPage) (e : BindingEntry)
    → is_empty p.selected_account ≡ false
    → e.binding.account ≡ p.selected_account
    → has_dangling_policies p.all_policies e
      ≡ is_nonempty
          (update_dangling_policies
            (update_available (record p { selected_entry = some e }))).dangling_policies
unfolding has_dangling_policies update_dangling_policies update_available dangling_of
has_dangling_policies-details p e h q =
    rw (h, q) (sym (collect_dangling-nonempty _ e.binding.policies []))
