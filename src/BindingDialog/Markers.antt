-- ===== src/BindingDialog/Markers.antt =====
-- The markers of global policies, taken off for the form and put on again.
use nauts.Base.{
  ◌≡◌, ◌≢◌, ◌↔◌, refl, sym, ap, ap₂, ◌∙◌, Bool, true, false, List, [], ◌∷◌, ◌++◌, map, length,
  length-append, All, Bool-cases, some, subst, inl, inr, arith,
}
use nauts.Base.Text.{Text, is_empty, starts_with-drop}
use nauts.Models.{Binding}
use nauts.KvKeys.{global_policy_prefix, strip_global_prefix, add_global_prefix, has_global_prefix}
use nauts.KvKeys.Prefixes.{strip_global_prefix-add}
use nauts.BindingDialog.{
  DialogData, is_global_policy, mark_policy, build_binding_from_form, form_of, BindingForm, opened,
  save, update_available_policies,
}
use nauts.Thrown.{Outcome}

pub unmarked : (id : Text) → has_global_prefix id ≡ false → strip_global_prefix id ≡ id
unfolding has_global_prefix strip_global_prefix
unmarked id h = rw h refl

marked : (id : Text) → has_global_prefix id ≡ true → add_global_prefix (strip_global_prefix id) ≡ id
unfolding has_global_prefix strip_global_prefix add_global_prefix
marked id h = rw h (sym (starts_with-drop id global_policy_prefix h))

-- An ID with a marker is not what is left of it.
longer : (id : Text) → has_global_prefix id ≡ true → strip_global_prefix id ≢ id
unfolding add_global_prefix
longer id h e =
    let full : length (global_policy_prefix ++ strip_global_prefix id) ≡ length id =
      ap length (marked id h) in
    omega (arith, length-append global_policy_prefix (strip_global_prefix id), full, ap length e)

module _ (given : DialogData) where
  mark_policy-strip :
      (id : Text)
      → (mark_policy given (strip_global_prefix id) ≡ id)
        ↔ (has_global_prefix id ≡ is_global_policy given (strip_global_prefix id))
  unfolding mark_policy
  mark_policy-strip id = elim (Bool-cases (is_global_policy given (strip_global_prefix id))) [
    | inl g ↦ rw g (
      λ e. ap has_global_prefix (sym e) ∙ (strip_global_prefix-add (strip_global_prefix id)).0,
      λ h. marked id h,
    )
    | inr g ↦ rw g (λ e. by (has_global_prefix id) refl e, λ h. unmarked id h)
  ]
    where
      by : (b : Bool) → has_global_prefix id ≡ b → strip_global_prefix id ≡ id → b ≡ false
      by true h e = absurd (longer id h e)
      by false h e = refl

  map-fixed_iff :
      (f : Text → Text) (P : Text → Type 0) (ids : List Text)
      → ((id : Text) → (f id ≡ id) ↔ P id)
      → (map f ids ≡ ids) ↔ All P ids
  map-fixed_iff f P [] w = (λ h. tt, λ h. refl)
  map-fixed_iff f P (id ∷ ids) w =
      let v = map-fixed_iff f P ids w in
      (λ h. ((w id).0 (cc h), v.0 (cc h)), λ h. ap₂ (λ a b. a ∷ b) ((w id).1 h.0) (v.1 h.1))

  -- Building a binding from the form that it fills in gives it back exactly if its markers agree.
  build_binding_from_form-form_of :
      (b : Binding)
      → (build_binding_from_form given (form_of given b) ≡ b)
        ↔ All
            (λ id. has_global_prefix id ≡ is_global_policy given (strip_global_prefix id))
            b.policies
  unfolding build_binding_from_form form_of
  build_binding_from_form-form_of b =
      let w =
        map-fixed_iff (λ id. mark_policy given (strip_global_prefix id))
          (λ id. has_global_prefix id ≡ is_global_policy given (strip_global_prefix id)) b.policies
          mark_policy-strip in
      (
        λ h. w.0 (sym (fused b.policies) ∙ ap (λ c. c.policies) h),
        λ h. ap (λ ps. record b { policies = ps }) (fused b.policies ∙ w.1 h),
      )
    where
      fused :
          (ids : List Text)
          → map (mark_policy given) (map strip_global_prefix ids)
            ≡ map (λ id. mark_policy given (strip_global_prefix id)) ids
      fused [] = refl
      fused (id ∷ ids) = ap (λ l. mark_policy given (strip_global_prefix id) ∷ l) (fused ids)

  module _ (to_lower : Text → Text) (stringify : Binding → Text)
      (parse : Text → Outcome Binding) where
    -- Opening the dialog with a binding whose account is not empty and saving it at once, where the
    -- form is found valid, closes the dialog with a binding, and with the one that was given exactly
    -- if each of its IDs carries the marker just where the first policy with the rest of the ID is a
    -- global one.
    pub save-opened :
        (is_valid : BindingForm → Bool) (b : Binding)
        → given.binding ≡ some b
        → is_empty b.account ≡ false
        → is_valid (opened given).form ≡ true
        → (c : Binding) × ((save given to_lower stringify parse is_valid (opened given)).closed
            ≡ some c)
          × ((c ≡ b)
              ↔ All
                  (λ id. has_global_prefix id ≡ is_global_policy given (strip_global_prefix id))
                  b.policies)
    unfolding opened
    save-opened is_valid b g a v = (
      build_binding_from_form given (opened given).form,
      saved,
      subst
          (λ f.
            (build_binding_from_form given f ≡ b)
            ↔ All (λ id. has_global_prefix id ≡ is_global_policy given (strip_global_prefix id))
                b.policies)
          (sym shown) (build_binding_from_form-form_of b),
    )
      where
        shown : (opened given).form ≡ form_of given b
        shown = unfold update_available_policies form_of in rw g (rw a refl)

        saved :
            (save given to_lower stringify parse is_valid (opened given)).closed
            ≡ some (build_binding_from_form given (opened given).form)
        saved = unfold save in rw v refl
