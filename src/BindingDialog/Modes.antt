-- ===== src/BindingDialog/Modes.antt =====
-- The form and the JSON of the dialog.
use nauts.Base.{◌≡◌, refl, ap, ap₂, ◌∙◌, true, false, List, [], ◌∷◌, map, All, Bool-cases, inl, inr}
use nauts.Base.Text.{is_empty, Text}
use nauts.Models.{Binding}
use nauts.Thrown.{Outcome, ok}
use nauts.KvKeys.{strip_global_prefix, has_global_prefix}
use nauts.KvKeys.Prefixes.{strip_global_prefix-add}
use nauts.BindingDialog.{
  DialogData, BindingDialog, BindingForm, mark_policy, is_global_policy, build_binding_from_form,
  form_of, load_binding_into_form, update_available_policies, from_json, toggle_json_mode,
}
use nauts.BindingDialog.Markers.{unmarked}

module _ (given : DialogData) where
  strip-mark_policy :
      (id : Text) → has_global_prefix id ≡ false → strip_global_prefix (mark_policy given id) ≡ id
  unfolding mark_policy
  strip-mark_policy id h = elim (Bool-cases (is_global_policy given id)) [
    | inl g ↦ rw g (strip_global_prefix-add id).1
    | inr g ↦ rw g (unmarked id h)
  ]

  stripped :
      (ids : List Text)
      → All (λ id. has_global_prefix id ≡ false) ids
      → map strip_global_prefix (map (mark_policy given) ids) ≡ ids
  stripped [] h = refl
  stripped (id ∷ ids) h = ap₂ (λ a b. a ∷ b) (strip-mark_policy id h.0) (stripped ids h.1)

  form_of-build :
      (f : BindingForm)
      → All (λ id. has_global_prefix id ≡ false) f.policies
      → form_of given (build_binding_from_form given f) ≡ f
  unfolding form_of build_binding_from_form
  form_of-build f h = ap (λ ps. record f { policies = ps }) (stripped f.policies h)

  module _ (to_lower : Text → Text) (stringify : Binding → Text)
      (parse : Text → Outcome Binding) where
    to_json :
        (d : BindingDialog)
        → d.json_mode ≡ false
        → toggle_json_mode given to_lower stringify parse d ≡ record d {
          json_text = stringify (build_binding_from_form given d.form);
          json_error = [];
          json_mode = true;
        }
    unfolding toggle_json_mode
    to_json d m = rw m refl

    -- The form after loading, whatever the account.
    load-form :
        (b : Binding) (d : BindingDialog)
        → (load_binding_into_form given to_lower b d).form ≡ form_of given b
    unfolding load_binding_into_form update_available_policies
    load-form b d = elim (Bool-cases (is_empty b.account)) [ inl e ↦ rw e refl | inr e ↦ rw e refl ]

    of_json :
        (d : BindingDialog) (b : Binding)
        → d.json_mode ≡ true
        → parse d.json_text ≡ ok b
        → toggle_json_mode given to_lower stringify parse d
          ≡ record (load_binding_into_form given to_lower b d) {
            json_error = [];
            json_mode = false;
          }
    unfolding toggle_json_mode from_json
    of_json d b m q = rw (m, q) refl

    -- Going to the JSON and back leaves the form as it was, in form mode and without an error, where
    -- JSON is read back as it was written and the IDs in the form carry no marker.
    toggle_json_mode-twice :
        (d : BindingDialog)
        → ((b : Binding) → parse (stringify b) ≡ ok b)
        → d.json_mode ≡ false
        → All (λ id. has_global_prefix id ≡ false) d.form.policies
        → ((toggle_json_mode given to_lower stringify parse
              (toggle_json_mode given to_lower stringify parse d)).form
            ≡ d.form)
          × ((toggle_json_mode given to_lower stringify parse
                (toggle_json_mode given to_lower stringify parse d)).json_mode
              ≡ false)
          × ((toggle_json_mode given to_lower stringify parse
                (toggle_json_mode given to_lower stringify parse d)).json_error
              ≡ [])
    toggle_json_mode-twice d back m h =
        let b = build_binding_from_form given d.form in
        let e : BindingDialog = record d {
          json_text = stringify b;
          json_error = [];
          json_mode = true;
        } in
        rw (to_json d m)
          (rw (of_json e b refl (back b)) (load-form b e ∙ form_of-build d.form h, refl, refl))
