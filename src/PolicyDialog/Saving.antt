-- ===== src/PolicyDialog/Saving.antt =====
-- What the dialog is closed with, and the way to the JSON and back.
use nauts.Base.{
  and_iff, not_iff, ◌≡◌, ◌↔◌, refl, sym, ◌∙◌, true, false, some, List, [], ◌∷◌, map, All, all,
  is_nonempty, length, Bool-cases, inl, inr, ◌⊎◌, ◌≢◌, arith,
}
use nauts.Base.Text.{Text}
use nauts.Models.{Statement, Policy}
use nauts.Thrown.{Outcome, ok}
use nauts.Validators.{PartialStatement, PartialPolicy, validate_policy}
use nauts.Validators.Laws.{
  IsNonempty, IsCompleteStatement, IsCompletePolicy, validate_policy-nil_iff, is_blank_iff,
}
use nauts.PolicyDialog.{
  PolicyDialogData, PolicyDialog, build_statements, build_policy_from_form, keep_id, is_valid,
  policy_json_saved, save_policy, PolicyValue,
}
use nauts.PolicyDialog.Editing.{IsAligned}

-- A policy as the validators take it, with all that may be missing there.
abbrev pub partial_statement : Statement → PartialStatement
partial_statement s = record {
  effect = some s.effect;
  actions = some s.actions;
  resources = some s.resources;
}

abbrev pub partial_policy : Policy → PartialPolicy
partial_policy p = record {
  name = some p.name;
  account = some p.account;
  statements = some (map partial_statement p.statements);
}

is_nonempty_iff : (xs : List Text) → (is_nonempty xs ≡ true) ↔ IsNonempty (some xs)
is_nonempty_iff [] = (λ h. cc, λ h. absurd h)
is_nonempty_iff (x ∷ xs) = (λ h. tt, λ h. refl)

complete_of_filled :
    (actions resources : List (List Text))
    → length actions ≡ length resources
    → all is_nonempty actions ≡ true
    → all is_nonempty resources ≡ true
    → All IsCompleteStatement (map partial_statement (build_statements actions resources))
unfolding build_statements all
complete_of_filled [] resources h a r = tt
complete_of_filled (x ∷ actions) [] h a r = absurd (omega (arith, h))
complete_of_filled (x ∷ actions) (y ∷ resources) h a r =
    let (p, ps) = (and_iff (is_nonempty x) (all is_nonempty actions)).0 a in
    let (q, qs) = (and_iff (is_nonempty y) (all is_nonempty resources)).0 r in
    (
      record {
        allows = refl;
        actions = (is_nonempty_iff x).0 p;
        resources = (is_nonempty_iff y).0 q;
      },
      complete_of_filled actions resources (omega (arith, h)) ps qs,
    )

filled-of_complete :
    (actions resources : List (List Text))
    → length actions ≡ length resources
    → All IsCompleteStatement (map partial_statement (build_statements actions resources))
    → (all is_nonempty actions ≡ true) × (all is_nonempty resources ≡ true)
unfolding build_statements all
filled-of_complete [] [] h v = (refl, refl)
filled-of_complete [] (y ∷ resources) h v = absurd (omega (arith, h))
filled-of_complete (x ∷ actions) [] h v = absurd (omega (arith, h))
filled-of_complete (x ∷ actions) (y ∷ resources) h (v, vs) =
    let (ps, qs) = filled-of_complete actions resources (omega (arith, h)) vs in
    (
      (and_iff (is_nonempty x) (all is_nonempty actions)).1 ((is_nonempty_iff x).1 v.actions, ps),
      (and_iff (is_nonempty y) (all is_nonempty resources)).1
          ((is_nonempty_iff y).1 v.resources, qs),
    )

some_iff :
    (actions resources : List (List Text))
    → (is_nonempty actions ≡ true)
      ↔ IsNonempty (some (map partial_statement (build_statements actions resources)))
unfolding build_statements
some_iff [] resources = (λ h. cc, λ h. absurd h)
some_iff (x ∷ actions) [] = (λ h. tt, λ h. refl)
some_iff (x ∷ actions) (y ∷ resources) = (λ h. tt, λ h. refl)

module _ (given : PolicyDialogData) where
  complete_of_valid :
      (d : PolicyDialog)
      → IsAligned d
      → is_valid d ≡ true
      → IsCompletePolicy (partial_policy (build_policy_from_form given d))
  unfolding is_valid build_policy_from_form
  complete_of_valid d h v =
      let (n, v1) = (and_iff _ _).0 v in
      let (c, v2) = (and_iff _ _).0 v1 in
      let (s, v3) = (and_iff _ _).0 v2 in
      let (a, r) = (and_iff _ _).0 v3 in
      record {
        name = (is_blank_iff (some d.form.name)).0 ((not_iff _).0 n);
        account = (is_blank_iff (some d.form.account)).0 ((not_iff _).0 c);
        some_statement = (some_iff d.stmt_actions d.stmt_resources).0 s;
        statements = complete_of_filled d.stmt_actions d.stmt_resources h a r;
      }

  valid-of_complete :
      (d : PolicyDialog)
      → IsAligned d
      → IsCompletePolicy (partial_policy (build_policy_from_form given d))
      → is_valid d ≡ true
  unfolding is_valid build_policy_from_form
  valid-of_complete d h w =
      let n = (not_iff _).1 ((is_blank_iff (some d.form.name)).1 w.name) in
      let c = (not_iff _).1 ((is_blank_iff (some d.form.account)).1 w.account) in
      let s = (some_iff d.stmt_actions d.stmt_resources).1 w.some_statement in
      let (a, r) = filled-of_complete d.stmt_actions d.stmt_resources h w.statements in
      rw (n, c, s, a, r) refl

  -- The button of the form is enabled, where there are as many lists of actions as of resources,
  -- exactly for the forms whose policy the policy validator accepts.
  pub is_valid-validate_policy :
      (d : PolicyDialog)
      → IsAligned d
      → (is_valid d ≡ true)
        ↔ (validate_policy (partial_policy (build_policy_from_form given d)) ≡ [])
  is_valid-validate_policy d h =
      let w = validate_policy-nil_iff (partial_policy (build_policy_from_form given d)) in
      (λ v. w.1 (complete_of_valid d h v), λ v. valid-of_complete d h (w.0 v))

  module _ (to_lower : Text → Text) (stringify : Policy → Text)
      (parse : Text → Outcome PolicyValue) where
    -- In form mode and with as many lists of actions as of resources, saving closes the dialog with the
    -- policy of the form if the policy validator accepts it, and changes nothing if it does not.
    pub save_policy-form :
        (d : PolicyDialog)
        → IsAligned d
        → d.json_mode ≡ false
        → let p = build_policy_from_form given d in
          ((validate_policy (partial_policy p) ≡ [])
            × (save_policy to_lower given stringify parse d ≡ record d { closed = some p }))
          ⊎ ((validate_policy (partial_policy p) ≢ [])
              × (save_policy to_lower given stringify parse d ≡ d))
    unfolding save_policy
    save_policy-form d h m =
        let w = is_valid-validate_policy d h in
        elim (Bool-cases (is_valid d)) [
          | inl e ↦ inl (w.0 e, rw (m, e) refl)
          | inr e ↦ inr (λ v. cc (sym e ∙ w.1 v), simp (m, e))
        ]

    -- In JSON mode any policy that the text stands for closes the dialog, whatever the validators say of
    -- it, under the ID of the edited policy if there is one.
    save_policy-json :
        (d : PolicyDialog) (p : PolicyValue)
        → d.json_mode ≡ true
        → parse d.json_text ≡ ok p
        → (save_policy to_lower given stringify parse d).closed ≡ some (keep_id given p.value)
    unfolding save_policy policy_json_saved
    save_policy-json d p m h = rw (m, h) refl
