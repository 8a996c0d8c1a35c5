-- ===== src/PolicyDialog/Switching.antt =====
-- The way from the form to the JSON and back.
use nauts.Base.{
  not, sym, if_both, ◌∙◌, some, ◌≡◌, refl, ap, true, false, List, [], ◌∷◌, map, length, arith,
}
use nauts.Base.Text.{Text}
use nauts.Models.{Policy, Statement}
use nauts.Thrown.{Outcome, ok}
use nauts.PolicyDialog.{
  PolicyDialogData, PolicyDialog, build_statements, build_policy_from_form, load_policy_into_form,
  account_reported, policy_parsed, toggle_policy_json, patch_policy, policy_loaded, PolicyValue,
  StatementValue, listed, spread, spread_each, chips_loaded, actions_loaded, resources_loaded,
}
use nauts.PolicyDialog.Editing.{IsAligned}

map-build_statements :
    (actions resources : List (List Text))
    → length actions ≡ length resources
    → (map (λ s. s.actions) (build_statements actions resources) ≡ actions)
      × (map (λ s. s.resources) (build_statements actions resources) ≡ resources)
unfolding build_statements
map-build_statements [] [] h = (refl, refl)
map-build_statements [] (y ∷ resources) h = absurd (omega (arith, h))
map-build_statements (x ∷ actions) [] h = absurd (omega (arith, h))
map-build_statements (x ∷ actions) (y ∷ resources) h =
    let (a, r) = map-build_statements actions resources (omega (arith, h)) in
    (ap (λ xs. x ∷ xs) a, ap (λ ys. y ∷ ys) r)

-- The value that the JSON of a policy stands for.
abbrev pub statement_value : Statement → StatementValue
statement_value s = record { actions = listed s.actions; resources = listed s.resources }

abbrev pub value_of : Policy → PolicyValue
value_of p = record {
  name = p.name;
  account = p.account;
  statements = some (map statement_value p.statements);
  value = p;
}

spread_each-value :
    (ss : List Statement)
    → (spread_each (λ s. s.actions) (map statement_value ss) ≡ ok (map (λ s. s.actions) ss))
      × (spread_each (λ s. s.resources) (map statement_value ss) ≡ ok (map (λ s. s.resources) ss))
unfolding spread_each spread
spread_each-value [] = (refl, refl)
spread_each-value (s ∷ ss) = let (a, r) = spread_each-value ss in (rw a refl, rw r refl)

module _ (to_lower : Text → Text) (given : PolicyDialogData) (stringify : Policy → Text)
    (parse : Text → Outcome PolicyValue) where
  abbrev pub toggle : PolicyDialog → PolicyDialog
  toggle d = toggle_policy_json to_lower given stringify parse d

  to_json :
      (d : PolicyDialog)
      → d.json_mode ≡ false
      → toggle d ≡ record d {
        json_text = stringify (build_policy_from_form given d);
        json_error = [];
        json_mode = true;
      }
  unfolding toggle_policy_json
  to_json d m = rw m refl

  -- The form after the JSON of a policy has been read.
  abbrev filled : Policy → PolicyDialog → PolicyDialog
  filled p d = record (patch_policy to_lower given (value_of p) d) {
    stmt_actions = map (λ s. s.actions) p.statements;
    stmt_resources = map (λ s. s.resources) p.statements;
    json_error = [];
    json_mode = false;
  }

  chips_loaded-value :
      (ss : List Statement) (d : PolicyDialog)
      → chips_loaded (some (map statement_value ss)) d ≡ (
        ok tt,
        record d {
          stmt_actions = map (λ s. s.actions) ss;
          stmt_resources = map (λ s. s.resources) ss;
        },
      )
  unfolding chips_loaded actions_loaded resources_loaded
  chips_loaded-value ss d = let (a, r) = spread_each-value ss in rw (a, r) refl

  toggle_of_json :
      (d : PolicyDialog)
      → d.json_mode ≡ true
      → toggle d ≡ policy_parsed to_lower given stringify parse (parse d.json_text) d
  unfolding toggle_policy_json
  toggle_of_json d m =
      if_both
        (λ (e : PolicyDialog).
          e ≡ policy_parsed to_lower given stringify parse (parse d.json_text) d)
        (not d.json_mode) (λ e. absurd (cc (sym e ∙ ap not m))) (λ e. refl)

  parsed_value :
      (d : PolicyDialog) (p : Policy)
      → policy_parsed to_lower given stringify parse (ok (value_of p)) d
        ≡ record (filled p d) { json_mode = not d.json_mode }
  unfolding policy_parsed load_policy_into_form policy_loaded patch_policy account_reported
  parsed_value d p =
      ap (λ q. policy_loaded to_lower given stringify parse q.0 q.1)
        (chips_loaded-value p.statements (patch_policy to_lower given (value_of p) d))

  of_json :
      (d : PolicyDialog) (p : Policy)
      → d.json_mode ≡ true
      → parse d.json_text ≡ ok (value_of p)
      → toggle d ≡ filled p d
  of_json d p m h =
      toggle_of_json d m
      ∙ ap (λ o. policy_parsed to_lower given stringify parse o d) h
      ∙ parsed_value d p
      ∙ ap (λ b. record (filled p d) { json_mode = not b }) m

  -- Going to the JSON and back leaves the name, the account and the chips as they were, in form mode
  -- and without an error, where the JSON of the form is read back as it was written and there are as many lists of
  -- actions as of resources.
  pub toggle_policy_json-twice :
      (d : PolicyDialog)
      → parse (stringify (build_policy_from_form given d))
        ≡ ok (value_of (build_policy_from_form given d))
      → d.json_mode ≡ false
      → IsAligned d
      → ((toggle (toggle d)).form.name ≡ d.form.name)
        × ((toggle (toggle d)).form.account ≡ d.form.account)
        × ((toggle (toggle d)).stmt_actions ≡ d.stmt_actions)
        × ((toggle (toggle d)).stmt_resources ≡ d.stmt_resources)
        × ((toggle (toggle d)).json_mode ≡ false)
        × ((toggle (toggle d)).json_error ≡ [])
  unfolding patch_policy account_reported build_policy_from_form
  toggle_policy_json-twice d back m h =
      let p = build_policy_from_form given d in
      let e : PolicyDialog = record d {
        json_text = stringify p;
        json_error = [];
        json_mode = true;
      } in
      let (a, r) = map-build_statements d.stmt_actions d.stmt_resources h in
      rw (to_json d m) (rw (of_json e p refl back) (refl, refl, a, r, refl, refl))
