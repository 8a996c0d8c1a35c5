-- ===== src/Tests/Editors.antt =====
-- The theorems on the dialog of policies at concrete inputs.
use nauts.Base.{◌≡◌, ◌≢◌, ◌⊎◌, refl, false, none, some, []}
use nauts.Base.Text.{Text, codes}
use nauts.Models.{Policy}
use nauts.Thrown.{Outcome, ok}
use nauts.Validators.{validate_policy}
use nauts.BindingDialog.{create_mode, edit_mode}
use nauts.PolicyDialog.{
  PolicyDialogData, PolicyDialog, dialog_opened, add_statement, add_resource,
  build_policy_from_form, build_statements, save_policy, toggle_policy_json, PolicyValue,
  policy_parsed, load_policy_into_form, chips_loaded, actions_loaded, resources_loaded, spread_each,
  with_lists, spread, policy_loaded, patch_policy, account_reported,
}
use nauts.PolicyDialog.Editing.{
  IsAligned, untouched, edited, statement_added, resource_added, none_yet, then_one, edit,
  json_toggled, Events-IsFormAligned,
}
use nauts.PolicyDialog.Tidy.{IsTidy, Edits-IsTidy}
use nauts.PolicyDialog.Saving.{partial_policy, save_policy-form}
use nauts.PolicyDialog.Switching.{value_of, toggle, toggle_policy_json-twice}
use nauts.Tests.Data.{acme, reader}
use nauts.Tests.Sessions.{lower}

abbrev fresh : PolicyDialogData
fresh = record { mode = create_mode; policy = none; accounts = []; current_account = acme }

abbrev of_reader : PolicyDialogData
of_reader = record { mode = edit_mode; policy = some reader; accounts = []; current_account = acme }

abbrev write_name : Policy → Text
write_name p = p.name

abbrev read_reader : Text → Outcome PolicyValue
read_reader t = ok (value_of reader)

abbrev two : PolicyDialog
two = add_resource 1 (codes " nats:a ") (add_statement (dialog_opened fresh))

Edits-IsTidy_example : IsTidy two
Edits-IsTidy_example =
    Edits-IsTidy lower fresh refl
      (edited (edited untouched statement_added) (resource_added 1 (codes " nats:a ")))

-- Back from the JSON of the reader.
Events-IsFormAligned_example :
    let d = add_statement (dialog_opened fresh) in
    IsAligned (
      toggle_policy_json lower fresh write_name read_reader
        (toggle_policy_json lower fresh write_name read_reader d))
Events-IsFormAligned_example =
    Events-IsFormAligned lower fresh write_name read_reader
      (then_one (then_one (then_one none_yet (edit statement_added)) json_toggled) json_toggled)
      (unfold toggle_policy_json dialog_opened policy_parsed load_policy_into_form chips_loaded
          actions_loaded resources_loaded spread_each with_lists spread policy_loaded patch_policy
          account_reported in
        refl)

reader-IsAligned : IsAligned (dialog_opened of_reader)
unfolding dialog_opened
reader-IsAligned = refl

save_policy-form_example :
    let d = dialog_opened of_reader in
    let p = build_policy_from_form of_reader d in
    ((validate_policy (partial_policy p) ≡ [])
      × (save_policy lower of_reader write_name read_reader d ≡ record d { closed = some p }))
    ⊎ ((validate_policy (partial_policy p) ≢ [])
        × (save_policy lower of_reader write_name read_reader d ≡ d))
save_policy-form_example =
    save_policy-form of_reader lower write_name read_reader (dialog_opened of_reader)
      reader-IsAligned (unfold dialog_opened in refl)

toggle_policy_json-twice_example :
    let d = dialog_opened of_reader in
    let e =
      toggle lower of_reader write_name read_reader
        (toggle lower of_reader write_name read_reader d) in
    (e.form.name ≡ d.form.name)
    × (e.form.account ≡ d.form.account)
    × (e.stmt_actions ≡ d.stmt_actions)
    × (e.stmt_resources ≡ d.stmt_resources)
    × (e.json_mode ≡ false)
    × (e.json_error ≡ [])
toggle_policy_json-twice_example =
    toggle_policy_json-twice lower of_reader write_name read_reader (dialog_opened of_reader)
      (unfold build_policy_from_form build_statements dialog_opened in refl)
      (unfold dialog_opened in refl) reader-IsAligned
