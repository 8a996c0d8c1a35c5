-- ===== src/BindingDialog.antt =====
-- The dialog that makes and edits a binding: ctrlp/src/app/pages/bindings/binding-dialog.component.ts.
-- The form is the values of its controls; `closed` is what the dialog was closed with. `toLowerCase`,
-- `JSON` and the validity of the form, which the framework computes, are arguments.
pub mod Markers
pub mod Modes
use nauts.Base.{
  Bool, true, false, not, Option, none, some, List, [], ◌∷◌, map, if◌then◌else◌, filter, find, any,
}
use nauts.Base.Text.{is_empty, Text, codes, ◌==◌, includes, trim}
use nauts.Models.{PolicyEntry, Binding}
use nauts.Thrown.{Thrown, Outcome, ok, throw, message_of}
use nauts.KvKeys.{global_prefix, strip_global_prefix, add_global_prefix}

pub data Mode : Type 0 where
  create_mode edit_mode : Mode

-- `BindingDialogData`
pub record DialogData : Type 0 where
  pub mode : Mode
  pub binding : Option Binding
  pub accounts : List Text
  pub all_policy_entries : List PolicyEntry
  pub current_account : Text

pub record BindingForm : Type 0 where
  pub role : Text
  pub account : Text
  pub policies : List Text

pub record BindingDialog : Type 0 where
  pub form : BindingForm
  pub filtered_accounts : List Text
  pub account_specific_policies : List PolicyEntry
  pub global_policies : List PolicyEntry
  pub json_mode : Bool
  pub json_text : Text
  pub json_error : Text
  pub closed : Option Binding

-- `err instanceof Error ? err.message : 'Invalid JSON'`
abbrev pub error_text : Option Text → Text
error_text none = codes "Invalid JSON"
error_text (some m) = m

module _ (given : DialogData) where
  unfoldable pub update_available_policies : Text → BindingDialog → BindingDialog
  update_available_policies account d = record d {
    account_specific_policies = filter (λ p. p.policy.account == account) given.all_policy_entries;
    global_policies = filter (λ p. p.policy.account == global_prefix) given.all_policy_entries;
  }

  -- The test of `buildBindingFromForm`: the first policy with the ID is a global one.
  unfoldable pub is_global_policy : Text → Bool
  is_global_policy policy_id =
      elim (find (λ p. p.policy.id == policy_id) given.all_policy_entries) [
        | none ↦ false
        | some p ↦ p.policy.account == global_prefix
      ]

  unfoldable pub mark_policy : Text → Text
  unfolding is_global_policy
  mark_policy policy_id =
      if is_global_policy policy_id then add_global_prefix policy_id else policy_id

  unfoldable pub build_binding_from_form : BindingForm → Binding
  unfolding mark_policy
  build_binding_from_form f = record {
    role = f.role;
    account = f.account;
    policies = map mark_policy f.policies;
  }

  unfoldable pub form_of : Binding → BindingForm
  form_of b = record {
    role = b.role;
    account = b.account;
    policies = map strip_global_prefix b.policies;
  }

  -- `binding?.account || currentAccount`
  abbrev pub first_account : Option Binding → Text
  first_account none = given.current_account
  first_account (some b) = if is_empty b.account then given.current_account else b.account

  abbrev pub first_form : Option Binding → BindingForm
  first_form none = record { role = []; account = given.current_account; policies = [] }
  first_form (some b) = record {
    role = b.role;
    account = first_account (some b);
    policies = map strip_global_prefix b.policies;
  }

  -- `ngOnInit`
  unfoldable pub opened : BindingDialog
  unfolding update_available_policies
  opened = update_available_policies (first_account given.binding) (record {
    form = first_form given.binding;
    filtered_accounts = given.accounts;
    account_specific_policies = [];
    global_policies = [];
    json_mode = false;
    json_text = [];
    json_error = [];
    closed = none;
  })

  -- The subscription to the account: a known account empties the choice of policies.
  unfoldable pub account_changed : (Text → Text) → Text → BindingDialog → BindingDialog
  unfolding update_available_policies
  account_changed to_lower val d =
      let account = trim val in
      let form = d.form in
      if not (is_empty account)
      then (if any (λ a. a == account) given.accounts
          then record (update_available_policies account
              (record d { form = record form { account = val; policies = [] } })) {
                filtered_accounts = given.accounts;
              }
          else record d {
            form = record form { account = val };
            filtered_accounts =
                filter (λ a. includes (to_lower a) (to_lower account)) given.accounts;
          })
      else record d {
        form = record form { account = val };
        filtered_accounts = filter (λ a. includes (to_lower a) (to_lower account)) given.accounts;
      }

  -- Patching the form sets the role, the account, which the subscription hears of, and the policies.
  unfoldable pub load_binding_into_form : (Text → Text) → Binding → BindingDialog → BindingDialog
  unfolding form_of update_available_policies account_changed
  load_binding_into_form to_lower b d =
      let e = account_changed to_lower b.account d in
      let patched = record e { form = form_of b } in
      if is_empty b.account then patched else update_available_policies b.account patched

  module _ (to_lower : Text → Text) (stringify : Binding → Text)
      (parse : Text → Outcome Binding) where
    unfoldable pub from_json : Outcome Binding → BindingDialog → BindingDialog
    from_json (ok b) d = record (load_binding_into_form to_lower b d) {
      json_error = [];
      json_mode = not d.json_mode;
    }
    from_json (throw err) d = record d { json_error = error_text (message_of err) }

    unfoldable pub toggle_json_mode : BindingDialog → BindingDialog
    unfolding from_json build_binding_from_form
    toggle_json_mode d =
        if not d.json_mode
        then record d {
          json_text = stringify (build_binding_from_form d.form);
          json_error = [];
          json_mode = not d.json_mode;
        }
        else from_json (parse d.json_text) d

    unfoldable pub saved_json : Outcome Binding → BindingDialog → BindingDialog
    saved_json (ok b) d = record d { closed = some b }
    saved_json (throw err) d = record d { json_error = error_text (message_of err) }

    unfoldable pub save : (BindingForm → Bool) → BindingDialog → BindingDialog
    unfolding saved_json build_binding_from_form
    save is_valid d =
        if d.json_mode
        then saved_json (parse d.json_text) d
        else if not (is_valid d.form)
        then d
        else record d { closed = some (build_binding_from_form d.form) }
