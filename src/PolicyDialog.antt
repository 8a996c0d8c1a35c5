-- ===== src/PolicyDialog.antt =====
-- The dialog that makes and edits a policy: ctrlp/src/app/pages/policies/policy-dialog.component.ts.
-- The form is the values of its controls, and `closed` is what the dialog was closed with.
-- `toLowerCase` and `JSON` are arguments; the name and the account of a parsed policy are texts, and
-- what else it holds may fail to be a policy. The template gives only the indexes of statements; an
-- index past them, which would end a handler by an error, leaves the lists as they are.
pub mod Chips
pub mod Editing
pub mod Saving
pub mod Switching
pub mod Tidy
use nauts.Base.{
  ℕ, zero, suc, Bool, true, false, not, ◌&&◌, ◌||◌, Option, none, some, List, [], ◌∷◌, ◌++◌, map,
  if◌then◌else◌, filter, any, all, is_nonempty, is_some, get_elem?,
}
use nauts.Base.Text.{is_empty, Text, codes, ◌==◌, includes, trim}
use nauts.Models.{Statement, Policy}
use nauts.Thrown.{Thrown, error, Outcome, ok, throw, message_of}
use nauts.KvKeys.{global_prefix}
use nauts.PolicyStore.{includes_text}
use nauts.ResourceValidator.{validate_resource}
use nauts.Validators.{is_blank}
use nauts.BindingDialog.{Mode, create_mode, edit_mode, error_text}

abbrev pub valid_actions : List Text
valid_actions =
    codes "nats.pub"
    ∷ codes "nats.sub"
    ∷ codes "nats.service"
    ∷ codes "nats.*"
    ∷ codes "js.manage"
    ∷ codes "js.view"
    ∷ codes "js.consume"
    ∷ codes "js.*"
    ∷ codes "kv.read"
    ∷ codes "kv.edit"
    ∷ codes "kv.view"
    ∷ codes "kv.manage"
    ∷ codes "kv.*"
    ∷ []

-- `PolicyDialogData`
pub record PolicyDialogData : Type 0 where
  pub mode : Mode
  pub policy : Option Policy
  pub accounts : List Text
  pub current_account : Text

pub record PolicyForm : Type 0 where
  pub name : Text
  pub is_global : Bool
  pub account : Text
  pub account_disabled : Bool

pub record PolicyDialog : Type 0 where
  pub form : PolicyForm
  pub filtered_accounts : List Text
  pub action_input_value : Text
  pub stmt_actions : List (List Text)
  pub stmt_resources : List (List Text)
  pub json_mode : Bool
  pub json_text : Text
  pub json_error : Text
  pub closed : Option Policy

-- `lists[i] = change(lists[i])`
unfoldable pub update_at {ℓ} : {A : Type ℓ} → (A → A) → ℕ → List A → List A
update_at change i [] = []
update_at change zero (x ∷ xs) = change x ∷ xs
update_at change (suc i) (x ∷ xs) = x ∷ update_at change i xs

-- `lists.splice(i, 1)`
unfoldable pub remove_at {ℓ} : {A : Type ℓ} → ℕ → List A → List A
remove_at i [] = []
remove_at zero (x ∷ xs) = xs
remove_at (suc i) (x ∷ xs) = x ∷ remove_at i xs

-- `if (!list.includes(value)) list.push(value)`
unfoldable pub push_new : Text → List Text → List Text
push_new value values = if includes_text value values then values else values ++ (value ∷ [])

-- `values.filter(v => v !== value)`
unfoldable pub without : Text → List Text → List Text
without value values = filter (λ v. not (v == value)) values

abbrev pub add_statement : PolicyDialog → PolicyDialog
add_statement d = record d {
  stmt_actions = d.stmt_actions ++ ([] ∷ []);
  stmt_resources = d.stmt_resources ++ ([] ∷ []);
}

unfoldable pub remove_statement : ℕ → PolicyDialog → PolicyDialog
remove_statement i d = record d {
  stmt_actions = remove_at i d.stmt_actions;
  stmt_resources = remove_at i d.stmt_resources;
}

abbrev pub or_nil : Option (List Text) → List Text
or_nil none = []
or_nil (some values) = values

unfoldable pub get_filtered_actions : (Text → Text) → ℕ → PolicyDialog → List Text
get_filtered_actions to_lower i d =
    let selected = or_nil (get_elem? d.stmt_actions i) in
    filter
      (λ a. not (includes_text a selected) && includes (to_lower a) (to_lower d.action_input_value))
      valid_actions

-- The trimmed input is one of the actions.
unfoldable pub is_action : Text → Bool
is_action value = not (is_empty value) && includes_text value valid_actions

unfoldable pub add_action : ℕ → Text → PolicyDialog → PolicyDialog
unfolding is_action push_new
add_action i event_value d =
    let value = trim event_value in
    record d {
      stmt_actions =
          if is_action value then update_at (push_new value) i d.stmt_actions else d.stmt_actions;
      action_input_value = [];
    }

-- The option of the list of `getFilteredActions` that is chosen.
unfoldable pub on_action_selected : ℕ → Text → PolicyDialog → PolicyDialog
on_action_selected i value d = record d {
  stmt_actions = update_at (push_new value) i d.stmt_actions;
  action_input_value = [];
}

unfoldable pub remove_action : ℕ → Text → PolicyDialog → PolicyDialog
remove_action i action d = record d { stmt_actions = update_at (without action) i d.stmt_actions }

unfoldable pub add_resource : ℕ → Text → PolicyDialog → PolicyDialog
add_resource i event_value d =
    let value = trim event_value in
    record d {
      stmt_resources =
          if is_empty value
          then d.stmt_resources
          else update_at (push_new value) i d.stmt_resources;
    }

unfoldable pub remove_resource : ℕ → Text → PolicyDialog → PolicyDialog
remove_resource i resource d = record d {
  stmt_resources = update_at (without resource) i d.stmt_resources;
}

unfoldable pub has_invalid_resources_at : ℕ → PolicyDialog → Bool
has_invalid_resources_at i d =
    any (λ r. is_some (validate_resource r)) (or_nil (get_elem? d.stmt_resources i))

-- The form is complete: `isValid`.
unfoldable pub is_valid : PolicyDialog → Bool
is_valid d =
    not (is_blank (some d.form.name))
    && (not (is_blank (some d.form.account))
        && (is_nonempty d.stmt_actions
            && (all is_nonempty d.stmt_actions && all is_nonempty d.stmt_resources)))

-- The statements of the form. The two lists are of one length; a statement without its resources
-- has none.
unfoldable pub build_statements : List (List Text) → List (List Text) → List Statement
build_statements [] resources = []
build_statements (a ∷ actions) [] =
    record { effect = codes "allow"; actions = a; resources = [] } ∷ build_statements actions []
build_statements (a ∷ actions) (r ∷ resources) =
    record { effect = codes "allow"; actions = a; resources = r }
    ∷ build_statements actions resources

-- `s.actions` or `s.resources` of a parsed statement: none is taken for an empty list, and what is
-- no list cannot be spread.
pub data ChipsValue : Type 0 where
  absent : ChipsValue
  listed : List Text → ChipsValue
  not_iterable : ChipsValue

pub record StatementValue : Type 0 where
  pub actions : ChipsValue
  pub resources : ChipsValue

-- What `JSON.parse` gives, as far as the dialog reads it: `statements` is `none` where it is no
-- array, and `value` is the whole, taken for a policy without a check.
pub record PolicyValue : Type 0 where
  pub name : Text
  pub account : Text
  pub statements : Option (List StatementValue)
  pub value : Policy

abbrev pub no_array : Thrown
no_array = error (codes "policy.statements.map is not a function")

abbrev pub no_list : Thrown
no_list = error (codes "value is not iterable")

-- `[...(chips || [])]`
unfoldable pub spread : ChipsValue → Outcome (List Text)
spread absent = ok []
spread (listed values) = ok values
spread not_iterable = throw no_list

-- The lists as they are mapped, up to the first error.
unfoldable pub with_lists :
    Outcome (List Text) → Outcome (List (List Text)) → Outcome (List (List Text))
with_lists (throw err) rest = throw err
with_lists (ok values) (throw err) = throw err
with_lists (ok values) (ok lists) = ok (values ∷ lists)

unfoldable pub spread_each :
    (StatementValue → ChipsValue) → List StatementValue → Outcome (List (List Text))
unfolding spread with_lists
spread_each part [] = ok []
spread_each part (s ∷ ss) = with_lists (spread (part s)) (spread_each part ss)

unfoldable pub resources_loaded :
    Outcome (List (List Text)) → PolicyDialog → Outcome Unit × PolicyDialog
resources_loaded (throw err) d = (throw err, d)
resources_loaded (ok lists) d = (ok tt, record d { stmt_resources = lists })

-- The actions are set before the resources are read.
unfoldable pub actions_loaded :
    Outcome (List (List Text))
    → Outcome (List (List Text))
    → PolicyDialog
    → Outcome Unit × PolicyDialog
unfolding resources_loaded
actions_loaded (throw err) resources d = (throw err, d)
actions_loaded (ok lists) resources d =
    resources_loaded resources (record d { stmt_actions = lists })

unfoldable pub chips_loaded :
    Option (List StatementValue) → PolicyDialog → Outcome Unit × PolicyDialog
unfolding actions_loaded spread_each
chips_loaded none d = (throw no_array, d)
chips_loaded (some ss) d =
    actions_loaded (spread_each (λ s. s.actions) ss) (spread_each (λ s. s.resources) ss) d

abbrev pub given_id : Option Policy → Text
given_id none = []
given_id (some p) = p.id

abbrev pub given_statements : Option Policy → List Statement
given_statements none = []
given_statements (some p) = p.statements

abbrev pub given_name : Option Policy → Text
given_name none = []
given_name (some p) = p.name

abbrev pub given_global : Option Policy → Bool
given_global none = false
given_global (some p) = p.account == global_prefix

abbrev pub is_edit : Mode → Bool
is_edit create_mode = false
is_edit edit_mode = true

abbrev pub or_one_empty : List (List Text) → List (List Text)
or_one_empty [] = [] ∷ []
or_one_empty (x ∷ xs) = x ∷ xs

module _ (given : PolicyDialogData) where
  abbrev pub given_account : Option Policy → Text
  given_account none = given.current_account
  given_account (some p) = if is_empty p.account then given.current_account else p.account

  -- `ngOnInit`. Without a policy, or with one that has no statements, there is one empty statement.
  unfoldable pub dialog_opened : PolicyDialog
  dialog_opened =
      let is_global = given_global given.policy in
      record {
        form = record {
          name = given_name given.policy;
          is_global = is_global;
          account = given_account given.policy;
          account_disabled = is_edit given.mode || is_global;
        };
        filtered_accounts = given.accounts;
        action_input_value = [];
        stmt_actions = or_one_empty (map (λ s. s.actions) (given_statements given.policy));
        stmt_resources = or_one_empty (map (λ s. s.resources) (given_statements given.policy));
        json_mode = false;
        json_text = [];
        json_error = [];
        closed = none;
      }

  unfoldable pub build_policy_from_form : PolicyDialog → Policy
  unfolding build_statements
  build_policy_from_form d = record {
    id = given_id given.policy;
    account = d.form.account;
    name = d.form.name;
    statements = build_statements d.stmt_actions d.stmt_resources;
  }

  -- The ID of the policy that is edited is kept.
  unfoldable pub keep_id : Policy → Policy
  keep_id p =
      if is_empty (given_id given.policy) then p else record p { id = given_id given.policy }

module _ (to_lower : Text → Text) (given : PolicyDialogData) where
  -- The subscription to the account, which each change of its control calls.
  unfoldable pub account_reported : Text → PolicyDialog → PolicyDialog
  account_reported val d = record d {
    form = record d.form { account = val };
    filtered_accounts = filter (λ a. includes (to_lower a) (to_lower val)) given.accounts;
  }

  -- Setting the control, and telling it that it is disabled or not, both report its value.
  unfoldable pub account_enabled : Bool → PolicyDialog → PolicyDialog
  unfolding account_reported
  account_enabled enabled d =
      account_reported d.form.account
        (record d { form = record d.form { account_disabled = not enabled } })

  unfoldable pub on_global_change : PolicyDialog → PolicyDialog
  unfolding account_enabled
  on_global_change d =
      if d.form.is_global
      then account_enabled false (account_reported global_prefix d)
      else account_enabled true
          (if d.form.account == global_prefix then account_reported given.current_account d else d)

  -- Patching the form sets the name, the toggle and the account, which the subscription hears of.
  unfoldable pub patch_policy : PolicyValue → PolicyDialog → PolicyDialog
  unfolding account_reported
  patch_policy p d =
      account_reported p.account (record d {
        form = record d.form { name = p.name; is_global = p.account == global_prefix };
      })

  -- An error on the way leaves what was set before it.
  unfoldable pub load_policy_into_form : PolicyValue → PolicyDialog → Outcome Unit × PolicyDialog
  unfolding patch_policy chips_loaded
  load_policy_into_form p d = chips_loaded p.statements (patch_policy p d)

  module _ (stringify : Policy → Text) (parse : Text → Outcome PolicyValue) where
    unfoldable pub policy_loaded : Outcome Unit → PolicyDialog → PolicyDialog
    policy_loaded (ok u) d = record d { json_error = []; json_mode = not d.json_mode }
    policy_loaded (throw err) d = record d { json_error = error_text (message_of err) }

    unfoldable pub policy_parsed : Outcome PolicyValue → PolicyDialog → PolicyDialog
    unfolding load_policy_into_form policy_loaded
    policy_parsed (ok p) d = let (r, e) = load_policy_into_form p d in policy_loaded r e
    policy_parsed (throw err) d = record d { json_error = error_text (message_of err) }

    unfoldable pub toggle_policy_json : PolicyDialog → PolicyDialog
    unfolding policy_parsed build_policy_from_form
    toggle_policy_json d =
        if not d.json_mode
        then record d {
          json_text = stringify (build_policy_from_form given d);
          json_error = [];
          json_mode = not d.json_mode;
        }
        else policy_parsed (parse d.json_text) d

    unfoldable pub policy_json_saved : Outcome PolicyValue → PolicyDialog → PolicyDialog
    unfolding keep_id
    policy_json_saved (ok p) d = record d { closed = some (keep_id given p.value) }
    policy_json_saved (throw err) d = record d { json_error = error_text (message_of err) }

    unfoldable pub save_policy : PolicyDialog → PolicyDialog
    unfolding policy_json_saved is_valid build_policy_from_form
    save_policy d =
        if d.json_mode
        then policy_json_saved (parse d.json_text) d
        else if not (is_valid d)
        then d
        else record d { closed = some (build_policy_from_form given d) }
