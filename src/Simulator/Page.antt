-- ===== src/Simulator/Page.antt =====
-- The state of the simulator page: the accounts and roles on offer, the form, and a simulation. The
-- request to the server, its answer with the error that it may carry, and the local storage enter as
-- arguments; `saved` is what the storage holds.
use nauts.Base.{
  Bool, true, false, not, ◌&&◌, Option, none, some, List, [], ◌∷◌, ◌++◌, map, if◌then◌else◌,
}
use nauts.Base.Text.{Text, codes, is_empty}
use nauts.Models.{BindingEntry}
use nauts.Thrown.{Outcome, ok, throw, message_of}
use nauts.NatsService.{Connection, not_connected}
use nauts.AccountService.{add_to_set, sort_texts}
use nauts.PolicyStore.{includes_text, Store, list_all_bindings}
use nauts.Simulator.{role_text, parse_role, can_simulate}

-- `DebugRequest`, with the user taken apart
pub record DebugRequest : Type 0 where
  pub user_id : Text
  pub roles : List (Text × Option Text)
  pub account : Text

pub record SimulatorPage (R : Type 0) : Type 0 where
  pub user_name : Text
  pub target_account : Text
  pub selected_roles : List Text
  pub available_accounts : List Text
  pub available_roles : List Text
  pub loading : Bool
  pub response : Option R
  pub message : Option Text
  pub saved : Option (Text × Text × List Text × Option R)

unfoldable pub account_set : List BindingEntry → List Text → List Text
account_set [] set = set
account_set (e ∷ es) set = account_set es (add_to_set e.binding.account set)

unfoldable pub role_set : List BindingEntry → List Text → List Text
role_set [] set = set
role_set (e ∷ es) set = role_set es (add_to_set (role_text e) set)

-- The account of the navigation if it is on offer, or else the first one on offer, if any.
unfoldable pub default_account : Text → List Text → Text → Text
default_account account [] target = target
default_account account (first ∷ rest) target =
    if not (is_empty account) && includes_text account (first ∷ rest) then account else first

abbrev pub done_message : Option Text → Text
done_message none = codes "Simulation completed successfully"
done_message (some m) = codes "Simulation failed: " ++ m

module _ {R : Type 0} where
  -- `loadAccountsAndRoles`, once the store is there
  unfoldable pub load_accounts_and_roles : Store → SimulatorPage R → SimulatorPage R
  unfolding account_set role_set
  load_accounts_and_roles s p = record p {
    available_accounts = sort_texts (account_set (list_all_bindings s) []);
    available_roles = sort_texts (role_set (list_all_bindings s) []);
  }

  unfoldable pub clear_form : SimulatorPage R → SimulatorPage R
  clear_form p = record p { user_name = []; selected_roles = []; response = none; saved = none }

  unfoldable pub request_of : SimulatorPage R → DebugRequest
  request_of p = record {
    user_id = p.user_name;
    roles = map parse_role p.selected_roles;
    account = p.target_account;
  }

  -- What follows the answer; `error_of` is the message of the error in it.
  unfoldable pub answered : (R → Option Text) → Outcome R → SimulatorPage R → SimulatorPage R
  answered error_of (ok r) p = record p {
    response = some r;
    saved = some (p.user_name, p.target_account, p.selected_roles, some r);
    message = some (done_message (error_of r));
    loading = false;
  }
  answered error_of (throw err) p = record p {
    message =
        some (elim (message_of err) [ none ↦ codes "Simulation request failed" | some m ↦ m ]);
    loading = false;
  }

  abbrev pub requested :
      (Connection → DebugRequest → Outcome R) → Option Connection → DebugRequest → Outcome R
  requested send none request = throw not_connected
  requested send (some c) request = send c request

  unfoldable pub simulate :
      (Connection → DebugRequest → Outcome R)
      → (R → Option Text)
      → Option Connection
      → SimulatorPage R
      → SimulatorPage R
  unfolding answered request_of
  simulate send error_of connection p =
      if not (can_simulate p.user_name p.target_account p.selected_roles)
      then p
      else answered error_of (requested send connection (request_of p))
          (record p { loading = true; response = none })

  -- The page with a saved state; what the storage lacks reads as empty.
  unfoldable pub restored : Text × Text × List Text × Option R → SimulatorPage R → SimulatorPage R
  restored (user_name, target_account, selected_roles, response) p = record p {
    user_name = user_name;
    target_account = target_account;
    selected_roles = selected_roles;
    response = response;
  }

  -- The subscription to the account of the navigation, which is made where there is no saved state.
  unfoldable pub account_told : Text → SimulatorPage R → SimulatorPage R
  unfolding default_account
  account_told account p = record p {
    target_account = default_account account p.available_accounts p.target_account;
  }

  unfoldable pub restored_or_default : Text → SimulatorPage R → SimulatorPage R
  unfolding restored account_told
  restored_or_default account p = elim p.saved [
    | none ↦ record (account_told account p) { user_name = codes "alice" }
    | some state ↦ restored state p
  ]

  -- `ngOnInit`, once the store is there
  unfoldable pub simulator_opened : Text → Store → SimulatorPage R → SimulatorPage R
  unfolding load_accounts_and_roles restored_or_default
  simulator_opened account s p = restored_or_default account (load_accounts_and_roles s p)

  unfoldable pub get_raw_response : (R → Text) → SimulatorPage R → Text
  get_raw_response stringify p = elim p.response [ none ↦ [] | some r ↦ stringify r ]

-- An entry of the list of subjects that are allowed: the server may write its property either way.
pub record SubjectEntry : Type 0 where
  pub subject : Option Text
  pub upper_subject : Option Text

pub record CompilationResult : Type 0 where
  pub pub_allow : List SubjectEntry
  pub sub_allow : List SubjectEntry

abbrev pub nonempty_text : Option Text → Option Text
nonempty_text none = none
nonempty_text (some []) = none
nonempty_text (some (c ∷ t)) = some (c ∷ t)

-- `p.subject || p.Subject`, kept where it is not empty
unfoldable pub subject_of : SubjectEntry → Option Text
subject_of entry = elim (nonempty_text entry.subject) [
  | some t ↦ some t
  | none ↦ nonempty_text entry.upper_subject
]

unfoldable pub subjects_of : List SubjectEntry → List Text
unfolding subject_of
subjects_of [] = []
subjects_of (e ∷ entries) =
    let rest = subjects_of entries in elim (subject_of e) [ none ↦ rest | some t ↦ t ∷ rest ]

module _ {R : Type 0} (result_of : R → Option CompilationResult) where
  unfoldable pub response_result : SimulatorPage R → Option CompilationResult
  response_result p = elim p.response [ none ↦ none | some r ↦ result_of r ]

  unfoldable pub get_publish_subjects : SimulatorPage R → List Text
  unfolding subjects_of response_result
  get_publish_subjects p = elim (response_result p) [
    | none ↦ []
    | some result ↦ subjects_of result.pub_allow
  ]

  unfoldable pub get_subscribe_subjects : SimulatorPage R → List Text
  unfolding subjects_of response_result
  get_subscribe_subjects p = elim (response_result p) [
    | none ↦ []
    | some result ↦ subjects_of result.sub_allow
  ]
