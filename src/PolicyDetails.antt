-- ===== src/PolicyDetails.antt =====
-- The details of a policy: ctrlp/src/app/pages/policies/policy-details.component.ts.
pub mod Related
pub mod Mismatch
use nauts.Base.{
  ℕ, Bool, true, false, not, ◌&&◌, ◌||◌, Option, none, some, List, [], ◌∷◌, ◌++◌, if◌then◌else◌,
  filter, length,
}
use nauts.Base.Sort.{sort_by, later}
use nauts.Base.Text.{is_empty, Text, codes, ◌==◌}
use nauts.Base.Dict
use nauts.Base.Dict.{Dict}
use nauts.Models.{PolicyEntry, BindingEntry}
use nauts.KvKeys.{global_prefix}
use nauts.ResourceValidator.{validate_policy_resources}
use nauts.PolicyStore.{Store, get_bindings_for_policy}
use nauts.BindingDetails.{join_messages}

pub record PolicyDetails : Type 0 where
  pub entry : Option PolicyEntry
  pub resource_errors : Dict Text
  pub related_bindings : List BindingEntry
  pub current_account : Text
  pub current_policy_id : Text

unfoldable pub is_binding_from_other_account : Text → BindingEntry → Bool
is_binding_from_other_account current b =
    not (is_empty current) && not (b.binding.account == current)

-- The comparator is 0 for two bindings that are both from another account or both not, and else puts
-- the one from another account last.
unfoldable pub related_of : Text → Option PolicyEntry → Store → List BindingEntry
unfolding is_binding_from_other_account
related_of current none s = []
related_of current (some e) s =
    sort_by (later (is_binding_from_other_account current)) (get_bindings_for_policy e.policy.id s)

unfoldable pub load_related_bindings : Store → PolicyDetails → PolicyDetails
unfolding related_of
load_related_bindings s d = record d { related_bindings = related_of d.current_account d.entry s }

-- The subscription to the route, in `ngOnInit`.
unfoldable pub details_routed : Text → Text → Store → PolicyDetails → PolicyDetails
unfolding load_related_bindings
details_routed account id s d =
    load_related_bindings s (record d { current_account = account; current_policy_id = id })

-- `ngOnChanges`, with the entry that is given.
unfoldable pub entry_changed : Option PolicyEntry → Store → PolicyDetails → PolicyDetails
unfolding load_related_bindings
entry_changed none s d = record d { entry = none; resource_errors = []; related_bindings = [] }
entry_changed (some e) s d =
    load_related_bindings s
      (record d { entry = some e; resource_errors = validate_policy_resources e.policy.statements })

unfoldable pub get_current_account_binding_count : PolicyDetails → ℕ
get_current_account_binding_count d =
    length
      (filter (λ b. not (is_binding_from_other_account d.current_account b)) d.related_bindings)

unfoldable pub has_policy_key_mismatch : PolicyDetails → Bool
has_policy_key_mismatch d = elim d.entry [
  | none ↦ false
  | some e ↦
      if is_empty d.current_account || is_empty d.current_policy_id
      then false
      else (not (e.policy.account == d.current_account) && not (e.policy.account == global_prefix))
        || not (e.policy.id == d.current_policy_id)
]

abbrev pub policy_mismatch : Text → Text → Text → List Text
policy_mismatch label held used =
    if not (held == used)
    then (label
        ++ (codes " mismatch: policy has \""
            ++ (held ++ (codes "\" but KV key uses \"" ++ (used ++ codes "\"")))))
      ∷ []
    else []

unfoldable pub get_policy_mismatch_message : PolicyDetails → Text
unfolding join_messages
get_policy_mismatch_message d = elim d.entry [
  | none ↦ []
  | some e ↦
      if is_empty d.current_account || is_empty d.current_policy_id
      then []
      else join_messages (
          policy_mismatch (codes "Account") e.policy.account d.current_account
          ++ policy_mismatch (codes "ID") e.policy.id d.current_policy_id)
]

-- The warning of the template, which is there only where there is a mismatch.
unfoldable pub mismatch_warning : PolicyDetails → Option Text
unfolding has_policy_key_mismatch get_policy_mismatch_message
mismatch_warning d =
    if has_policy_key_mismatch d then some (get_policy_mismatch_message d) else none

-- `resourceErrors.get(resource) || null`
unfoldable pub get_resource_error : Text → PolicyDetails → Option Text
get_resource_error resource d = Dict.get resource d.resource_errors
