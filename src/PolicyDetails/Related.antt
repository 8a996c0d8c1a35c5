-- ===== src/PolicyDetails/Related.antt =====
-- What the details of a policy show of its bindings and its resources.
use nauts.Base.{◌≡◌, not, some, none, ◌++◌, filter, if◌then◌else◌}
use nauts.Base.Sort.{sort_by-partition}
use nauts.Base.Text.{Text}
use nauts.Models.{PolicyEntry}
use nauts.ResourceValidator.{validate_resource}
use nauts.ResourceValidator.Errors.{is_listed, get-validate_policy_resources}
use nauts.PolicyStore.{Store, get_bindings_for_policy}
use nauts.PolicyDetails.{
  PolicyDetails, is_binding_from_other_account, related_of, load_related_bindings, entry_changed,
  get_resource_error,
}

-- With a new policy the details list its bindings, those of the current account first and each part
-- in the order of the store, and show of each resource that the policy lists the error of the
-- validator, and of others none.
entry_changed-some :
    (e : PolicyEntry) (s : Store) (d : PolicyDetails) (r : Text)
    → ((entry_changed (some e) s d).related_bindings
        ≡ filter
            (λ b. not (is_binding_from_other_account d.current_account b))
            (get_bindings_for_policy e.policy.id s)
          ++ filter
              (is_binding_from_other_account d.current_account)
              (get_bindings_for_policy e.policy.id s))
      × (get_resource_error r (entry_changed (some e) s d)
          ≡ (if is_listed r e.policy.statements then validate_resource r else none))
unfolding entry_changed load_related_bindings related_of get_resource_error
entry_changed-some e s d r = (
  sort_by-partition (is_binding_from_other_account d.current_account)
      (get_bindings_for_policy e.policy.id s),
  get-validate_policy_resources r e.policy.statements,
)
