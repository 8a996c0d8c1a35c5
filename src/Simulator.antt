-- ===== src/Simulator.antt =====
-- The simulator page: ctrlp/src/app/pages/simulator/simulator.component.ts. Its form and what it
-- lists; the answer of the server is shown as it comes.
pub mod Roles
pub mod Page
pub mod Offered
pub mod Restored
use nauts.Base.{
  is_nonempty, Bool, true, false, not, ◌&&◌, ◌||◌, Option, none, some, List, [], ◌∷◌, ◌++◌,
  if◌then◌else◌, find,
}
use nauts.Base.Text.{Text, codes, ◌==◌, trim, split}
use nauts.Models.{BindingEntry}
use nauts.Thrown.{Outcome, ok, throw}
use nauts.KvKeys.{global_prefix, strip_global_prefix}
use nauts.PolicyStore.{Store, list_all_policies, get_binding}
use nauts.BindingDetails.{PolicyInfo, info_of, fits}

pub record Role : Type 0 where
  pub account : Text
  pub name : Text

-- The loop of `getPoliciesForRole`.
unfoldable pub resolve_policies : Text → Store → List Text → List PolicyInfo
resolve_policies account s [] = []
resolve_policies account s (id ∷ ids) =
    let rest = resolve_policies account s ids in
    elim (find (fits account (strip_global_prefix id)) (list_all_policies s)) [
      | none ↦ rest
      | some p ↦ info_of p ∷ rest
    ]

-- `getPoliciesForRole`, which throws where `getBinding` does
unfoldable pub get_policies_for_role : Role → Store → Outcome (List PolicyInfo)
unfolding resolve_policies
get_policies_for_role role s = elim (get_binding role.account role.name s) [
  | throw e ↦ throw e
  | ok none ↦ ok []
  | ok (some b) ↦ ok (resolve_policies role.account s b.binding.policies)
]

-- `const [account, name] = roleStr.split('.')`: what follows a second dot is dropped, and a name that
-- is not there is `undefined`.
unfoldable pub role_of_parts : List Text → Text × Option Text
role_of_parts [] = ([], none)
role_of_parts (account ∷ []) = (account, none)
role_of_parts (account ∷ name ∷ rest) = (account, some name)

unfoldable pub parse_role : Text → Text × Option Text
unfolding role_of_parts
parse_role role_str = role_of_parts (split b'.' role_str)

-- The text of a role in the list of `loadAccountsAndRoles`.
unfoldable pub role_text : BindingEntry → Text
role_text e = e.binding.account ++ (b'.' ∷ e.binding.role)

unfoldable pub can_simulate : Text → Text → List Text → Bool
can_simulate user_name target_account selected_roles =
    not (trim user_name == []) && (not (trim target_account == []) && is_nonempty selected_roles)

unfoldable pub get_policy_route : Text → PolicyInfo → List Text
get_policy_route target_account policy =
    codes "/policies"
    ∷ (if policy.account == global_prefix then target_account else policy.account)
    ∷ policy.id
    ∷ []
