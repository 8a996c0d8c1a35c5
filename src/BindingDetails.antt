-- ===== src/BindingDetails.antt =====
-- The details of a binding: ctrlp/src/app/pages/bindings/binding-details.component.ts. The service is
-- its state; what the template shows is what the methods return.
pub mod Compile
pub mod Shown
pub mod Mismatch
use nauts.Base.{
  Bool, true, false, not, ◌&&◌, ◌||◌, Option, none, some, List, [], ◌∷◌, ◌++◌, if◌then◌else◌, find,
}
use nauts.Base.Text.{is_empty, Text, codes, ◌==◌}
use nauts.Models.{Statement, PolicyEntry, BindingEntry}
use nauts.KvKeys.{global_prefix, strip_global_prefix}
use nauts.PolicyStore.{Store, list_all_policies}

pub record PolicyInfo : Type 0 where
  pub id : Text
  pub name : Text
  pub account : Text

abbrev pub info_of : PolicyEntry → PolicyInfo
info_of p = record { id = p.policy.id; name = p.policy.name; account = p.policy.account }

-- The test of `find`: the policy has the ID and stands in the account or in the global one.
unfoldable pub fits : Text → Text → PolicyEntry → Bool
fits account id p =
    (p.policy.id == id) && ((p.policy.account == account) || (p.policy.account == global_prefix))

unfoldable pub get_policy_for_id : Option BindingEntry → Text → Store → Option PolicyEntry
get_policy_for_id none policy_id s = none
get_policy_for_id (some e) policy_id s =
    find (fits e.binding.account (strip_global_prefix policy_id)) (list_all_policies s)

-- `getPolicyRoute`, from the entry that is shown
unfoldable pub get_policy_route : Option BindingEntry → Text → Text → List Text
get_policy_route none policy_id policy_account = codes "/policies" ∷ policy_account ∷ policy_id ∷ []
get_policy_route (some e) policy_id policy_account =
    codes "/policies"
    ∷ (if policy_account == global_prefix then e.binding.account else policy_account)
    ∷ policy_id
    ∷ []

-- `hasKeyMismatch`, of the account and role in the route
unfoldable pub has_key_mismatch : Option BindingEntry → Text → Text → Bool
has_key_mismatch none account role = false
has_key_mismatch (some e) account role =
    if is_empty account || is_empty role
    then false
    else not (e.binding.account == account) || not (e.binding.role == role)

-- `messages.join('. ')`
unfoldable pub join_messages : List Text → Text
join_messages [] = []
join_messages (m ∷ []) = m
join_messages (m ∷ n ∷ ms) = m ++ (codes ". " ++ join_messages (n ∷ ms))

abbrev pub mismatch_message : Text → Text → Text → List Text
mismatch_message label held used =
    if not (held == used)
    then (label
        ++ (codes " mismatch: binding has \""
            ++ (held ++ (codes "\" but KV key uses \"" ++ (used ++ codes "\"")))))
      ∷ []
    else []

unfoldable pub get_key_mismatch_message : Option BindingEntry → Text → Text → Text
unfolding join_messages
get_key_mismatch_message none account role = []
get_key_mismatch_message (some e) account role =
    if is_empty account || is_empty role
    then []
    else join_messages (
        mismatch_message (codes "Account") e.binding.account account
        ++ mismatch_message (codes "Role") e.binding.role role)

pub record Compiled : Type 0 where
  pub compiled_statements : List Statement
  pub statement_policy_infos : List PolicyInfo

abbrev pub nothing_compiled : Compiled
nothing_compiled = record { compiled_statements = []; statement_policy_infos = [] }

-- The inner loop, over the statements of a policy.
unfoldable pub push_statements : PolicyInfo → List Statement → Compiled → Compiled
push_statements info [] c = c
push_statements info (statement ∷ statements) c = push_statements info statements (record {
  compiled_statements = c.compiled_statements ++ statement ∷ [];
  statement_policy_infos = c.statement_policy_infos ++ info ∷ [];
})

unfoldable pub push_policy : Option PolicyEntry → Compiled → Compiled
push_policy none c = c
push_policy (some p) c = push_statements (info_of p) p.policy.statements c

-- The loop over the policies of the binding.
unfoldable pub compile_policies : BindingEntry → Store → List Text → Compiled → Compiled
compile_policies e s [] c = c
compile_policies e s (id ∷ ids) c =
    compile_policies e s ids (push_policy (get_policy_for_id (some e) id s) c)

unfoldable pub compile_statements : Option BindingEntry → Store → Compiled
compile_statements none s = nothing_compiled
compile_statements (some e) s = compile_policies e s e.binding.policies nothing_compiled
