-- ===== src/StatementsView.antt =====
-- The view of statements: ctrlp/src/app/shared/statements-view.component.ts. Its links, and the route
-- of ctrlp/src/app/app.routes.ts that they lead to.
pub mod Links
use nauts.Base.{Option, none, some, List, [], ◌∷◌, if◌then◌else◌, Bool, true, false, ◌&&◌, not}
use nauts.Base.Text.{Text, codes, ◌==◌, is_empty}
use nauts.KvKeys.{global_prefix}
use nauts.ResourceValidator.{validate_resource}
use nauts.BindingDetails.{PolicyInfo}
use nauts.PolicyStore.{Store}
use nauts.PoliciesPage.{PoliciesPage, route_changed}

abbrev pub statement_resource_error : Text → Option Text
statement_resource_error resource = validate_resource resource

-- The account that a link names: for a global policy the current account, if there is one.
unfoldable pub route_account : Option Text → Text → Text
route_account none account = account
route_account (some current) account =
    if (account == global_prefix) && not (is_empty current) then current else account

unfoldable pub statement_policy_route : Option Text → PolicyInfo → List Text
unfolding route_account
statement_policy_route current_account policy_info =
    codes "/policies" ∷ route_account current_account policy_info.account ∷ policy_info.id ∷ []

-- The routes "policies", "policies/:account" and "policies/:account/:id".
unfoldable pub policies_routed : (Text → Text) → List Text → Store → PoliciesPage → PoliciesPage
policies_routed to_lower (page ∷ []) s p = route_changed to_lower none none s p
policies_routed to_lower (page ∷ account ∷ []) s p = route_changed to_lower (some account) none s p
policies_routed to_lower (page ∷ account ∷ id ∷ []) s p =
    route_changed to_lower (some account) (some id) s p
policies_routed to_lower _ s p = p
