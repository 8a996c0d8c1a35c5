-- ===== src/StatementsView/Links.antt =====
-- Where the links to policies lead.
use nauts.Base.{
  true, In, ◌≡◌, ◌≢◌, refl, ap, ◌∙◌, false, Option, none, some, List, [], ◌∷◌, Bool-cases, inl, inr,
  ◌⊎◌,
}
use nauts.Base.Text.{Text, codes, ◌==◌, is_empty, eq-false, eq_refl}
use nauts.KvKeys.{global_prefix}
use nauts.Models.{PolicyEntry, BindingEntry}
use nauts.PolicyStore.{Store, get_policy, list_all_policies}
use nauts.BindingDetails.{PolicyInfo, info_of}
use nauts.BindingDetails
use nauts.Simulator
use nauts.PoliciesPage.{PoliciesPage, route_changed, load_policies, apply_filter, reselect}
use nauts.PoliciesPage.Listing.{load_policies-IsVisible}
use nauts.StatementsView.{route_account, statement_policy_route, policies_routed}

-- The details of a binding, the simulator for its account and the view of its statements link to a
-- policy in the same way, where the account of the binding is not empty.
routes_agree :
    (e : BindingEntry) (info : PolicyInfo)
    → is_empty e.binding.account ≡ false
    → (statement_policy_route (some e.binding.account) info
        ≡ BindingDetails.get_policy_route (some e) info.id info.account)
      × (statement_policy_route (some e.binding.account) info
          ≡ Simulator.get_policy_route e.binding.account info)
unfolding statement_policy_route route_account BindingDetails.get_policy_route
    Simulator.get_policy_route
routes_agree e info h = elim (Bool-cases (info.account == global_prefix)) [
  | inl q ↦ rw (q, h) (refl, refl)
  | inr q ↦ rw q (refl, refl)
]

-- The link of a global policy, or of one of the account itself, names the account.
route_lem :
    (account : Text) (q : PolicyEntry)
    → is_empty account ≡ false
    → (q.policy.account ≡ global_prefix)
      ⊎ ((q.policy.account ≡ account) × (q.policy.account ≢ global_prefix))
    → statement_policy_route (some account) (info_of q)
      ≡ codes "/policies" ∷ account ∷ q.policy.id ∷ []
unfolding statement_policy_route route_account info_of
route_lem account q a (inl global) =
    rw (ap (λ t. t == global_prefix) global ∙ eq_refl global_prefix, a) refl
route_lem account q a (inr (same, local)) =
    rw (eq-false q.policy.account global_prefix local)
      (ap (λ t. codes "/policies" ∷ t ∷ q.policy.id ∷ []) same)

chosen_entry :
    (q : PoliciesPage) (o : Option PolicyEntry)
    → q.selected_entry ≡ none
    → (elim o as (λ _. PoliciesPage) [
      | none ↦ q
      | some e ↦ record q { selected_entry = some e }
    ]).selected_entry
      ≡ o
chosen_entry q none h = h
chosen_entry q (some e) h = refl

module _ (to_lower : Text → Text) (s : Store) (p : PoliciesPage) where
  load_policies-unselected :
      (account : Text)
      → p.selected_entry ≡ none
      → (load_policies to_lower s (record p { selected_account = account })).selected_entry ≡ none
  unfolding load_policies apply_filter
  load_policies-unselected account h = rw h (unfold reselect in refl)

  -- With nothing selected before, a route with an account and an ID selects what is stored under
  -- their key, if anything.
  pub policies_routed-selected :
      (account id : Text)
      → p.selected_entry ≡ none
      → is_empty account ≡ false
      → is_empty id ≡ false
      → (policies_routed to_lower (codes "/policies" ∷ account ∷ id ∷ []) s p).selected_entry
        ≡ get_policy account id s
  unfolding policies_routed route_changed
  policies_routed-selected account id h a i =
      rw (a, i)
        (chosen_entry (load_policies to_lower s (record p { selected_account = account }))
          (get_policy account id s) (load_policies-unselected account h))

  -- The link to a policy of the account that it is shown for, followed to a page that has nothing
  -- selected, selects what is stored under the account and the ID.
  local_link :
      (account : Text) (q : PolicyEntry)
      → p.selected_entry ≡ none
      → is_empty account ≡ false
      → is_empty q.policy.id ≡ false
      → q.policy.account ≡ account
      → q.policy.account ≢ global_prefix
      → (policies_routed to_lower
          (statement_policy_route (some account) (info_of q))
          s
          p).selected_entry
        ≡ get_policy account q.policy.id s
  local_link account q h a i same local =
      ap (λ (r : List Text). (policies_routed to_lower r s p).selected_entry)
        (route_lem account q a (inr (same, local)))
      ∙ policies_routed-selected account q.policy.id h a i

  -- The link to a stored global policy, shown for an account that has no policy of its ID and followed
  -- to a page that has nothing selected and shows global policies, selects nothing, although the
  -- policy is in the list of the page. The account and the ID are not empty.
  pub global_link_lost :
      (account : Text) (q : PolicyEntry)
      → p.selected_entry ≡ none
      → p.show_global_policies ≡ true
      → is_empty account ≡ false
      → is_empty q.policy.id ≡ false
      → q.policy.account ≡ global_prefix
      → In q (list_all_policies s)
      → get_policy account q.policy.id s ≡ none
      → ((policies_routed to_lower
            (statement_policy_route (some account) (info_of q))
            s
            p).selected_entry
          ≡ none)
        × In q
            (policies_routed to_lower
              (statement_policy_route (some account) (info_of q))
              s
              p).entries
  unfolding policies_routed route_changed
  global_link_lost account q h shown a i global stored missing =
      let t : PoliciesPage = record p { selected_account = account } in
      rw (route_lem account q a (inl global)) (
        rw (a, i, missing)
          (
            load_policies-unselected account h,
            ((load_policies-IsVisible to_lower s t).0 q).1
                (stored, record { chosen = inr (inr (shown, global)); allowed = inl shown }),
          ))
