-- ===== src/BindingsPage/Offers.antt =====
-- What the dialog of a new binding offers: the page passes no accounts to it.
use nauts.Base.{
  ◌≡◌, ◌↔◌, refl, ◌∙◌, List, [], ◌∷◌, any, In, In-filter, filter-In, Bool-cases, inl, inr,
}
use nauts.Base.Text.{Text, is_empty, trim, eq_iff}
use nauts.Models.{PolicyEntry}
use nauts.BindingDialog.{
  DialogData, BindingDialog, first_account, account_changed, update_available_policies,
}
use nauts.BindingDialog
use nauts.BindingsPage.{BindingsPage, create_data}

-- The dialog after the user has typed accounts, one after the other.
abbrev pub typed : (Text → Text) → DialogData → List Text → BindingDialog → BindingDialog
typed to_lower given [] d = d
typed to_lower given (val ∷ vals) d =
    typed to_lower given vals (account_changed given to_lower val d)

module _ (to_lower : Text → Text) (given : DialogData) (e : given.accounts ≡ []) where
  account_changed-offer :
      (val : Text) (d : BindingDialog)
      → (account_changed given to_lower val d).account_specific_policies
        ≡ d.account_specific_policies
  unfolding account_changed any
  account_changed-offer val d = elim (Bool-cases (is_empty (trim val))) [
    | inl h ↦ rw h refl
    | inr h ↦ rw (h, e) refl
  ]

  typed-offer :
      (vals : List Text) (d : BindingDialog)
      → (typed to_lower given vals d).account_specific_policies ≡ d.account_specific_policies
  typed-offer [] d = refl
  typed-offer (val ∷ vals) d =
      typed-offer vals (account_changed given to_lower val d) ∙ account_changed-offer val d

-- In the dialog of a new binding, whatever accounts are typed, the policies on offer besides the global
-- ones stay those of the account of the page, also where another account was typed.
pub create_dialog_offers :
    (to_lower : Text → Text) (p : BindingsPage) (vals : List Text) (e : PolicyEntry)
    → In e
        (typed to_lower
          (create_data p)
          vals
          (BindingDialog.opened (create_data p))).account_specific_policies
      ↔ (In e p.available_policy_entries × (e.policy.account ≡ p.selected_account))
create_dialog_offers to_lower p vals e =
    rw
      (typed-offer to_lower (create_data p) (unfold create_data in refl) vals
        (BindingDialog.opened (create_data p)))
      offered
  where
    offered :
        In e (BindingDialog.opened (create_data p)).account_specific_policies
        ↔ (In e p.available_policy_entries × (e.policy.account ≡ p.selected_account))
    offered =
        unfold BindingDialog.opened update_available_policies create_data in
        (
          λ m.
              let (n, t) = In-filter _ p.available_policy_entries m in
              (n, (eq_iff e.policy.account p.selected_account).0 t),
          λ m.
              filter-In _ p.available_policy_entries m.0
                ((eq_iff e.policy.account p.selected_account).1 m.1),
        )
