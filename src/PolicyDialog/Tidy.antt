-- ===== src/PolicyDialog/Tidy.antt =====
-- The chips of the dialog stay tidy: actions of the list, resources that are not empty, no repeats.
use nauts.Base.{
  ℕ, ◌≡◌, ◌≢◌, true, false, none, List, [], ◌∷◌, if_both, Bool-cases, inl, inr, In, In-filter, All,
}
use nauts.Base.Text.{Text, is_empty, trim}
use nauts.PolicyStore.Queries.{includes_text_iff}
use nauts.PolicyDialog.{
  PolicyDialogData, PolicyDialog, valid_actions, is_action, remove_statement, get_filtered_actions,
  add_action, on_action_selected, remove_action, add_resource, remove_resource, push_new, without,
  account_reported, on_global_change, dialog_opened,
}
use nauts.PolicyDialog.Chips.{
  NoRepeats, NoRepeats-push_new, NoRepeats-filter, All-push_new, All-filter, All-update_at,
  All-remove_at, All-append,
}
use nauts.PolicyDialog.Editing.{
  Edit, name_typed, account_typed, global_ticked, action_typed, statement_added, statement_removed,
  action_added, action_selected, action_removed, resource_added, resource_removed, Edits, untouched,
  edited, SameChips, on_global_change-SameChips,
}

abbrev pub IsAction : Text → Type 0
IsAction a = In a valid_actions

-- The actions of each statement are actions of the list, and its resources not empty; neither is
-- there twice.
pub record IsTidy (d : PolicyDialog) : Type 0 where
  pub actions : All (λ xs. NoRepeats xs × All IsAction xs) d.stmt_actions
  pub resources : All (λ rs. NoRepeats rs × All (λ r. r ≢ []) rs) d.stmt_resources

is_action-IsAction : (a : Text) → is_action a ≡ true → IsAction a
unfolding is_action
is_action-IsAction a h = elim (Bool-cases (is_empty a)) [
  | inl e ↦ absurd (cc (rw e at h))
  | inr e ↦ (includes_text_iff a valid_actions).0 (rw e at h)
]

not_empty : (a : Text) → is_empty a ≡ false → a ≢ []
not_empty [] h e = cc
not_empty (c ∷ s) h e = cc

module _ (to_lower : Text → Text) (given : PolicyDialogData) where
  selected-IsAction :
      (i : ℕ) (a : Text) (d : PolicyDialog) → In a (get_filtered_actions to_lower i d) → IsAction a
  unfolding get_filtered_actions
  selected-IsAction i a d m = (In-filter _ valid_actions m).0

  SameChips-IsTidy : (d e : PolicyDialog) → SameChips d e → IsTidy d → IsTidy e
  SameChips-IsTidy d e (a, r) v = record { actions = rw a v.actions; resources = rw r v.resources }

  TidyActions-push :
      (a : Text) (xs : List Text)
      → IsAction a
      → NoRepeats xs × All IsAction xs
      → NoRepeats (push_new a xs) × All IsAction (push_new a xs)
  TidyActions-push a xs h (n, v) = (NoRepeats-push_new a xs n, All-push_new IsAction a xs h v)

  Edit-IsTidy : {d e : PolicyDialog} → Edit to_lower given d e → IsTidy d → IsTidy e
  Edit-IsTidy (name_typed t) v = record { actions = v.actions; resources = v.resources }
  Edit-IsTidy (account_typed t) v =
      unfold account_reported in record { actions = v.actions; resources = v.resources }
  Edit-IsTidy {d = d} (global_ticked b) v =
      let e : PolicyDialog = record d { form = record d.form { is_global = b } } in
      SameChips-IsTidy e (on_global_change to_lower given e)
        (on_global_change-SameChips to_lower given e)
        (record { actions = v.actions; resources = v.resources })
  Edit-IsTidy (action_typed t) v = record { actions = v.actions; resources = v.resources }
  Edit-IsTidy {d = d} statement_added v = record {
    actions = All-append _ d.stmt_actions ([] ∷ []) v.actions ((tt, tt), tt);
    resources = All-append _ d.stmt_resources ([] ∷ []) v.resources ((tt, tt), tt);
  }
  Edit-IsTidy {d = d} (statement_removed i) v =
      unfold remove_statement in
      record {
        actions = All-remove_at _ i d.stmt_actions v.actions;
        resources = All-remove_at _ i d.stmt_resources v.resources;
      }
  Edit-IsTidy {d = d} (action_added i t) v =
      unfold add_action in
      record {
        actions =
            if_both (All _) (is_action (trim t))
              (λ e.
                All-update_at _ (push_new (trim t)) i d.stmt_actions
                  (λ xs. TidyActions-push (trim t) xs (is_action-IsAction (trim t) e)) v.actions)
              (λ e. v.actions);
        resources = v.resources;
      }
  Edit-IsTidy {d = d} (action_selected i a m) v =
      unfold on_action_selected in
      record {
        actions =
            All-update_at _ (push_new a) i d.stmt_actions
              (λ xs. TidyActions-push a xs (selected-IsAction i a d m)) v.actions;
        resources = v.resources;
      }
  Edit-IsTidy {d = d} (action_removed i a) v =
      unfold remove_action in
      record {
        actions =
            All-update_at _ (without a) i d.stmt_actions
              (λ xs w. unfold without in (NoRepeats-filter _ xs w.0, All-filter IsAction _ xs w.1))
              v.actions;
        resources = v.resources;
      }
  Edit-IsTidy {d = d} (resource_added i t) v =
      unfold add_resource in
      record {
        actions = v.actions;
        resources =
            if_both (All _) (is_empty (trim t)) (λ e. v.resources)
              (λ e.
                All-update_at _ (push_new (trim t)) i d.stmt_resources
                  (λ rs w. (
                    NoRepeats-push_new (trim t) rs w.0,
                    All-push_new (λ r. r ≢ []) (trim t) rs (not_empty (trim t) e) w.1,
                  ))
                  v.resources);
      }
  Edit-IsTidy {d = d} (resource_removed i r) v =
      unfold remove_resource in
      record {
        actions = v.actions;
        resources =
            All-update_at _ (without r) i d.stmt_resources
              (λ rs w.
                unfold without in (NoRepeats-filter _ rs w.0, All-filter (λ r. r ≢ []) _ rs w.1))
              v.resources;
      }

  dialog_opened-IsTidy : given.policy ≡ none → IsTidy (dialog_opened given)
  unfolding dialog_opened
  dialog_opened-IsTidy h = rw h (record { actions = ((tt, tt), tt); resources = ((tt, tt), tt) })

  -- In a dialog that makes a new policy, after any edits of the form, the actions of each statement
  -- are actions of the list, none of its resources is empty, and neither list has repeats.
  pub Edits-IsTidy :
      {d : PolicyDialog}
      → given.policy ≡ none
      → Edits to_lower given (dialog_opened given) d
      → IsTidy d
  Edits-IsTidy h untouched = dialog_opened-IsTidy h
  Edits-IsTidy h (edited es e) = Edit-IsTidy e (Edits-IsTidy h es)
