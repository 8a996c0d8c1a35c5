-- ===== src/PolicyDialog/Editing.antt =====
-- What the handlers of the dialog keep: as steps from the dialog just opened. An `Edit` is a change of
-- the form, an `Event` also the JSON mode and saving.
use nauts.Base.{
  ℕ, suc, true, false, ◌≡◌, refl, sym, ap, Bool, Option, none, some, ◌∙◌, not, List, [], ◌∷◌, map,
  length, length-append, if_both, Bool-cases, inl, inr, In, arith,
}
use nauts.Base.Text.{Text, ◌==◌, is_empty, trim}
use nauts.Models.{Statement, Policy}
use nauts.Thrown.{Outcome, ok, throw}
use nauts.KvKeys.{global_prefix}
use nauts.PolicyDialog.{
  is_valid, PolicyDialogData, PolicyDialog, is_action, add_statement, remove_statement,
  get_filtered_actions, add_action, on_action_selected, remove_action, add_resource,
  remove_resource, push_new, without, account_reported, account_enabled, on_global_change,
  load_policy_into_form, dialog_opened, or_one_empty, given_statements, policy_parsed, patch_policy,
  PolicyValue, StatementValue, ChipsValue, chips_loaded, actions_loaded, resources_loaded,
  spread_each, with_lists, spread, policy_loaded, toggle_policy_json, policy_json_saved,
  save_policy,
}
use nauts.PolicyDialog.Chips.{length-update_at, length-remove_at}

module _ (to_lower : Text → Text) (given : PolicyDialogData) where
  pub data Edit (d : PolicyDialog) : PolicyDialog → Type 0 where
    name_typed : (t : Text) → Edit d (record d { form = record d.form { name = t } })
    account_typed : (t : Text) → Edit d (account_reported to_lower given t d)
    global_ticked :
        (b : Bool)
        → Edit d
            (on_global_change to_lower given (record d { form = record d.form { is_global = b } }))
    action_typed : (t : Text) → Edit d (record d { action_input_value = t })
    statement_added : Edit d (add_statement d)
    statement_removed : (i : ℕ) → Edit d (remove_statement i d)
    action_added : (i : ℕ) (t : Text) → Edit d (add_action i t d)
    action_selected :
        (i : ℕ) (a : Text)
        → In a (get_filtered_actions to_lower i d)
        → Edit d (on_action_selected i a d)
    action_removed : (i : ℕ) (a : Text) → Edit d (remove_action i a d)
    resource_added : (i : ℕ) (t : Text) → Edit d (add_resource i t d)
    resource_removed : (i : ℕ) (r : Text) → Edit d (remove_resource i r d)

  pub data Edits (d : PolicyDialog) : PolicyDialog → Type 0 where
    untouched : Edits d d
    edited : {e f : PolicyDialog} → Edits d e → Edit e f → Edits d f

  module _ (stringify : Policy → Text) (parse : Text → Outcome PolicyValue) where
    pub data Event (d : PolicyDialog) : PolicyDialog → Type 0 where
      edit : {e : PolicyDialog} → Edit d e → Event d e
      json_typed : (t : Text) → Event d (record d { json_text = t })
      json_toggled : Event d (toggle_policy_json to_lower given stringify parse d)
      saving : Event d (save_policy to_lower given stringify parse d)

    pub data Events (d : PolicyDialog) : PolicyDialog → Type 0 where
      none_yet : Events d d
      then_one : {e f : PolicyDialog} → Events d e → Event e f → Events d f

-- As many lists of actions as of resources.
abbrev pub IsAligned : PolicyDialog → Type 0
IsAligned d = length d.stmt_actions ≡ length d.stmt_resources

-- The dialogs have the same lists of chips.
abbrev pub SameChips : PolicyDialog → PolicyDialog → Type 0
SameChips d e = (e.stmt_actions ≡ d.stmt_actions) × (e.stmt_resources ≡ d.stmt_resources)

module _ (to_lower : Text → Text) (given : PolicyDialogData) where
  pub on_global_change-SameChips :
      (d : PolicyDialog) → SameChips d (on_global_change to_lower given d)
  unfolding on_global_change account_enabled account_reported
  on_global_change-SameChips d =
      if_both (SameChips d) d.form.is_global (λ h. (refl, refl))
        (λ h. elim (Bool-cases (d.form.account == global_prefix)) [
          | inl e ↦ rw e (refl, refl)
          | inr e ↦ rw e (refl, refl)
        ])

  SameChips-IsAligned : (d e : PolicyDialog) → SameChips d e → IsAligned d → IsAligned e
  SameChips-IsAligned d e (a, r) h = rw (a, r) h

  Edit-IsAligned : {d e : PolicyDialog} → Edit to_lower given d e → IsAligned d → IsAligned e
  Edit-IsAligned (name_typed t) h = h
  Edit-IsAligned (account_typed t) h = unfold account_reported in h
  Edit-IsAligned {d = d} (global_ticked b) h =
      let e : PolicyDialog = record d { form = record d.form { is_global = b } } in
      SameChips-IsAligned e (on_global_change to_lower given e) (on_global_change-SameChips e) h
  Edit-IsAligned (action_typed t) h = h
  Edit-IsAligned {d = d} statement_added h =
      omega
        (arith, h, length-append d.stmt_actions ([] ∷ []), length-append d.stmt_resources ([] ∷ []))
  Edit-IsAligned {d = d} (statement_removed i) h =
      unfold remove_statement in length-remove_at i d.stmt_actions d.stmt_resources h
  Edit-IsAligned {d = d} (action_added i t) h =
      unfold add_action in
      if_both (λ (xs : List (List Text)). length xs ≡ length d.stmt_resources) (is_action (trim t))
        (λ e. length-update_at (push_new (trim t)) i d.stmt_actions ∙ h) (λ e. h)
  Edit-IsAligned {d = d} (action_selected i a m) h =
      unfold on_action_selected in length-update_at (push_new a) i d.stmt_actions ∙ h
  Edit-IsAligned {d = d} (action_removed i a) h =
      unfold remove_action in length-update_at (without a) i d.stmt_actions ∙ h
  Edit-IsAligned {d = d} (resource_added i t) h =
      unfold add_resource in
      if_both (λ (rs : List (List Text)). length d.stmt_actions ≡ length rs) (is_empty (trim t))
        (λ e. h) (λ e. h ∙ sym (length-update_at (push_new (trim t)) i d.stmt_resources))
  Edit-IsAligned {d = d} (resource_removed i r) h =
      unfold remove_resource in h ∙ sym (length-update_at (without r) i d.stmt_resources)

  -- The dialog as it opens.
  mapped_statements :
      (ss : List Statement) → length (map (λ s. s.actions) ss) ≡ length (map (λ s. s.resources) ss)
  mapped_statements [] = refl
  mapped_statements (s ∷ ss) = ap suc (mapped_statements ss)

  aligned_statements :
      (ss : List Statement)
      → length (or_one_empty (map (λ s. s.actions) ss))
        ≡ length (or_one_empty (map (λ s. s.resources) ss))
  aligned_statements [] = refl
  aligned_statements (s ∷ ss) = ap suc (mapped_statements ss)

  listed_of :
      {xs ys : List (List Text)} → ◌≡◌ {A = Outcome (List (List Text))} (ok xs) (ok ys) → xs ≡ ys
  listed_of h = cc h

  length-spread_each :
      (part : StatementValue → ChipsValue) (ss : List StatementValue) (lists : List (List Text))
      → spread_each part ss ≡ ok lists
      → length lists ≡ length ss
  unfolding spread_each
  length-spread_each part [] lists h = ap length (sym (listed_of h))
  length-spread_each part (s ∷ ss) lists h =
      by (spread (part s)) (spread_each part ss) (length-spread_each part ss) h
    where
      by :
          (o : Outcome (List Text)) (r : Outcome (List (List Text)))
          → ((xs : List (List Text)) → r ≡ ok xs → length xs ≡ length ss)
          → with_lists o r ≡ ok lists
          → length lists ≡ suc (length ss)
      by (throw x) r ih k = absurd (unfold with_lists in cc k)
      by (ok v) (throw x) ih k = absurd (unfold with_lists in cc k)
      by (ok v) (ok xs) ih k =
          ap length (sym (listed_of (unfold with_lists in k))) ∙ ap suc (ih xs refl)

  dialog_opened-IsAligned : IsAligned (dialog_opened given)
  unfolding dialog_opened
  dialog_opened-IsAligned = aligned_statements (given_statements given.policy)

  -- What loading the chips answers, and the dialog after it: a list of each kind for each statement
  -- where there is no error, and the mode as it was.
  abbrev IsLoaded : PolicyDialog → Outcome Unit × PolicyDialog → Type 0
  IsLoaded d (r, e) = (r ≡ ok tt → IsAligned e) × (e.json_mode ≡ d.json_mode)

  resources_loaded-IsLoaded :
      (o : Outcome (List (List Text))) (ss : List StatementValue) (d : PolicyDialog)
      → spread_each (λ s. s.resources) ss ≡ o
      → length d.stmt_actions ≡ length ss
      → IsLoaded d (resources_loaded o d)
  unfolding resources_loaded
  resources_loaded-IsLoaded (throw x) ss d q h = (λ k. absurd (cc k), refl)
  resources_loaded-IsLoaded (ok rs) ss d q h =
      (λ k. h ∙ sym (length-spread_each (λ s. s.resources) ss rs q), refl)

  chips_loaded-IsLoaded :
      (o : Option (List StatementValue)) (d : PolicyDialog) → IsLoaded d (chips_loaded o d)
  unfolding chips_loaded
  chips_loaded-IsLoaded none d = (λ k. absurd (cc k), refl)
  chips_loaded-IsLoaded (some ss) d = by (spread_each (λ s. s.actions) ss) refl
    where
      by :
          (o : Outcome (List (List Text)))
          → spread_each (λ s. s.actions) ss ≡ o
          → IsLoaded d (actions_loaded o (spread_each (λ s. s.resources) ss) d)
      by (throw x) q = unfold actions_loaded in (λ k. absurd (cc k), refl)
      by (ok lists) q =
          unfold actions_loaded in
          resources_loaded-IsLoaded (spread_each (λ s. s.resources) ss) ss
            (record d { stmt_actions = lists }) refl
            (length-spread_each (λ s. s.actions) ss lists q)

  -- In form mode there are as many lists of actions as of resources.
  abbrev pub IsFormAligned : PolicyDialog → Type 0
  IsFormAligned d = d.json_mode ≡ false → IsAligned d

  Edit-json_mode : {d e : PolicyDialog} → Edit to_lower given d e → e.json_mode ≡ d.json_mode
  Edit-json_mode (name_typed t) = refl
  Edit-json_mode (account_typed t) = unfold account_reported in refl
  Edit-json_mode {d = d} (global_ticked b) =
      unfold on_global_change account_enabled account_reported in
      if_both (λ (e : PolicyDialog). e.json_mode ≡ d.json_mode) b (λ h. refl)
        (λ h. elim (Bool-cases (d.form.account == global_prefix)) [
          | inl e ↦ rw e refl
          | inr e ↦ rw e refl
        ])
  Edit-json_mode (action_typed t) = refl
  Edit-json_mode statement_added = refl
  Edit-json_mode (statement_removed i) = unfold remove_statement in refl
  Edit-json_mode (action_added i t) = unfold add_action in refl
  Edit-json_mode (action_selected i a m) = unfold on_action_selected in refl
  Edit-json_mode (action_removed i a) = unfold remove_action in refl
  Edit-json_mode (resource_added i t) = unfold add_resource in refl
  Edit-json_mode (resource_removed i r) = unfold remove_resource in refl

  module _ (stringify : Policy → Text) (parse : Text → Outcome PolicyValue) where
    loaded-IsFormAligned :
        (d : PolicyDialog) (r : Outcome Unit) (e : PolicyDialog)
        → d.json_mode ≡ true
        → IsLoaded d (r, e)
        → IsFormAligned (policy_loaded to_lower given stringify parse r e)
    unfolding policy_loaded
    loaded-IsFormAligned d (ok u) e m l n = l.0 refl
    loaded-IsFormAligned d (throw x) e m l n = absurd (cc (sym n ∙ l.1 ∙ m))

    toggle-IsFormAligned :
        (d : PolicyDialog) → IsFormAligned (toggle_policy_json to_lower given stringify parse d)
    unfolding toggle_policy_json
    toggle-IsFormAligned d =
        if_both IsFormAligned (not d.json_mode) (λ e n. absurd (cc (sym e ∙ n)))
          (λ e. read (parse d.json_text) (ground arith))
      where
        read :
            (o : Outcome PolicyValue)
            → d.json_mode ≡ true
            → IsFormAligned (policy_parsed to_lower given stringify parse o d)
        read (ok p) m =
            unfold policy_parsed load_policy_into_form patch_policy account_reported in
            loaded-IsFormAligned d _ _ m (chips_loaded-IsLoaded p.statements _)
        read (throw x) m = unfold policy_parsed in λ n. absurd (cc (sym n ∙ m))

    save-IsFormAligned :
        (d : PolicyDialog)
        → IsFormAligned d
        → IsFormAligned (save_policy to_lower given stringify parse d)
    unfolding save_policy
    save-IsFormAligned d h =
        if_both IsFormAligned d.json_mode (λ e. closed_with (parse d.json_text))
          (λ e. if_both IsFormAligned (not (is_valid d)) (λ f. h) (λ f. h))
      where
        closed_with :
            (o : Outcome PolicyValue)
            → IsFormAligned (policy_json_saved to_lower given stringify parse o d)
        closed_with (ok p) = unfold policy_json_saved in h
        closed_with (throw x) = unfold policy_json_saved in h

    -- After any edits, uses of the JSON mode and attempts to save, from the dialog as it opens, there
    -- are in form mode as many lists of actions as lists of resources, whatever the JSON text was.
    pub Events-IsFormAligned :
        {d : PolicyDialog}
        → Events to_lower given stringify parse (dialog_opened given) d
        → d.json_mode ≡ false
        → IsAligned d
    Events-IsFormAligned none_yet m = dialog_opened-IsAligned
    Events-IsFormAligned (then_one es (edit e)) m =
        Edit-IsAligned e (Events-IsFormAligned es (sym (Edit-json_mode e) ∙ m))
    Events-IsFormAligned (then_one es (json_typed t)) m = Events-IsFormAligned es m
    Events-IsFormAligned (then_one {e = d} es json_toggled) m = toggle-IsFormAligned d m
    Events-IsFormAligned (then_one {e = d} es saving) m =
        save-IsFormAligned d (λ n. Events-IsFormAligned es n) m
