-- ===== src/BindingsPage.antt =====
-- The page of bindings: ctrlp/src/app/pages/bindings/bindings.component.ts. What the page tells the
-- user is its last message, and where it tells the router to go its last route. A dialog enters by
-- what it is closed with. `toLowerCase` is an argument.
pub mod Dangling
pub mod Found
pub mod Offers
pub mod Renaming
use nauts.Base.{
  ℕ, ◌≡◌, Bool, true, false, not, ◌&&◌, ◌||◌, Option, none, some, List, [], ◌∷◌, map, if◌then◌else◌,
  filter, find, any,
}
use nauts.Base.Text.{is_empty, Text, codes, ◌==◌, includes}
use nauts.Base.Dict
use nauts.Base.Dict.{Dict}
use nauts.Models.{PolicyEntry, Binding, BindingEntry}
use nauts.Thrown.{
  Thrown, error, nats_error, conflict, not_found, other, Outcome, ok, throw, Exec, ◌>>=◌, ◌>>◌,
  message_of,
}
use nauts.KvKeys.{global_prefix, strip_global_prefix}
use nauts.KvStore.Client.{KvClient, Codec}
use nauts.AccountService.{add_to_set}
use nauts.PolicyStore.{
  Store, Casts, includes_text, list_bindings, list_all_bindings, get_binding, create_binding,
  update_binding, delete_binding,
}
use nauts.PoliciesPage.{conflict_message, or_default, SortBy, is_unsorted, sort_column}
use nauts.BindingDialog.{DialogData, create_mode, edit_mode}

pub record BindingsPage : Type 0 where
  pub selected_account : Text
  pub role_filter : Text
  pub policy_filter : Text
  pub entries : List BindingEntry
  pub filtered_entries : List BindingEntry
  pub selected_entry : Option BindingEntry
  pub available_policies : List Text
  pub available_policy_entries : List PolicyEntry
  pub policy_map : Dict Text
  pub dangling_policies : List Text
  pub all_bindings : List BindingEntry
  pub all_policies : List PolicyEntry
  pub message : Option Text
  pub route : List Text

-- The entries have the same role and account.
unfoldable pub same_binding : BindingEntry → BindingEntry → Bool
same_binding a b = (a.binding.role == b.binding.role) && (a.binding.account == b.binding.account)

unfoldable pub reselect_binding : Option BindingEntry → List BindingEntry → Option BindingEntry
reselect_binding none entries = none
reselect_binding (some e) entries = find (λ a. same_binding a e) entries

-- The loop over the IDs of a binding, from the set found so far.
unfoldable pub collect_dangling : List Text → List Text → List Text → List Text
collect_dangling available [] set = set
collect_dangling available (policy_id ∷ ids) set =
    if not (includes_text (strip_global_prefix policy_id) available)
    then collect_dangling available ids (add_to_set policy_id set)
    else collect_dangling available ids set

unfoldable pub dangling_of : List Text → Option BindingEntry → List Text
dangling_of available none = []
dangling_of available (some e) = collect_dangling available e.binding.policies []

unfoldable pub update_dangling_policies : BindingsPage → BindingsPage
unfolding dangling_of
update_dangling_policies p = record p {
  dangling_policies = dangling_of p.available_policies p.selected_entry;
}

-- The policies of an account, and the global ones.
abbrev pub of_account : Text → List PolicyEntry → List PolicyEntry
of_account account policies =
    filter (λ p. (p.policy.account == account) || (p.policy.account == global_prefix)) policies

unfoldable pub update_available : BindingsPage → BindingsPage
update_available p =
    let available =
      if is_empty p.selected_account
      then p.all_policies
      else of_account p.selected_account p.all_policies in
    record p {
      available_policy_entries = available;
      available_policies = map (λ e. e.policy.id) available;
    }

-- What is shown of a binding in the list: some ID is that of no policy of its account, nor global.
unfoldable pub has_dangling_policies : List PolicyEntry → BindingEntry → Bool
has_dangling_policies all_policies entry =
    let ids = map (λ p. p.policy.id) (of_account entry.binding.account all_policies) in
    any (λ policy_id. not (includes_text (strip_global_prefix policy_id) ids))
      entry.binding.policies

unfoldable pub visible_bindings : Text → Store → List BindingEntry
visible_bindings account s =
    if is_empty account then list_all_bindings s else list_bindings account s

unfoldable pub select_binding : BindingEntry → BindingsPage → BindingsPage
unfolding update_dangling_policies
select_binding entry p =
    if elim p.selected_entry [ none ↦ false | some e ↦ same_binding e entry ]
    then record p {
      selected_entry = none;
      route =
          if is_empty entry.binding.account
          then codes "/bindings" ∷ []
          else codes "/bindings" ∷ entry.binding.account ∷ [];
    }
    else record (update_dangling_policies (record p { selected_entry = some entry })) {
      route = codes "/bindings" ∷ entry.binding.account ∷ entry.binding.role ∷ [];
    }

-- The end of `loadBindings`: a selected binding is looked for in the new list.
unfoldable pub refound : Option BindingEntry → BindingsPage → BindingsPage
unfolding update_dangling_policies
refound none q = record q { selected_entry = none }
refound (some found) q = update_dangling_policies (record q { selected_entry = some found })

unfoldable pub reselected : Option BindingEntry → BindingsPage → BindingsPage
unfolding refound
reselected none q = q
reselected (some e) q = refound (reselect_binding (some e) q.entries) q

-- The data of the two dialogs. The page passes no accounts.
unfoldable pub create_data : BindingsPage → DialogData
create_data p = record {
  mode = create_mode;
  binding = none;
  accounts = [];
  all_policy_entries = p.available_policy_entries;
  current_account = p.selected_account;
}

unfoldable pub edit_data : BindingsPage → Option DialogData
edit_data p = elim p.selected_entry [
  | none ↦ none
  | some e ↦ some (record {
    mode = edit_mode;
    binding = some e.binding;
    accounts = [];
    all_policy_entries = p.available_policy_entries;
    current_account = p.selected_account;
  })
]

module _ {V D B : Type 0} (casts : Casts V) (json : Codec V D) (kv : KvClient D B) where
  -- A binding that changes its role is deleted, and then created anew.
  unfoldable pub rename_binding : BindingEntry → Binding → Exec B ℕ
  rename_binding e result = do
    delete_binding kv e.binding.account e.binding.role e.revision
    create_binding casts json kv result

module _ (to_lower : Text → Text) where
  unfoldable pub matches_filters : BindingsPage → BindingEntry → Bool
  matches_filters p e =
      includes (to_lower e.binding.role) (to_lower p.role_filter)
      && (is_empty p.policy_filter || includes_text p.policy_filter e.binding.policies)

  unfoldable pub filter_bindings : BindingsPage → BindingsPage
  unfolding matches_filters
  filter_bindings p = record p { filtered_entries = filter (matches_filters p) p.entries }

  unfoldable pub load_bindings : Store → BindingsPage → BindingsPage
  unfolding visible_bindings filter_bindings update_dangling_policies reselected
  load_bindings s p =
      let q =
        update_dangling_policies
          (filter_bindings (record p { entries = visible_bindings p.selected_account s })) in
      reselected q.selected_entry q

  -- The role and the account of the route, where both are there, select a binding; a lookup that
  -- throws leaves the page as it is.
  unfoldable pub route_binding : Outcome (Option BindingEntry) → BindingsPage → BindingsPage
  route_binding (ok (some e)) p = update_dangling_policies (record p { selected_entry = some e })
  route_binding (ok none) p = p
  route_binding (throw err) p = p

  abbrev pub or_empty : Option Text → Text
  or_empty none = []
  or_empty (some t) = t

  unfoldable pub bindings_routed : Option Text → Option Text → Store → BindingsPage → BindingsPage
  unfolding load_bindings update_available route_binding
  bindings_routed account_param role_param s p =
      let q =
        update_available
          (load_bindings s (record p { selected_account = or_empty account_param })) in
      if is_empty (or_empty role_param) || is_empty (or_empty account_param)
      then q
      else route_binding (get_binding (or_empty account_param) (or_empty role_param) s) q

  -- The subscriptions to the two lists of the store.
  unfoldable pub bindings_heard : List BindingEntry → Store → BindingsPage → BindingsPage
  unfolding load_bindings
  bindings_heard bindings s p = load_bindings s (record p { all_bindings = bindings })

  abbrev pub names_of : List PolicyEntry → Dict Text → Dict Text
  names_of [] names = names
  names_of (p ∷ policies) names = names_of policies (Dict.set p.policy.id p.policy.name names)

  unfoldable pub policies_heard : List PolicyEntry → Store → BindingsPage → BindingsPage
  unfolding load_bindings update_available
  policies_heard policies s p =
      load_bindings s
        (update_available (record p { all_policies = policies; policy_map = names_of policies [] }))

  unfoldable pub binding_error : Store → Thrown → BindingsPage → BindingsPage
  unfolding load_bindings
  binding_error s (conflict key) p = load_bindings s (record p { message = some conflict_message })
  binding_error s err p = record p { message = some (or_default (message_of err)) }

  unfoldable pub binding_told :
      {A : Type 0} → Store → Text → Outcome A → BindingsPage → BindingsPage
  unfolding binding_error
  binding_told s done (ok a) p = record p { message = some done }
  binding_told s done (throw err) p = binding_error s err p

  -- `ngOnInit` after `initialize`: the route, then the two lists of the store, are heard of at once.
  unfoldable pub bindings_opened :
      Outcome Unit → Option Text → Option Text → Store → BindingsPage → BindingsPage
  unfolding bindings_routed bindings_heard policies_heard binding_error
  bindings_opened (throw err) account_param role_param s p = binding_error s err p
  bindings_opened (ok u) account_param role_param s p =
      policies_heard s.policies_subject s
        (bindings_heard s.bindings_subject s (bindings_routed account_param role_param s p))

  module _ {V D B : Type 0} (casts : Casts V) (json : Codec V D) (kv : KvClient D B) where
    unfoldable pub create_binding_closed :
        Option Binding → Store → BindingsPage → B → BindingsPage × B
    unfolding binding_told
    create_binding_closed none s p b = (p, b)
    create_binding_closed (some result) s p b =
        let (r, c) = create_binding casts json kv result b in
        (binding_told s (codes "Binding created") r p, c)

    unfoldable pub edit_binding :
        BindingEntry → Binding → Store → BindingsPage → B → BindingsPage × B
    unfolding binding_told rename_binding
    edit_binding e result s p b =
        if not (e.binding.role == result.role)
        then (let (r, c) = rename_binding casts json kv e result b in
            (binding_told s (codes "Binding renamed") r p, c))
        else (let (r, c) =
              update_binding casts json kv e.binding.account e.binding.role result e.revision b in
            (binding_told s (codes "Binding updated") r p, c))

    unfoldable pub edit_binding_closed :
        Option Binding → Store → BindingsPage → B → BindingsPage × B
    unfolding edit_binding
    edit_binding_closed none s p b = (p, b)
    edit_binding_closed (some result) s p b = elim p.selected_entry [
      | none ↦ (p, b)
      | some e ↦ edit_binding e result s p b
    ]

  module _ {D B : Type 0} (kv : KvClient D B) where
    unfoldable pub binding_deleted : Store → Outcome Unit → BindingsPage → BindingsPage
    unfolding binding_error load_bindings
    binding_deleted s (ok u) p =
        load_bindings s
          (record p { message = some (codes "Binding deleted"); selected_entry = none })
    binding_deleted s (throw err) p = binding_error s err p

    unfoldable pub delete_binding_closed : Bool → Store → BindingsPage → B → BindingsPage × B
    unfolding binding_deleted
    delete_binding_closed confirmed s p b = elim p.selected_entry [
      | none ↦ (p, b)
      | some e ↦
          if confirmed
          then (let (r, c) = delete_binding kv e.binding.account e.binding.role e.revision b in
              (binding_deleted s r p, c))
          else (p, b)
    ]

-- The columns of the table.
unfoldable pub binding_column : Text → Option (BindingEntry → Text)
binding_column active =
    if active == codes "role"
    then some (λ e. e.binding.role)
    else if active == codes "account"
    then some (λ e. e.binding.account)
    else none

unfoldable pub sort_bindings :
    ((BindingEntry → BindingEntry → Bool) → List BindingEntry → List BindingEntry)
    → (Text → Text)
    → SortBy
    → BindingsPage
    → BindingsPage
unfolding filter_bindings binding_column sort_column
sort_bindings sort to_lower by p = if is_unsorted by then filter_bindings to_lower p else record p {
  filtered_entries = sort_column sort (binding_column by.active) by.direction p.filtered_entries;
}
