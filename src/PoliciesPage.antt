-- ===== src/PoliciesPage.antt =====
-- The page of policies: ctrlp/src/app/pages/policies/policies.component.ts. What the page tells the
-- user is its last message, and where it tells the router to go its last route. A dialog enters by
-- what it is closed with. `toLowerCase` is an argument.
pub mod Listing
pub mod Status
pub mod Edits
pub mod TwoUsers
pub mod LostUpdate
use nauts.Base.{
  is_nonempty, ℕ, ◌≡◌, Bool, true, false, not, ◌&&◌, ◌||◌, Option, none, some, List, [], ◌∷◌, ◌++◌,
  if◌then◌else◌, filter, find, any, length, nat_eq,
}
use nauts.Base.Text.{is_empty, Text, codes, ◌==◌, includes}
use nauts.AccountService.{comes_before}
use nauts.Base.Decimal.{decimal}
use nauts.Models.{Statement, Policy, PolicyEntry}
use nauts.Thrown.{
  Thrown, error, nats_error, conflict, not_found, other, Outcome, ok, throw, Exec, ◌>>=◌, ◌>>◌,
  message_of,
}
use nauts.KvKeys.{global_prefix}
use nauts.KvStore.Client.{KvClient, Codec}
use nauts.ResourceValidator.{validate_policy_resources}
use nauts.PolicyStore.{
  Store, Casts, list_policies, list_all_policies, list_global_policies, get_policy,
  get_bindings_for_policy, create_policy, update_policy, delete_policy,
}

pub record PoliciesPage : Type 0 where
  pub selected_account : Text
  pub search_query : Text
  pub show_global_policies : Bool
  pub entries : List PolicyEntry
  pub filtered_entries : List PolicyEntry
  pub selected_entry : Option PolicyEntry
  pub message : Option Text
  pub route : List Text

-- The entries have the same ID and account.
unfoldable pub same_policy : PolicyEntry → PolicyEntry → Bool
same_policy a b = (a.policy.id == b.policy.id) && (a.policy.account == b.policy.account)

unfoldable pub reselect : Option PolicyEntry → List PolicyEntry → Option PolicyEntry
reselect none entries = none
reselect (some e) entries = find (λ a. same_policy a e) entries

-- The first part of `loadPolicies`: what the list is made of.
unfoldable pub visible_policies : Text → Bool → Store → List PolicyEntry
visible_policies account show_global s =
    let policies = if is_empty account then list_all_policies s else list_policies account s in
    if not show_global
    then filter (λ p. not (p.policy.account == global_prefix)) policies
    else if is_empty account
    then policies
    else policies ++ list_global_policies s

abbrev pub conflict_message : Text
conflict_message = codes "Conflict: item was modified by another user. Reloading..."

abbrev pub or_default : Option Text → Text
or_default none = codes "An error occurred"
or_default (some m) = m

module _ {V D B : Type 0} (casts : Casts V) (json : Codec V D) (kv : KvClient D B) where
  -- A policy that changes its account is deleted, and then created anew.
  unfoldable pub move_policy : Text → PolicyEntry → Policy → Exec B ℕ
  move_policy uuid e result = do
    delete_policy kv e.policy.account e.policy.id e.revision
    create_policy casts json kv uuid result

module _ (to_lower : Text → Text) where
  unfoldable pub matches_query : Text → PolicyEntry → Bool
  matches_query q e = includes (to_lower e.policy.name) q || includes (to_lower e.policy.id) q

  unfoldable pub apply_filter : PoliciesPage → PoliciesPage
  unfolding matches_query
  apply_filter p =
      let q = to_lower p.search_query in
      record p { filtered_entries = filter (matches_query q) p.entries }

  unfoldable pub load_policies : Store → PoliciesPage → PoliciesPage
  unfolding visible_policies apply_filter reselect
  load_policies s p =
      let q =
        apply_filter
          (record p { entries = visible_policies p.selected_account p.show_global_policies s }) in
      record q { selected_entry = reselect q.selected_entry q.entries }

  -- The handler of the route's parameters, in `ngOnInit`.
  unfoldable pub route_changed : Option Text → Option Text → Store → PoliciesPage → PoliciesPage
  unfolding load_policies
  route_changed none id s p = load_policies s (record p { selected_account = [] })
  route_changed (some account) none s p = load_policies s (record p { selected_account = account })
  route_changed (some account) (some id) s p =
      let q = load_policies s (record p { selected_account = account }) in
      if is_empty account || is_empty id then q else elim (get_policy account id s) [
        | none ↦ q
        | some e ↦ record q { selected_entry = some e }
      ]

  unfoldable pub handle_error : Store → Thrown → PoliciesPage → PoliciesPage
  unfolding load_policies
  handle_error s (conflict key) p = load_policies s (record p { message = some conflict_message })
  handle_error s err p = record p { message = some (or_default (message_of err)) }

  -- `ngOnInit` after `initialize`: the route and then the list of policies are heard of at once.
  unfoldable pub policies_opened :
      Outcome Unit → Option Text → Option Text → Store → PoliciesPage → PoliciesPage
  unfolding route_changed load_policies handle_error
  policies_opened (throw err) account id s p = handle_error s err p
  policies_opened (ok u) account id s p = load_policies s (route_changed account id s p)

  -- `try { await call; snackBar.open(done) } catch (err) { handleError(err) }`
  unfoldable pub told : {A : Type 0} → Store → Text → Outcome A → PoliciesPage → PoliciesPage
  unfolding handle_error
  told s done (ok a) p = record p { message = some done }
  told s done (throw err) p = handle_error s err p

  module _ {V D B : Type 0} (casts : Casts V) (json : Codec V D) (kv : KvClient D B) where
    unfoldable pub create_closed :
        Text → Option Policy → Store → PoliciesPage → B → PoliciesPage × B
    unfolding told
    create_closed uuid none s p b = (p, b)
    create_closed uuid (some result) s p b =
        let (r, c) = create_policy casts json kv uuid result b in
        (told s (codes "Policy created") r p, c)

    unfoldable pub edit_entry :
        Text → PolicyEntry → Policy → Store → PoliciesPage → B → PoliciesPage × B
    unfolding told move_policy
    edit_entry uuid e result s p b =
        if not (e.policy.account == result.account)
        then (let (r, c) = move_policy casts json kv uuid e result b in
            (told s (codes "Policy moved to new account") r p, c))
        else (let (r, c) =
              update_policy casts json kv e.policy.account e.policy.id result e.revision b in
            (told s (codes "Policy updated") r p, c))

    unfoldable pub edit_closed : Text → Option Policy → Store → PoliciesPage → B → PoliciesPage × B
    unfolding edit_entry
    edit_closed uuid none s p b = (p, b)
    edit_closed uuid (some result) s p b = elim p.selected_entry [
      | none ↦ (p, b)
      | some e ↦ edit_entry uuid e result s p b
    ]

  module _ {D B : Type 0} (kv : KvClient D B) where
    unfoldable pub deleted : Store → Outcome Unit → PoliciesPage → PoliciesPage
    unfolding handle_error
    deleted s (ok u) p = record p { message = some (codes "Policy deleted"); selected_entry = none }
    deleted s (throw err) p = handle_error s err p

    unfoldable pub delete_closed : Bool → Store → PoliciesPage → B → PoliciesPage × B
    unfolding deleted
    delete_closed confirmed s p b = elim p.selected_entry [
      | none ↦ (p, b)
      | some e ↦
          if confirmed
          then (let (r, c) = delete_policy kv e.policy.account e.policy.id e.revision b in
              (deleted s r p, c))
          else (p, b)
    ]

-- `Sort` of the table: which column is active, and in which direction.
pub data SortDirection : Type 0 where
  unsorted asc desc : SortDirection

pub record SortBy : Type 0 where
  pub active : Text
  pub direction : SortDirection

-- `compare(a, b, isAsc)` is positive. It is never 0, also not where the texts are the same: the order
-- of such entries is that of the engine.
unfoldable pub compare_after : SortDirection → Text → Text → Bool
unfolding comes_before
compare_after asc a b = not (comes_before a b)
compare_after _ a b = comes_before a b

-- The comparator of an active column; of another one it answers 0.
unfoldable pub policy_column : Text → Option (PolicyEntry → Text)
policy_column active =
    if active == codes "account"
    then some (λ e. e.policy.account)
    else if active == codes "name"
    then some (λ e. e.policy.name)
    else if active == codes "id"
    then some (λ e. e.policy.id)
    else none

-- `filteredEntries.sort` by a column.
-- `sort` is `Array.prototype.sort`, given whether the comparison is positive. The comparison is never
-- 0, so the language leaves the order to the engine. For a column of another name it always is, and
-- the entries stay as they are.
unfoldable pub sort_column :
    {A : Type 0}
    → ((A → A → Bool) → List A → List A)
    → Option (A → Text)
    → SortDirection
    → List A
    → List A
unfolding compare_after
sort_column sort none direction entries = entries
sort_column sort (some column) direction entries =
    sort (λ a b. compare_after direction (column a) (column b)) entries

abbrev pub is_unsorted : SortBy → Bool
is_unsorted by = elim by.direction [
  | unsorted ↦ true
  | asc ↦ is_empty by.active
  | desc ↦ is_empty by.active
]

unfoldable pub sort_data :
    ((PolicyEntry → PolicyEntry → Bool) → List PolicyEntry → List PolicyEntry)
    → (Text → Text)
    → SortBy
    → PoliciesPage
    → PoliciesPage
unfolding apply_filter policy_column sort_column
sort_data sort to_lower by p = if is_unsorted by then apply_filter to_lower p else record p {
  filtered_entries = sort_column sort (policy_column by.active) by.direction p.filtered_entries;
}

unfoldable pub is_selected : Option PolicyEntry → PolicyEntry → Bool
unfolding same_policy
is_selected none entry = false
is_selected (some e) entry = same_policy e entry

unfoldable pub select_entry : PolicyEntry → PoliciesPage → PoliciesPage
select_entry entry p =
    if is_selected p.selected_entry entry
    then record p {
      selected_entry = none;
      route =
          if is_empty p.selected_account
          then codes "/policies" ∷ []
          else codes "/policies" ∷ p.selected_account ∷ [];
    }
    else record p {
      selected_entry = some entry;
      route =
          codes "/policies"
          ∷ (if (entry.policy.account == global_prefix) && not (is_empty p.selected_account)
              then p.selected_account
              else entry.policy.account)
          ∷ entry.policy.id
          ∷ [];
    }

unfoldable pub has_invalid_resources : PolicyEntry → Bool
has_invalid_resources entry = is_nonempty (validate_policy_resources entry.policy.statements)

unfoldable pub has_empty_resources : PolicyEntry → Bool
has_empty_resources entry = any (λ stmt. not (is_nonempty stmt.resources)) entry.policy.statements

unfoldable pub get_binding_count : PolicyEntry → Store → ℕ
get_binding_count entry s = length (get_bindings_for_policy entry.policy.id s)

unfoldable pub get_status_tooltip : PolicyEntry → Store → Text
get_status_tooltip entry s =
    let count = get_binding_count entry s in
    let used =
      codes "Used by "
      ++ (decimal count
          ++ (codes " "
              ++ ((if nat_eq count 1 then codes "binding" else codes "bindings") ++ codes "."))) in
    if has_invalid_resources entry
    then codes "Policy contains invalid resources. " ++ used
    else if has_empty_resources entry
    then codes "Policy contains statements with no resources. " ++ used
    else codes "Validation succeeded. " ++ used
