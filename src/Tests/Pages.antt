-- ===== src/Tests/Pages.antt =====
-- The theorems on the pages at concrete inputs.
use nauts.Base.{
  Bool, if◌then◌else◌, ap, sym, ◌∙◌, Option, inl, inr, ℕ, ◌≡◌, ◌↔◌, refl, true, false, none, some,
  [], ◌∷◌, map, In,
}
use nauts.Base.Text.{codes, ◌==◌, eq_iff, has}
use nauts.Base.Dict
use nauts.Models.{Policy, PolicyEntry}
use nauts.Thrown.{ok}
use nauts.KvKeys.{policy_key, account_part, binding_key}
use nauts.KvStore.Client.{put, is_put}
use nauts.KvStore.Bucket.{is_live}
use nauts.PolicyStore.{list_all_policies, get_binding, binding_key_or_throw}
use nauts.BindingDetails.{compile_statements, info_of}
use nauts.BindingDetails.Compile.{compile_statements-resolved, resolved, all_statements, all_infos}
use nauts.Simulator.{Role, get_policies_for_role, parse_role, role_text}
use nauts.Simulator.Roles.{parse_role-role_text}
use nauts.PoliciesPage.{PoliciesPage, load_policies, edit_closed, delete_closed}
use nauts.PoliciesPage.Listing.{load_policies-IsVisible, IsVisible}
use nauts.PolicyStore.Writes.{hear}
use nauts.PoliciesPage.TwoUsers.{edit_shown}
use nauts.PoliciesPage.LostUpdate.{lost_update, IsFiled}
use nauts.PoliciesPage.Edits.{conflicted, stale_selection, edit_closed-moved}
use nauts.Tests.Data.{acme-IsName, reader_id-IsSegment, acme, reader_id, reader_role, reader}
use nauts.Tests.Bucket.{
  policy_value, value_casts, value_codec, Memory, entry_at, memory, memory-IsBucket,
}
use nauts.Tests.Stores.{
  reader_key, filled-IsCurrent, reader_row, binding_row, filled, held, reader_at_4, reader_not_at_3,
}
use nauts.Tests.Sessions.{lower}

abbrev reader_as_role : Role
reader_as_role = record { account = acme; name = reader_role }

binding_found : get_binding acme reader_role filled ≡ ok (some binding_row)
unfolding get_binding binding_key_or_throw binding_key ◌==◌ Dict.get
binding_found = refl

compile_statements-resolved_example :
    ((compile_statements (some binding_row) filled).compiled_statements
      ≡ all_statements (resolved binding_row filled (reader_id ∷ [])))
    × ((compile_statements (some binding_row) filled).statement_policy_infos
        ≡ all_infos (resolved binding_row filled (reader_id ∷ [])))
    × (get_policies_for_role reader_as_role filled
        ≡ ok (map info_of (resolved binding_row filled (reader_id ∷ []))))
compile_statements-resolved_example =
    compile_statements-resolved reader_as_role filled binding_row binding_found refl

acme_undotted : has b'.' acme ≡ false
unfolding has
acme_undotted = refl

parse_role-role_text_example :
    (parse_role (role_text binding_row) ≡ (acme, some reader_role)) ↔ (has b'.' reader_role ≡ false)
parse_role-role_text_example = parse_role-role_text binding_row acme_undotted

abbrev page : PoliciesPage
page = record {
  selected_account = acme;
  search_query = [];
  show_global_policies = true;
  entries = [];
  filtered_entries = [];
  selected_entry = some reader_row;
  message = none;
  route = [];
}

load_policies-IsVisible_example :
    ((e : PolicyEntry)
      → In e (load_policies lower filled page).entries
        ↔ (In e (list_all_policies filled) × IsVisible acme true e))
    × ((e : PolicyEntry)
        → (load_policies lower filled page).selected_entry ≡ some e
        → In e (load_policies lower filled page).entries
          × ((o : PolicyEntry) × (some reader_row ≡ some o)
              × (e.policy.id ≡ o.policy.id)
              × (e.policy.account ≡ o.policy.account)))
    × ((o e : PolicyEntry)
        → ◌≡◌ {A = Option PolicyEntry} (some reader_row) (some o)
        → In e (load_policies lower filled page).entries
        → e.policy.id ≡ o.policy.id
        → e.policy.account ≡ o.policy.account
        → (x : PolicyEntry) × ((load_policies lower filled page).selected_entry ≡ some x))
    × (◌≡◌ {A = Option PolicyEntry} (some reader_row) none
        → (load_policies lower filled page).selected_entry ≡ none)
load_policies-IsVisible_example = load_policies-IsVisible lower filled page

abbrev stale_page : PoliciesPage
stale_page = record page { selected_entry = some (record reader_row { revision = 3 }) }

stale_selection_example :
    (edit_closed lower value_casts value_codec memory
        (codes "8")
        (some reader)
        filled
        stale_page
        held
      ≡ (
        conflicted lower value_casts value_codec memory entry_at memory-IsBucket filled stale_page,
        held,
      ))
    × (delete_closed lower memory true filled stale_page held ≡ (
      conflicted lower value_casts value_codec memory entry_at memory-IsBucket filled stale_page,
      held,
    ))
stale_selection_example =
    stale_selection lower value_casts value_codec memory entry_at memory-IsBucket (codes "8")
      (record reader_row { revision = 3 }) reader filled stale_page held refl reader_not_at_3

abbrev moved : Policy
moved = record reader { account = codes "EU" }

apart : (acme == codes "EU") ≡ false
unfolding ◌==◌
apart = refl

other_key : (policy_key (codes "EU") (codes "8") == policy_key acme reader_id) ≡ false
unfolding ◌==◌ policy_key account_part
other_key = refl

key_other : (policy_key acme reader_id == policy_key (codes "EU") (codes "8")) ≡ false
unfolding ◌==◌ policy_key account_part
key_other = refl

moved_free : is_live (entry_at held (policy_key (codes "EU") (codes "8"))) ≡ false
unfolding Dict.get ◌==◌ is_put policy_key account_part
moved_free = refl

edit_closed-moved_example :
    (u : Memory) × (n : ℕ) × (edit_closed lower value_casts value_codec memory
        (codes "8")
        (some moved)
        filled
        page
        held
      ≡ (record page { message = some (codes "Policy moved to new account") }, u))
    × (is_live (entry_at u (policy_key acme reader_id)) ≡ false)
    × (entry_at u (policy_key (codes "EU") (codes "8"))
        ≡ some (record {
          key = policy_key (codes "EU") (codes "8");
          value = policy_value (record moved { id = codes "8" });
          operation = put;
          revision = n;
        }))
edit_closed-moved_example =
    edit_closed-moved lower value_casts value_codec memory entry_at memory-IsBucket (codes "8")
      reader_row moved filled page held refl apart reader_at_4 other_key key_other moved_free

abbrev renamed : Policy
renamed = record reader { name = codes "Observer" }

abbrev fresh_page : PoliciesPage
fresh_page = record page { selected_entry = some reader_row }

acme_itself : (acme == acme) ≡ true
unfolding ◌==◌
acme_itself = refl

reader_key_lem : policy_key acme reader_id ≡ reader_key
unfolding policy_key account_part ◌==◌
reader_key_lem = refl

filled-IsFiled : IsFiled filled
unfolding Dict.get
filled-IsFiled k x h = by (reader_key == k) refl h
  where
    by :
        (b : Bool)
        → (reader_key == k) ≡ b
        → (if b then some reader_row else none) ≡ some x
        → policy_key x.policy.account x.policy.id ≡ k
    by true q g =
        let r : reader_row ≡ x = cc g in
        ap (λ (y : PolicyEntry). policy_key y.policy.account y.policy.id) (sym r)
        ∙ reader_key_lem
        ∙ (eq_iff reader_key k).0 q
    by false q g = cc

lost_update_example :
    (t u : Memory) × (n k : ℕ) × (edit_closed lower value_casts value_codec memory
        (codes "8")
        (some renamed)
        filled
        fresh_page
        held
      ≡ (record fresh_page { message = some (codes "Policy updated") }, t))
    × (let heard = hear value_casts value_codec (entry_at t (policy_key acme reader_id)) filled in
        let p = load_policies lower heard fresh_page in
        (p.selected_entry ≡ some (record { policy = renamed; revision = n }))
        × (edit_closed lower value_casts value_codec memory (codes "8") (some reader) heard p t
            ≡ (record p { message = some (codes "Policy updated") }, u)))
    × (entry_at u (policy_key acme reader_id)
        ≡ some (record {
          key = policy_key acme reader_id;
          value = policy_value reader;
          operation = put;
          revision = k;
        }))
lost_update_example =
    lost_update lower value_casts value_codec memory entry_at memory-IsBucket (codes "8") reader_row
      (codes "Observer") reader.statements reader filled filled fresh_page fresh_page held refl refl
      acme_itself reader_at_4 acme-IsName reader_id-IsSegment filled-IsCurrent filled-IsFiled
      (λ n. record { chosen = inr (inl refl); allowed = inl refl })

edit_shown_example :
    (t : Memory) × (n : ℕ) × (edit_closed lower value_casts value_codec memory
        (codes "8")
        (some renamed)
        filled
        fresh_page
        held
      ≡ (record fresh_page { message = some (codes "Policy updated") }, t))
    × In
        (record { policy = renamed; revision = n })
        (load_policies lower
          (hear value_casts value_codec (entry_at t (policy_key acme reader_id)) filled)
          fresh_page).entries
edit_shown_example =
    edit_shown lower value_casts value_codec memory entry_at memory-IsBucket (codes "8") reader_row
      renamed filled filled fresh_page fresh_page held refl acme_itself reader_at_4 acme-IsName
      reader_id-IsSegment (λ n. record { chosen = inr (inl refl); allowed = inl refl })
