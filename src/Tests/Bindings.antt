-- ===== src/Tests/Bindings.antt =====
-- The theorems on the page of bindings at concrete inputs.
use nauts.Base.{
  ◌⊎◌, find, filter, ℕ, ◌≡◌, ◌↔◌, refl, true, false, none, some, [], ◌∷◌, In, nat_eq, is_nonempty,
}
use nauts.Base.Text.{is_empty, Text, codes, ◌==◌}
use nauts.Base.Dict
use nauts.Models.{Binding, BindingEntry}
use nauts.KvKeys.{strip_global_prefix, binding_key}
use nauts.KvStore.Client.{put, is_put}
use nauts.KvStore.Bucket.{revision_of, is_live}
use nauts.PoliciesPage.{conflict_message}
use nauts.PolicyStore.{list_all_bindings, list_bindings}
use nauts.BindingsPage.{
  visible_bindings, filter_bindings, matches_filters, reselected, refound, reselect_binding,
  same_binding, BindingsPage, load_bindings, edit_binding_closed, has_dangling_policies,
  update_dangling_policies, update_available,
}
use nauts.BindingDialog
use nauts.BindingsPage.{create_data}
use nauts.BindingsPage.Offers.{typed, create_dialog_offers}
use nauts.BindingsPage.Found.{load_bindings-selected}
use nauts.BindingsPage.Dangling.{has_dangling_policies-details}
use nauts.BindingsPage.Renaming.{renamed_onto_taken, renamed_onto_free, updated_in_place}
use nauts.Tests.Data.{acme, reader_id, reader_role, reader_binding}
use nauts.Tests.Bucket.{
  binding_value, value_casts, value_codec, Memory, entry_at, memory, memory-IsBucket,
}
use nauts.Tests.Stores.{reader_row, binding_row, filled}
use nauts.Tests.Sessions.{lower}

abbrev page : BindingsPage
page = record {
  selected_account = acme;
  role_filter = [];
  policy_filter = [];
  entries = [];
  filtered_entries = [];
  selected_entry = some binding_row;
  available_policies = reader_id ∷ [];
  available_policy_entries = reader_row ∷ [];
  policy_map = [];
  dangling_policies = [];
  all_bindings = binding_row ∷ [];
  all_policies = reader_row ∷ [];
  message = none;
  route = [];
}

still_selected : (load_bindings lower filled page).selected_entry ≡ some binding_row
unfolding load_bindings filter_bindings update_dangling_policies visible_bindings list_bindings
    reselected refound reselect_binding same_binding matches_filters find filter Dict.values ◌==◌
still_selected = refl

load_bindings-selected_example :
    In binding_row (list_all_bindings filled)
    × ((is_empty acme ≡ true) ⊎ (acme ≡ acme))
    × ((o : BindingEntry) × (some binding_row ≡ some o)
        × (reader_role ≡ o.binding.role)
        × (acme ≡ o.binding.account))
    × ((id : Text)
        → In id (load_bindings lower filled page).dangling_policies
          ↔ (In id (reader_id ∷ []) × ¬ In (strip_global_prefix id) (reader_id ∷ [])))
load_bindings-selected_example = load_bindings-selected lower filled page binding_row still_selected

has_dangling_policies-details_example :
    has_dangling_policies (reader_row ∷ []) binding_row
    ≡ is_nonempty
        (update_dangling_policies
          (update_available (record page { selected_entry = some binding_row }))).dangling_policies
has_dangling_policies-details_example = has_dangling_policies-details page binding_row refl refl

-- Two bindings of one account.
abbrev old_key : Text
old_key = codes "ACME.binding.reader"

abbrev new_key : Text
new_key = codes "ACME.binding.writer"

abbrev writer_binding : Binding
writer_binding = record { role = codes "writer"; account = acme; policies = [] }

abbrev alone : Memory
alone = record {
  entries =
      (
        old_key,
        record {
          key = old_key;
          value = binding_value reader_binding;
          operation = put;
          revision = 5;
        },
      )
      ∷ [];
  last = 5;
}

abbrev both : Memory
both = record {
  entries =
      (
        old_key,
        record {
          key = old_key;
          value = binding_value reader_binding;
          operation = put;
          revision = 5;
        },
      )
      ∷ (
        new_key,
        record {
          key = new_key;
          value = binding_value writer_binding;
          operation = put;
          revision = 6;
        },
      )
      ∷ [];
  last = 6;
}

abbrev result : Binding
result = record reader_binding { role = codes "writer" }

other_role : (reader_role == codes "writer") ≡ false
unfolding ◌==◌
other_role = refl

same_role : (reader_role == reader_role) ≡ true
unfolding ◌==◌
same_role = refl

old_keyed : binding_key acme reader_role ≡ some old_key
unfolding binding_key ◌==◌
old_keyed = refl

new_keyed : binding_key acme (codes "writer") ≡ some new_key
unfolding binding_key ◌==◌
new_keyed = refl

new_old : (new_key == old_key) ≡ false
unfolding ◌==◌
new_old = refl

old_new : (old_key == new_key) ≡ false
unfolding ◌==◌
old_new = refl

fresh_alone : nat_eq (revision_of (entry_at alone old_key)) 5 ≡ true
unfolding Dict.get ◌==◌
fresh_alone = refl

fresh_both : nat_eq (revision_of (entry_at both old_key)) 5 ≡ true
unfolding Dict.get ◌==◌
fresh_both = refl

taken : is_live (entry_at both new_key) ≡ true
unfolding Dict.get ◌==◌ is_put
taken = refl

free : is_live (entry_at alone new_key) ≡ false
unfolding Dict.get ◌==◌ is_put
free = refl

renamed_onto_taken_example :
    (t : Memory) × (edit_binding_closed lower value_casts value_codec memory
        (some result)
        filled
        page
        both
      ≡ (load_bindings lower filled (record page { message = some conflict_message }), t))
    × (is_live (entry_at t old_key) ≡ false)
    × (entry_at t new_key ≡ entry_at both new_key)
renamed_onto_taken_example =
    renamed_onto_taken value_casts value_codec memory lower entry_at memory-IsBucket binding_row
      result old_key new_key filled page both refl other_role old_keyed new_keyed new_old fresh_both
      taken

renamed_onto_free_example :
    (u : Memory) × (k : ℕ) × (edit_binding_closed lower value_casts value_codec memory
        (some result)
        filled
        page
        alone
      ≡ (record page { message = some (codes "Binding renamed") }, u))
    × (is_live (entry_at u old_key) ≡ false)
    × (entry_at u new_key
        ≡ some
            (record { key = new_key; value = binding_value result; operation = put; revision = k }))
renamed_onto_free_example =
    renamed_onto_free value_casts value_codec memory lower entry_at memory-IsBucket binding_row
      result old_key new_key filled page alone refl other_role old_keyed new_keyed new_old old_new
      fresh_alone free

abbrev elsewhere : Binding
elsewhere = record reader_binding { account = codes "EU" }

updated_in_place_example :
    (t : Memory) × (k : ℕ) × (edit_binding_closed lower value_casts value_codec memory
        (some elsewhere)
        filled
        page
        alone
      ≡ (record page { message = some (codes "Binding updated") }, t))
    × (entry_at t old_key
        ≡ some (record {
          key = old_key;
          value = binding_value elsewhere;
          operation = put;
          revision = k;
        }))
updated_in_place_example =
    updated_in_place value_casts value_codec memory lower entry_at memory-IsBucket binding_row
      elsewhere old_key filled page alone refl same_role old_keyed fresh_alone

create_dialog_offers_example :
    In reader_row
      (typed lower
        (create_data page)
        (codes "EU" ∷ [])
        (BindingDialog.opened (create_data page))).account_specific_policies
    ↔ (In reader_row (reader_row ∷ []) × (acme ≡ acme))
create_dialog_offers_example = create_dialog_offers lower page (codes "EU" ∷ []) reader_row
