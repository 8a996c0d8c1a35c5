-- ===== src/Tests/Stores.antt =====
-- The theorems on the stores at concrete inputs.
use nauts.Base.{◌≡◌, refl, true, false, none, List, [], ◌∷◌, map, nat_eq, if◌then◌else◌, all}
use nauts.Base.Text.{Text, codes, ◌==◌, has}
use nauts.Base.Dict
use nauts.Models.{PolicyEntry, BindingEntry}
use nauts.Thrown.{ok}
use nauts.KvKeys.{policy_key, account_part, is_line, is_line_terminator}
use nauts.KvKeys.RoundTrip.{IsSegment}
use nauts.KvStore
use nauts.KvStore.{KvEntry, KvEvent, put_event, del_event}
use nauts.KvStore.Client.{RawEntry, put, purge, is_put}
use nauts.KvStore.Bucket.{revision_of, is_live}
use nauts.PolicyStore.{Store, empty, kind_of, on_event, initialize}
use nauts.PolicyStore.Tracking.{
  IsCurrent, is_policy_kind, is_binding_kind, last_policy, last_binding,
}
use nauts.PolicyStore.Lookup.{get-watch, heard}
use nauts.PolicyStore.Loading.{initialize-loads}
use nauts.Tests.Data.{acme, reader_id, reader, reader_binding}
use nauts.Tests.Bucket.{
  Value, policy_value, binding_value, value_casts, value_codec, Memory, entry_at, memory,
}

abbrev pub reader_key : Text
reader_key = codes "ACME.policy.7f3a"

abbrev reader_entry : KvEntry Value
reader_entry = record { key = reader_key; value = policy_value reader; revision = 4 }

abbrev binding_entry : KvEntry Value
binding_entry = record {
  key = codes "ACME.binding.reader";
  value = binding_value reader_binding;
  revision = 5;
}

abbrev entries : List (RawEntry Value)
entries =
    record { key = reader_key; value = policy_value reader; operation = put; revision = 4 }
    ∷ record {
      key = codes "ACME.binding.reader";
      value = binding_value reader_binding;
      operation = put;
      revision = 5;
    }
    ∷ record { key = reader_key; value = policy_value reader; operation = purge; revision = 6 }
    ∷ []

empty-IsCurrent : IsCurrent empty
unfolding Dict.values
empty-IsCurrent = record {
  policy_keys = tt;
  binding_keys = tt;
  policies_told = refl;
  bindings_told = refl;
}

get-watch_example :
    IsCurrent (KvStore.watch value_codec (on_event value_casts) entries empty)
    × (Dict.get reader_key
          (KvStore.watch value_codec (on_event value_casts) entries empty).policies_map
        ≡ (if is_policy_kind (kind_of reader_key)
            then last_policy value_casts reader_key
                (heard value_codec entries)
                (Dict.get reader_key empty.policies_map)
            else Dict.get reader_key empty.policies_map))
    × (Dict.get reader_key
          (KvStore.watch value_codec (on_event value_casts) entries empty).bindings_map
        ≡ (if is_binding_kind (kind_of reader_key)
            then last_binding value_casts reader_key
                (heard value_codec entries)
                (Dict.get reader_key empty.bindings_map)
            else Dict.get reader_key empty.bindings_map))
get-watch_example = get-watch value_casts value_codec reader_key entries empty empty-IsCurrent

abbrev pub reader_row : PolicyEntry
reader_row = record { policy = reader; revision = 4 }

abbrev pub binding_row : BindingEntry
binding_row = record { binding = reader_binding; revision = 5 }

abbrev pub filled : Store
filled = record {
  policies_map = (reader_key, reader_row) ∷ [];
  bindings_map = (codes "ACME.binding.reader", binding_row) ∷ [];
  policies_subject = reader_row ∷ [];
  bindings_subject = binding_row ∷ [];
  initialized = true;
  watching = true;
}

pub filled-IsCurrent : IsCurrent filled
unfolding Dict.values
filled-IsCurrent = record {
  policy_keys = (tt, tt);
  binding_keys = (tt, tt);
  policies_told = refl;
  bindings_told = refl;
}

abbrev pub held : Memory
held = record {
  entries =
      (
        reader_key,
        record { key = reader_key; value = policy_value reader; operation = put; revision = 4 },
      )
      ∷ [];
  last = 5;
}

pub other_free : is_live (entry_at held (policy_key acme (codes "8"))) ≡ false
unfolding Dict.get ◌==◌ is_put policy_key account_part
other_free = refl

pub other_id-IsSegment : IsSegment (codes "8")
unfolding is_line is_line_terminator all has
other_id-IsSegment = record { name = record { full = λ e. cc; line = refl }; undotted = refl }

pub reader_at_4 : nat_eq (revision_of (entry_at held (policy_key acme reader_id))) 4 ≡ true
unfolding Dict.get ◌==◌ policy_key account_part
reader_at_4 = refl

pub reader_not_at_3 : nat_eq (revision_of (entry_at held (policy_key acme reader_id))) 3 ≡ false
unfolding Dict.get ◌==◌ policy_key account_part
reader_not_at_3 = refl

held_listed : KvStore.list_all value_codec memory held ≡ (ok (reader_entry ∷ []), held)
unfolding KvStore.list_all KvStore.decode_all KvStore.decode KvStore.decode_value Dict.values is_put
held_listed = refl

held_watched : KvStore.begin_watch memory held ≡ (ok tt, held)
unfolding KvStore.begin_watch
held_watched = refl

initialize-loads_example :
    (t : Store) × (initialize value_casts value_codec memory empty held ≡ ((ok tt, t), held))
    × IsCurrent t
    × (t.watching ≡ true)
    × (initialize value_casts value_codec memory t held ≡ ((ok tt, t), held))
    × (Dict.get reader_key t.policies_map ≡ (
        if is_policy_kind (kind_of reader_key)
        then last_policy value_casts reader_key (map put_event (reader_entry ∷ [])) none
        else none))
    × (Dict.get reader_key t.bindings_map ≡ (
        if is_binding_kind (kind_of reader_key)
        then last_binding value_casts reader_key (map put_event (reader_entry ∷ [])) none
        else none))
initialize-loads_example =
    initialize-loads value_casts value_codec memory reader_key (reader_entry ∷ []) held held held
      held held_listed held_watched
