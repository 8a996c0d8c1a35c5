-- ===== src/KvKeys/Prefixes.antt =====
-- The "_global:" marker on policy IDs.
use nauts.Base.{◌≡◌, sym, true, if◌then◌else◌, drop-append, Bool-cases, inl, inr}
use nauts.Base.Text.{Text, starts_with, starts_with-append, starts_with-drop}
use nauts.KvKeys.{global_policy_prefix, strip_global_prefix, add_global_prefix, has_global_prefix}

-- The marker that is added is found and is taken off again; taking it off and, where it was found,
-- adding it gives the ID back.
pub strip_global_prefix-add :
    (id : Text)
    → (has_global_prefix (add_global_prefix id) ≡ true)
      × (strip_global_prefix (add_global_prefix id) ≡ id)
      × ((if has_global_prefix id
            then add_global_prefix (strip_global_prefix id)
            else strip_global_prefix id)
          ≡ id)
strip_global_prefix-add id = (found, stripped, restored)
  where
    found : has_global_prefix (add_global_prefix id) ≡ true
    found = unfold has_global_prefix add_global_prefix in starts_with-append global_policy_prefix id

    stripped : strip_global_prefix (add_global_prefix id) ≡ id
    stripped =
        unfold strip_global_prefix add_global_prefix in
        rw (starts_with-append global_policy_prefix id) (drop-append global_policy_prefix id)

    restored :
        (if has_global_prefix id
          then add_global_prefix (strip_global_prefix id)
          else strip_global_prefix id)
        ≡ id
    restored =
        unfold has_global_prefix strip_global_prefix add_global_prefix in
        elim (Bool-cases (starts_with id global_policy_prefix)) [
          | inl e ↦ rw (e) (sym (starts_with-drop id global_policy_prefix e))
          | inr e ↦ rw (e)
        ]
