-- ===== src/Tests/Dialogs.antt =====
-- The theorems on the dialogs at concrete inputs.
use nauts.Base.{true, refl, ◌≡◌, ◌↔◌, some, [], ◌∷◌, All}
use nauts.KvKeys.{has_global_prefix, strip_global_prefix}
use nauts.BindingDialog.{DialogData, edit_mode, is_global_policy, save, opened}
use nauts.BindingDialog.Markers.{save-opened}
use nauts.Models.{Binding}
use nauts.Thrown.{ok}
use nauts.Tests.Sessions.{lower}
use nauts.Tests.Data.{acme, reader_id, reader_binding}
use nauts.Tests.Stores.{reader_row}

abbrev given : DialogData
given = record {
  mode = edit_mode;
  binding = some reader_binding;
  accounts = acme ∷ [];
  all_policy_entries = reader_row ∷ [];
  current_account = acme;
}

save-opened_example :
    (c : Binding) × ((save given lower
        (λ b. b.role)
        (λ t. ok reader_binding)
        (λ f. true)
        (opened given)).closed
      ≡ some c)
    × ((c ≡ reader_binding)
        ↔ All
            (λ id. has_global_prefix id ≡ is_global_policy given (strip_global_prefix id))
            (reader_id ∷ []))
save-opened_example =
    save-opened given lower (λ b. b.role) (λ t. ok reader_binding) (λ f. true) reader_binding refl
      refl refl
