-- ===== src/Tests/Lists.antt =====
-- The theorems on what is collected and listed, at concrete inputs.
use nauts.Base.{ℕ, ◌++◌, ◌≢◌, true, is_nonempty, ◌+◌, ◌≡◌, refl, false, none, some, [], ◌∷◌}
use nauts.Base.Decimal.{decimal}
use nauts.Base.Text.{Text, ◌==◌, codes}
use nauts.Base.Dict.{Dict}
use nauts.Thrown.{ok}
use nauts.KvKeys.{global_prefix}
use nauts.PolicyDetails.{
  PolicyDetails, get_policy_mismatch_message, mismatch_warning, policy_mismatch,
}
use nauts.PolicyDetails.Mismatch.{mismatch_warning_lem}
use nauts.BindingDetails.{join_messages}
use nauts.BucketDialog.{BucketDialog, import_data}
use nauts.BucketDialog.Import.{import_data-message, failures}
use nauts.Tests.Data.{acme, reader_id, reader}
use nauts.Tests.Bucket.{Value, policy_value, value_codec, memory}
use nauts.Tests.Stores.{reader_key, held}

abbrev details : PolicyDetails
details = record {
  entry = none;
  resource_errors = [];
  related_bindings = [];
  current_account = acme;
  current_policy_id = reader_id;
}

abbrev import_dialog : BucketDialog
import_dialog = record {
  loading = false;
  json_text = codes "{}";
  json_error = [];
  message = none;
  imported = false;
}

abbrev two_entries : Dict Value
two_entries = (reader_key, policy_value reader) ∷ (codes "EU.policy.1", policy_value reader) ∷ []

import_data-message_example :
    let m =
      (import_data value_codec memory (λ t. ok (some two_entries)) import_dialog held).0.message in
    let n = failures value_codec memory two_entries held in
    (n ≡ 0 → m ≡ some (codes "Successfully imported " ++ (decimal 2 ++ codes " entries")))
    × (n ≢ 0
        → (i : ℕ) × (i + n ≡ 2)
          × (m
              ≡ some (
                  codes "Imported "
                  ++ (decimal i ++ (codes " entries with " ++ (decimal n ++ codes " errors"))))))
import_data-message_example =
    import_data-message value_codec memory (λ t. ok (some two_entries)) import_dialog held
      two_entries refl

abbrev global_details : PolicyDetails
global_details = record {
  entry = some (record { policy = record reader { account = codes "_global" }; revision = 4 });
  resource_errors = [];
  related_bindings = [];
  current_account = acme;
  current_policy_id = reader_id;
}

mismatch_warning_lem_example :
    ((t : Text) → mismatch_warning global_details ≡ some t → is_nonempty t ≡ true)
    × (◌≡◌ {A = Text} (codes "_global") global_prefix
        → (codes "_global" == acme) ≡ false
        → ((reader_id == reader_id) ≡ true
            → (mismatch_warning global_details ≡ none)
              × (is_nonempty (get_policy_mismatch_message global_details) ≡ true))
          × ((reader_id == reader_id) ≡ false
              → mismatch_warning global_details
                ≡ some (
                    join_messages (
                      policy_mismatch (codes "Account") global_prefix acme
                      ++ policy_mismatch (codes "ID") reader_id reader_id))))
mismatch_warning_lem_example =
    mismatch_warning_lem global_details
      (record { policy = record reader { account = codes "_global" }; revision = 4 }) refl refl refl
