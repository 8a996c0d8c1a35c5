-- ===== src/BucketDialog.antt =====
-- The dialog that shows, exports and imports the bucket as JSON:
-- ctrlp/src/app/shared/bucket-export-dialog.component.ts. `JSON` enters as two functions on the
-- entries of an object; reading something else than an object gives none. A download is the text of
-- its file.
pub mod Import
use nauts.Base.{
  ℕ, suc, ◌+◌, Bool, true, false, not, Option, none, some, List, [], ◌∷◌, ◌++◌, if◌then◌else◌,
  nat_eq,
}
use nauts.Base.Text.{Text, codes}
use nauts.Base.Decimal.{decimal}
use nauts.Base.Dict
use nauts.Base.Dict.{Dict}
use nauts.Thrown.{Thrown, error, Outcome, ok, throw, message_of}
use nauts.KvStore
use nauts.KvStore.{KvEntry}
use nauts.KvStore.Client.{KvClient, Codec}

pub record BucketDialog : Type 0 where
  pub loading : Bool
  pub json_text : Text
  pub json_error : Text
  pub message : Option Text
  pub imported : Bool

abbrev pub text_or : Text → Option Text → Text
text_or default none = default
text_or default (some m) = m

-- `bucketData[entry.key] = entry.value`
unfoldable pub bucket_data : {V : Type 0} → List (KvEntry V) → Dict V → Dict V
bucket_data [] data_so_far = data_so_far
bucket_data (e ∷ es) data_so_far = bucket_data es (Dict.set e.key e.value data_so_far)

-- `exportToFile`, with the file that it offers, if any.
unfoldable pub export_to_file :
    {A : Type 0} → (Text → Outcome A) → BucketDialog → BucketDialog × Option Text
export_to_file parse d = elim (parse d.json_text) [
  | ok a ↦ (record d { message = some (codes "Bucket data exported") }, some d.json_text)
  | throw err ↦
      let m = text_or (codes "Invalid JSON") (message_of err) in
      (record d { json_error = m; message = some (codes "Export failed: " ++ m) }, none)
]

module _ {V D B : Type 0} (json : Codec V D) (kv : KvClient D B) where
  module _ (stringify : Dict V → Text) where
    unfoldable pub shown_data : Outcome (List (KvEntry V)) → BucketDialog → BucketDialog
    unfolding bucket_data
    shown_data (ok es) d = record d { json_text = stringify (bucket_data es []); loading = false }
    shown_data (throw err) d =
        let m = text_or (codes "Failed to load bucket data") (message_of err) in
        record d { json_error = m; message = some m; loading = false }

    unfoldable pub load_bucket_data : BucketDialog → B → BucketDialog × B
    unfolding shown_data
    load_bucket_data d b =
        let (r, c) = KvStore.list_all json kv b in
        (shown_data r (record d { loading = true; json_error = [] }), c)

  -- The counters after one `put`.
  unfoldable pub counted : Outcome ℕ → ℕ × ℕ → ℕ × ℕ
  counted (ok n) (imported, errors) = (suc imported, errors)
  counted (throw err) (imported, errors) = (imported, suc errors)

  -- The loop over the entries, with the counters of imported entries and of errors.
  unfoldable pub import_entries : Dict V → ℕ × ℕ → B → (ℕ × ℕ) × B
  unfolding counted
  import_entries [] counts b = (counts, b)
  import_entries ((key, value) ∷ es) counts b =
      let (r, c) = KvStore.put json kv key value none b in import_entries es (counted r counts) c

  abbrev pub report : ℕ × ℕ → Text
  report (imported, errors) =
      if not (nat_eq errors 0)
      then codes "Imported "
        ++ (decimal imported ++ (codes " entries with " ++ (decimal errors ++ codes " errors")))
      else codes "Successfully imported " ++ (decimal imported ++ codes " entries")

  unfoldable pub import_failed : Thrown → BucketDialog → BucketDialog
  import_failed err d =
      let m = text_or (codes "Import failed") (message_of err) in
      record d { json_error = m; message = some (codes "Import failed: " ++ m); loading = false }

  unfoldable pub import_parsed : Outcome (Option (Dict V)) → BucketDialog → B → BucketDialog × B
  unfolding import_entries import_failed
  import_parsed (throw err) d b = (import_failed err d, b)
  import_parsed (ok none) d b =
      (import_failed (error (codes "JSON must be an object with key-value pairs")) d, b)
  import_parsed (ok (some entries)) d b =
      let (counts, c) = import_entries entries (0, 0) b in
      (record d { message = some (report counts); imported = true; loading = false }, c)

  unfoldable pub import_data :
      (Text → Outcome (Option (Dict V))) → BucketDialog → B → BucketDialog × B
  unfolding import_parsed
  import_data parse d b =
      import_parsed (parse d.json_text) (record d { loading = true; json_error = [] }) b
