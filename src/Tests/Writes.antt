-- ===== src/Tests/Writes.antt =====
-- The theorems on writes at concrete inputs.
use nauts.Base.{ℕ, ◌≡◌, none, some}
use nauts.Base.Text.{codes}
use nauts.Thrown.{conflict, ok, throw}
use nauts.KvKeys.{policy_key}
use nauts.KvStore
use nauts.KvStore.{KvEntry, KvEvent, put_event, del_event}
use nauts.PolicyStore.{on_event, get_policy, create_policy, update_policy, delete_policy}
use nauts.PolicyStore.Writes.{hear, get-create_policy, stale_policy_conflict, get-delete_policy}
use nauts.Tests.Data.{acme, reader_id, acme-IsName, reader_id-IsSegment, reader}
use nauts.Tests.Bucket.{value_casts, value_codec, Memory, entry_at, memory, memory-IsBucket}
use nauts.Tests.Stores.{
  filled, held, filled-IsCurrent, reader_at_4, reader_not_at_3, other_free, other_id-IsSegment,
}

get-create_policy_example :
    (t : Memory) × (n : ℕ) × (create_policy value_casts value_codec memory (codes "8") reader held
      ≡ (ok n, t))
    × (get_policy acme
          (codes "8")
          (hear value_casts value_codec (entry_at t (policy_key acme (codes "8"))) filled)
        ≡ some (record { policy = record reader { id = codes "8" }; revision = n }))
get-create_policy_example =
    get-create_policy value_casts value_codec memory entry_at memory-IsBucket (codes "8") reader
      held filled acme-IsName other_id-IsSegment other_free

stale_policy_conflict_example :
    (update_policy value_casts value_codec memory acme reader_id reader 3 held
      ≡ (throw (conflict (policy_key acme reader_id)), held))
    × (delete_policy memory acme reader_id 3 held
        ≡ (throw (conflict (policy_key acme reader_id)), held))
stale_policy_conflict_example =
    stale_policy_conflict value_casts value_codec memory entry_at memory-IsBucket acme reader_id
      reader 3 held reader_not_at_3

get-delete_policy_example :
    (t : Memory) × (delete_policy memory acme reader_id 4 held ≡ (ok tt, t))
    × (KvStore.get value_codec memory (policy_key acme reader_id) t ≡ (ok none, t))
    × (get_policy acme reader_id
          (on_event value_casts (del_event (policy_key acme reader_id) 6) filled)
        ≡ none)
get-delete_policy_example =
    get-delete_policy value_casts value_codec memory entry_at memory-IsBucket acme reader_id 4 6
      held filled filled-IsCurrent acme-IsName reader_id-IsSegment reader_at_4
