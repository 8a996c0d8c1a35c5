-- ===== src/KvStore.antt =====
-- The store of JSON values in the KV bucket: ctrlp/src/app/services/kv-store.service.ts. The bucket
-- of the client library, and `getKvBucket` of the connection, enter as calls in a state.
pub mod Client
pub mod Bucket
pub mod Writes
pub mod Reads
use nauts.Base.{ℕ, ◌≡◌, Bool, true, false, Option, none, some, List, [], ◌∷◌, ◌++◌, if◌then◌else◌}
use nauts.Base.Text.{Text, codes, includes}
use nauts.Thrown.{
  Thrown, error, conflict, Outcome, ok, throw, Exec, ◌>>=◌, ◌>>◌, pure, raise, lift, attempt,
  message_of,
}
use nauts.KvStore.Client.{Operation, RawEntry, KvClient, Codec, is_put}

pub record KvEntry (V : Type 0) : Type 0 where
  pub key : Text
  pub value : V
  pub revision : ℕ

-- What the callback of `watch` is called with: an entry, or the key of a deleted one.
pub data KvEvent (V : Type 0) : Type 0 where
  put_event : KvEntry V → KvEvent V
  del_event : Text → ℕ → KvEvent V

abbrev pub bad_json : Thrown
bad_json = error (codes "Unexpected token in JSON")

-- The test of the handlers of writes.
abbrev says_wrong_sequence : Option Text → Bool
says_wrong_sequence none = false
says_wrong_sequence (some m) = includes m (codes "wrong last sequence")

unfoldable pub rethrow : Text → Thrown → Thrown
rethrow key err = if says_wrong_sequence (message_of err) then conflict key else err

-- The frame of the three writes: they get the bucket, and pass on the errors of the call, those
-- about the sequence as conflicts.
unfoldable pub write : {D S A : Type 0} → KvClient D S → Text → Exec S A → Exec S A
write kv key call = do kv.get_kv_bucket; attempt call (λ err. raise (rethrow key err))

module _ {V D : Type 0} (json : Codec V D) where
  unfoldable pub decode_value : RawEntry D → Option V → Outcome (KvEntry V)
  decode_value entry none = throw bad_json
  decode_value entry (some value) =
      ok (record { key = entry.key; value = value; revision = entry.revision })

  unfoldable pub decode : RawEntry D → Outcome (KvEntry V)
  unfolding decode_value
  decode entry = decode_value entry (json.decode entry.value)

  unfoldable pub to_some : Outcome (KvEntry V) → Outcome (Option (KvEntry V))
  to_some (ok e) = ok (some e)
  to_some (throw err) = throw err

  -- The entry, unless the read found none or a deletion.
  unfoldable pub usable : Option (RawEntry D) → Outcome (Option (KvEntry V))
  unfolding decode
  usable none = ok none
  usable (some entry) = if is_put entry.operation then to_some (decode entry) else ok none

  -- The entries of a watch, deletions left out; an entry that cannot be decoded ends the loop.
  unfoldable pub decode_all : List (RawEntry D) → Outcome (List (KvEntry V))
  decode_all [] = ok []
  decode_all (entry ∷ entries) =
      let rest = decode_all entries in
      if is_put entry.operation
      then elim (decode entry) [
        | throw err ↦ throw err
        | ok e ↦ elim rest [ throw err ↦ throw err | ok es ↦ ok (e ∷ es) ]
      ]
      else rest

  module _ {S : Type 0} (kv : KvClient D S) where
    unfoldable pub read : Text → Exec S (Option (KvEntry V))
    unfolding usable
    read key = do entry ← kv.get key; lift (usable entry)

    -- Every error of the read or the decoding gives `null`.
    unfoldable pub get : Text → Exec S (Option (KvEntry V))
    unfolding read
    get key = do kv.get_kv_bucket; attempt (read key) (λ _. pure none)

    get_each : List Text → Exec S (List (KvEntry V))
    unfolding get
    get_each [] = pure []
    get_each (key ∷ keys) = do
      entry ← get key
      rest ← get_each keys
      pure (elim entry [ none ↦ rest | some e ↦ e ∷ rest ])

    unfoldable pub list_by_filter : Text → Exec S (List (KvEntry V))
    unfolding get_each
    list_by_filter pattern = do kv.get_kv_bucket; keys ← kv.keys pattern; get_each keys

    unfoldable pub list : Text → Exec S (List (KvEntry V))
    unfolding list_by_filter
    list prefix = list_by_filter (prefix ++ codes ">")

    -- The client has the initial entries of the watch; where the bucket was empty it says so before
    -- the watch is at hand, and nothing is read.
    unfoldable pub list_all : Exec S (List (KvEntry V))
    unfolding decode_all
    list_all = do
      kv.get_kv_bucket
      initial ← kv.watch_initial
      if initial.early then pure [] else lift (decode_all initial.entries)

    unfoldable pub put : Text → V → Option ℕ → Exec S ℕ
    unfolding write
    put key value revision = write kv key (kv.put key (json.encode value) revision)

    unfoldable pub create : Text → V → Exec S ℕ
    unfolding write
    create key value = write kv key (kv.create key (json.encode value))

  unfoldable pub event_of : RawEntry D → Outcome (KvEvent V)
  unfolding decode
  event_of entry =
      if is_put entry.operation
      then elim (decode entry) [ throw err ↦ throw err | ok e ↦ ok (put_event e) ]
      else ok (del_event entry.key entry.revision)

  -- The loop of a watch over the entries that come: each is handed to the callback, and one that
  -- cannot be decoded ends the loop, which logs the error.
  unfoldable pub watch : {T : Type 0} → (KvEvent V → T → T) → List (RawEntry D) → T → T
  watch callback [] t = t
  watch callback (entry ∷ entries) t = elim (event_of entry) [
    | throw err ↦ t
    | ok event ↦ watch callback entries (callback event t)
  ]

-- `watch` up to its loop, which then runs on its own.
unfoldable pub begin_watch : {D S : Type 0} → KvClient D S → Exec S Unit
begin_watch kv = do kv.get_kv_bucket; kv.watch_start

unfoldable pub delete : {D S : Type 0} → KvClient D S → Text → ℕ → Exec S Unit
unfolding write
delete kv key revision = write kv key (kv.delete key revision)
