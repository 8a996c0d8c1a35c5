-- ===== src/KvStore/Reads.antt =====
-- Reading back what was written.
use nauts.Base.{ℕ, ◌≡◌, refl, sym, ap, ◌∙◌, true, false, Option, none, some, nat_eq}
use nauts.Base.Text.{Text, ◌==◌}
use nauts.Thrown.{Outcome, ok, throw, attempt, lift, pure}
use nauts.Thrown.Laws.{bind-ok, then-ok, attempt-ok, attempt-throw}
use nauts.KvStore
use nauts.KvStore.{KvEntry, usable, decode, decode_value}
use nauts.KvStore.Client.{Operation, put, del, RawEntry, KvClient, Codec, is_put}
use nauts.KvStore.Bucket.{revision_of, is_live, Written, IsBucket}
use nauts.KvStore.Writes.{put_made, create_made, delete_made}

module _ {V D S : Type 0} (json : Codec V D) (kv : KvClient D S)
    (current : S → Text → Option (RawEntry D)) (bucket : IsBucket kv current) where
  -- What a read shows: nothing for a key that is not live or whose text is not JSON.
  abbrev shown : Outcome (Option (KvEntry V)) → Option (KvEntry V)
  shown (ok o) = o
  shown (throw e) = none

  read-usable : (s : S) (key : Text) → KvStore.read json kv key s ≡ (usable json (current s key), s)
  unfolding KvStore.read
  read-usable s key = bind-ok (kv.get key) (λ entry. lift (usable json entry)) (bucket.gets s key)

  -- A read shows the last entry of its key, and changes nothing.
  get-shown :
      (s : S) (key : Text)
      → KvStore.get json kv key s ≡ (ok (shown (usable json (current s key))), s)
  get-shown s key =
      unfold KvStore.get in
      then-ok kv.get_kv_bucket (attempt (KvStore.read json kv key) (λ _. pure none))
        (bucket.opens s)
      ∙ by (usable json (current s key)) (read-usable s key)
    where
      by :
          (o : Outcome (Option (KvEntry V)))
          → KvStore.read json kv key s ≡ (o, s)
          → attempt (KvStore.read json kv key) (λ _. pure none) s ≡ (ok (shown o), s)
      by (ok o) e = attempt-ok (KvStore.read json kv key) (λ _. pure none) e
      by (throw x) e = attempt-throw (KvStore.read json kv key) (λ _. pure none) e

  usable_written :
      (key : Text) (v : V) (n : ℕ)
      → usable json
          (some (record { key = key; value = json.encode v; operation = put; revision = n }))
        ≡ ok (some (record { key = key; value = v; revision = n }))
  unfolding usable KvStore.to_some decode decode_value is_put
  usable_written key v n =
      ap
        (λ o. KvStore.to_some json (
          decode_value json
            (record { key = key; value = json.encode v; operation = put; revision = n }) o))
        (json.decode-encode v)

  usable_deleted :
      (key : Text) (mark : D) (n : ℕ)
      → usable json (some (record { key = key; value = mark; operation = del; revision = n }))
        ≡ ok none
  unfolding usable is_put
  usable_deleted key mark n = refl

  read_back :
      (s t : S) (key : Text) (v : V) (n : ℕ)
      → Written kv current s key (json.encode v) put t n
      → KvStore.get json kv key t ≡ (ok (some (record { key = key; value = v; revision = n })), t)
  read_back s t key v n w =
      get-shown t key
      ∙ ap (λ o. (ok (shown o), t)) (ap (usable json) w.here ∙ usable_written key v n)

  read_elsewhere :
      (s t : S) (key j : Text) (text : D) (op : Operation) (n : ℕ)
      → Written kv current s key text op t n
      → (j == key) ≡ false
      → (KvStore.get json kv j t).0 ≡ (KvStore.get json kv j s).0
  read_elsewhere s t key j text op n w e =
      ap (λ r. r.0) (get-shown t j)
      ∙ ap (λ o. ok (shown (usable json o))) (w.elsewhere j e)
      ∙ sym (ap (λ r. r.0) (get-shown s j))

  -- In a bucket that behaves as documented, a write over the last revision of a key returns a
  -- revision, and `get` then shows the value under that revision, and of every other key what it
  -- showed before.
  pub get-put :
      (s : S) (key : Text) (v : V) (r : ℕ)
      → nat_eq (revision_of (current s key)) r ≡ true
      → (t : S) × (n : ℕ) × (KvStore.put json kv key v (some r) s ≡ (ok n, t))
        × (KvStore.get json kv key t
            ≡ (ok (some (record { key = key; value = v; revision = n })), t))
        × ((j : Text)
            → (j == key) ≡ false
            → (KvStore.get json kv j t).0 ≡ (KvStore.get json kv j s).0)
  get-put s key v r h =
      let (t, n, e, w) = put_made kv current bucket json s key v r h in
      (t, n, e, read_back s t key v n w, λ j d. read_elsewhere s t key j (json.encode v) put n w d)

  -- Creating a key that holds no value returns a revision, and `get` then shows the value under it.
  pub get-create :
      (s : S) (key : Text) (v : V)
      → is_live (current s key) ≡ false
      → (t : S) × (n : ℕ) × (KvStore.create json kv key v s ≡ (ok n, t))
        × (KvStore.get json kv key t
            ≡ (ok (some (record { key = key; value = v; revision = n })), t))
  get-create s key v h =
      let (t, n, e, w) = create_made kv current bucket json s key v h in
      (t, n, e, read_back s t key v n w)

  -- Deleting the last revision of a key is made, and `get` then shows nothing under it.
  pub get-delete :
      (s : S) (key : Text) (r : ℕ)
      → nat_eq (revision_of (current s key)) r ≡ true
      → (t : S) × (KvStore.delete kv key r s ≡ (ok tt, t))
        × (KvStore.get json kv key t ≡ (ok none, t))
  get-delete s key r h =
      let (t, n, mark, e, w) = delete_made kv current bucket s key r h in
      (
        t,
        e,
        get-shown t key
            ∙ ap (λ o. (ok (shown o), t)) (ap (usable json) w.here ∙ usable_deleted key mark n),
      )
