-- ===== src/PolicyStore/Writes.antt =====
-- Writes of the store, from the call through the bucket and the watch to the next lookup.
use nauts.Base.{[], ◌∷◌, ℕ, ◌≡◌, refl, ap, ◌∙◌, true, false, Option, none, some, nat_eq}
use nauts.Base.Text.{Text, eq_refl}
use nauts.Base.Dict
use nauts.Models.{Policy}
use nauts.Thrown.{conflict, Outcome, ok, throw}
use nauts.KvKeys.{policy_key}
use nauts.KvKeys.RoundTrip.{IsName, IsSegment}
use nauts.KvStore
use nauts.KvStore.{KvEntry, KvEvent, put_event, del_event}
use nauts.KvStore.Client.{put, is_put, RawEntry, KvClient, Codec}
use nauts.KvStore.Bucket.{revision_of, is_live, IsBucket}
use nauts.KvStore.Writes.{put_conflict, delete_conflict, put_renewed, create_made}
use nauts.KvStore.Reads.{get-delete}
use nauts.PolicyStore.{
  Store, Casts, policy_kind, on_event, get_policy, create_policy, update_policy, delete_policy,
}
use nauts.PolicyStore.Kinds.{kind_of-policy_key}
use nauts.PolicyStore.Tracking.{
  IsCurrent, put_step, del_step, on_event-put, on_event-del, get-put_step, get-del_step,
}

module _ {V : Type 0} (casts : Casts V) where
  -- An event about a policy key is what the next lookup of the key finds.
  heard_put :
      (account id : Text) (v : V) (n : ℕ) (s : Store)
      → IsName account
      → IsSegment id
      → get_policy account id (
          on_event casts
            (put_event (record { key = policy_key account id; value = v; revision = n }))
            s)
        ≡ some (record { policy = casts.as_policy v; revision = n })
  unfolding get_policy
  heard_put account id v n s a i =
      let key = policy_key account id in
      let e : KvEntry V = record { key = key; value = v; revision = n } in
      ap (λ t. Dict.get key t.policies_map)
        (on_event-put casts e s
          ∙ ap (λ k. put_step casts k e s) (kind_of-policy_key account id a i))
      ∙ (get-put_step casts policy_kind key e s).0
      ∙ rw (eq_refl key) refl

  heard_del :
      (account id : Text) (n : ℕ) (s : Store)
      → IsCurrent s
      → IsName account
      → IsSegment id
      → get_policy account id (on_event casts (del_event (policy_key account id) n) s) ≡ none
  unfolding get_policy
  heard_del account id n s c a i =
      let key = policy_key account id in
      ap (λ t. Dict.get key t.policies_map)
        (on_event-del casts key n s
          ∙ ap (λ k. del_step k key s) (kind_of-policy_key account id a i))
      ∙ (get-del_step casts policy_kind key key s c).0
      ∙ rw (eq_refl key) refl

  module _ {D : Type 0} (json : Codec V D) where
    -- The store after the watch has delivered an entry of the bucket.
    abbrev pub hear : Option (RawEntry D) → Store → Store
    hear none s = s
    hear (some entry) s = KvStore.watch json (on_event casts) (entry ∷ []) s

    event_of_written :
        (key : Text) (v : V) (n : ℕ)
        → KvStore.event_of json
            (record { key = key; value = json.encode v; operation = put; revision = n })
          ≡ ok (put_event (record { key = key; value = v; revision = n }))
    unfolding KvStore.event_of KvStore.decode KvStore.decode_value is_put
    event_of_written key v n = rw (json.decode-encode v) refl

    pub hear_written :
        (key : Text) (v : V) (n : ℕ) (s : Store)
        → hear (some (record { key = key; value = json.encode v; operation = put; revision = n })) s
          ≡ on_event casts (put_event (record { key = key; value = v; revision = n })) s
    unfolding KvStore.watch
    hear_written key v n s =
        ap
          (λ (o : Outcome (KvEvent V)). elim o as (λ _. Store) [
            | throw err ↦ s
            | ok event ↦ KvStore.watch json (on_event casts) [] (on_event casts event s)
          ])
          (event_of_written key v n)

    -- What the bucket holds of a policy key is what a lookup finds, once the watch has delivered it.
    pub heard_written :
        (account id : Text) (p : Policy) (n : ℕ) (o : Option (RawEntry D)) (s : Store)
        → IsName account
        → IsSegment id
        → o
          ≡ some (record {
            key = policy_key account id;
            value = json.encode (casts.of_policy p);
            operation = put;
            revision = n;
          })
        → get_policy account id (hear o s) ≡ some (record { policy = p; revision = n })
    heard_written account id p n o s a i q =
        ap (λ w. get_policy account id (hear w s)) q
        ∙ ap (get_policy account id) (hear_written (policy_key account id) (casts.of_policy p) n s)
        ∙ heard_put account id (casts.of_policy p) n s a i
        ∙ ap (λ r. some (record { policy = r; revision = n })) (casts.as_policy-of p)

  module _ {D B : Type 0} (json : Codec V D) (kv : KvClient D B)
      (current : B → Text → Option (RawEntry D)) (bucket : IsBucket kv current) where
    -- In a bucket that behaves as documented, creating a policy under a key that holds no value
    -- returns its revision, and once the watch has delivered what the bucket then holds under the
    -- key, the store finds the policy under its account and its new ID. The account is nonempty and
    -- on one line, and so is the new ID, which holds no dot.
    pub get-create_policy :
        (uuid : Text) (policy : Policy) (b : B) (s : Store)
        → IsName policy.account
        → IsSegment uuid
        → is_live (current b (policy_key policy.account uuid)) ≡ false
        → (t : B) × (n : ℕ) × (create_policy casts json kv uuid policy b ≡ (ok n, t))
          × (get_policy policy.account uuid
                (hear json (current t (policy_key policy.account uuid)) s)
              ≡ some (record { policy = record policy { id = uuid }; revision = n }))
    get-create_policy uuid policy b s a i free =
        let named : Policy = record policy { id = uuid } in
        let (t, n, e, w) =
          create_made kv current bucket json b (policy_key policy.account uuid)
            (casts.of_policy named) free in
        (
          t,
          n,
          unfold create_policy in e,
          heard_written json policy.account uuid named n _ s a i w.here,
        )

    -- In a bucket that behaves as documented, an update that names the last revision is made under
    -- a new one, and the bucket then holds the policy.
    pub held-update_policy :
        (account id : Text) (policy : Policy) (r : ℕ) (b : B)
        → nat_eq (revision_of (current b (policy_key account id))) r ≡ true
        → (t : B) × (n : ℕ) × (update_policy casts json kv account id policy r b ≡ (ok n, t))
          × (current t (policy_key account id)
              ≡ some (record {
                key = policy_key account id;
                value = json.encode (casts.of_policy policy);
                operation = put;
                revision = n;
              }))
    held-update_policy account id policy r b fresh =
        let (t, n, e, w, renewed) =
          put_renewed kv current bucket json b (policy_key account id) (casts.of_policy policy) r
            fresh in
        (t, n, unfold update_policy in e, w.here)

    -- In a bucket that behaves as documented, updating or deleting a policy with a revision that is
    -- not the last throws `ConflictError` and leaves the bucket as it was.
    pub stale_policy_conflict :
        (account id : Text) (policy : Policy) (r : ℕ) (b : B)
        → nat_eq (revision_of (current b (policy_key account id))) r ≡ false
        → (update_policy casts json kv account id policy r b
            ≡ (throw (conflict (policy_key account id)), b))
          × (delete_policy kv account id r b ≡ (throw (conflict (policy_key account id)), b))
    unfolding update_policy delete_policy
    stale_policy_conflict account id policy r b stale = (
      put_conflict kv current bucket json b (policy_key account id) (casts.of_policy policy) r
          stale,
      delete_conflict kv current bucket b (policy_key account id) r stale,
    )

    -- In a bucket that behaves as documented, deleting the last revision of a policy is made, the
    -- bucket then shows nothing under its key, and once the watch has told of it, neither does a
    -- store that was up to date. The account is nonempty and on one line, and so is the ID, which
    -- holds no dot.
    pub get-delete_policy :
        (account id : Text) (r n : ℕ) (b : B) (s : Store)
        → IsCurrent s
        → IsName account
        → IsSegment id
        → nat_eq (revision_of (current b (policy_key account id))) r ≡ true
        → (t : B) × (delete_policy kv account id r b ≡ (ok tt, t))
          × (KvStore.get json kv (policy_key account id) t ≡ (ok none, t))
          × (get_policy account id (on_event casts (del_event (policy_key account id) n) s) ≡ none)
    get-delete_policy account id r n b s c a i fresh =
        let (t, e, shown) = get-delete json kv current bucket b (policy_key account id) r fresh in
        (t, unfold delete_policy in e, shown, heard_del account id n s c a i)
