-- ===== src/PoliciesPage/Edits.antt =====
-- What the dialogs of the page do to the bucket, and what the page says.
use nauts.Base.{◌≡◌, refl, ap, ◌∙◌, true, false, Option, some, nat_eq, ℕ, Bool-cases, inl, inr}
use nauts.Base.Text.{Text, codes, ◌==◌}
use nauts.Models.{Policy, PolicyEntry}
use nauts.Thrown.{ok, Outcome}
use nauts.Thrown.Laws.{then-ok, bind-throw}
use nauts.KvKeys.{policy_key}
use nauts.KvStore.Client.{put, is_put, RawEntry, KvClient, Codec}
use nauts.KvStore.Bucket.{revision_of, is_live, IsBucket}
use nauts.KvStore.Writes.{delete_made, create_made}
use nauts.PolicyStore.{Store, Casts, create_policy, delete_policy}
use nauts.PolicyStore.Writes.{stale_policy_conflict}
use nauts.PoliciesPage.{
  PoliciesPage, load_policies, handle_error, told, move_policy, edit_entry, edit_closed, deleted,
  delete_closed, conflict_message,
}

module _ (to_lower : Text → Text) {V D B : Type 0} (casts : Casts V) (json : Codec V D)
    (kv : KvClient D B) (current : B → Text → Option (RawEntry D))
    (bucket : IsBucket kv current) where
  -- The page after a conflict.
  abbrev pub conflicted : Store → PoliciesPage → PoliciesPage
  conflicted s p = load_policies to_lower s (record p { message = some conflict_message })

  edit_entry-stale :
      (uuid : Text) (e : PolicyEntry) (result : Policy) (s : Store) (p : PoliciesPage) (b : B)
      → nat_eq (revision_of (current b (policy_key e.policy.account e.policy.id))) e.revision
        ≡ false
      → edit_entry to_lower casts json kv uuid e result s p b ≡ (conflicted s p, b)
  unfolding edit_entry told handle_error
  edit_entry-stale uuid e result s p b stale =
      let (updating, deleting) =
        stale_policy_conflict casts json kv current bucket e.policy.account e.policy.id result
          e.revision b stale in
      elim (Bool-cases (e.policy.account == result.account)) [
        | inl q ↦ rw (q, updating) refl
        | inr q ↦
            rw
              (
                q,
                bind-throw (delete_policy kv e.policy.account e.policy.id e.revision)
                    (λ _. create_policy casts json kv uuid result) deleting,
              )
              refl
      ]

  pub edit_closed-some :
      (uuid : Text) (e : PolicyEntry) (result : Policy) (s : Store) (p : PoliciesPage) (b : B)
      → p.selected_entry ≡ some e
      → edit_closed to_lower casts json kv uuid (some result) s p b
        ≡ edit_entry to_lower casts json kv uuid e result s p b
  unfolding edit_closed
  edit_closed-some uuid e result s p b h = rw h refl

  delete_closed-some :
      (e : PolicyEntry) (s : Store) (p : PoliciesPage) (b : B) (r : Outcome Unit) (t : B)
      → p.selected_entry ≡ some e
      → delete_policy kv e.policy.account e.policy.id e.revision b ≡ (r, t)
      → delete_closed to_lower kv true s p b ≡ (deleted to_lower kv s r p, t)
  unfolding delete_closed
  delete_closed-some e s p b r t h q = rw h (rw q refl)

  -- In a bucket that behaves as documented, editing or deleting the selected policy while the
  -- selection holds a revision that is not the last one of the bucket leaves the bucket as it was,
  -- tells of the conflict and loads the list again, whether or not the account changes.
  pub stale_selection :
      (uuid : Text) (e : PolicyEntry) (result : Policy) (s : Store) (p : PoliciesPage) (b : B)
      → p.selected_entry ≡ some e
      → nat_eq (revision_of (current b (policy_key e.policy.account e.policy.id))) e.revision
        ≡ false
      → (edit_closed to_lower casts json kv uuid (some result) s p b ≡ (conflicted s p, b))
        × (delete_closed to_lower kv true s p b ≡ (conflicted s p, b))
  stale_selection uuid e result s p b h stale =
      let deleting =
        (stale_policy_conflict casts json kv current bucket e.policy.account e.policy.id result
          e.revision b stale).1 in
      (
        edit_closed-some uuid e result s p b h ∙ edit_entry-stale uuid e result s p b stale,
        delete_closed-some e s p b _ b h deleting ∙ unfold deleted handle_error in refl,
      )

  -- In a bucket that behaves as documented, editing the selected policy into another account, over
  -- its last revision, deletes it and creates it there under its new ID, where that key is another
  -- one and holds no value.
  pub edit_closed-moved :
      (uuid : Text) (e : PolicyEntry) (result : Policy) (s : Store) (p : PoliciesPage) (b : B)
      → p.selected_entry ≡ some e
      → (e.policy.account == result.account) ≡ false
      → nat_eq (revision_of (current b (policy_key e.policy.account e.policy.id))) e.revision ≡ true
      → (policy_key result.account uuid == policy_key e.policy.account e.policy.id) ≡ false
      → (policy_key e.policy.account e.policy.id == policy_key result.account uuid) ≡ false
      → is_live (current b (policy_key result.account uuid)) ≡ false
      → (u : B) × (n : ℕ) × (edit_closed to_lower casts json kv uuid (some result) s p b
          ≡ (record p { message = some (codes "Policy moved to new account") }, u))
        × (is_live (current u (policy_key e.policy.account e.policy.id)) ≡ false)
        × (current u (policy_key result.account uuid)
            ≡ some (record {
              key = policy_key result.account uuid;
              value = json.encode (casts.of_policy (record result { id = uuid }));
              operation = put;
              revision = n;
            }))
  edit_closed-moved uuid e result s p b h apart fresh one other free =
      let old = policy_key e.policy.account e.policy.id in
      let new = policy_key result.account uuid in
      let v = casts.of_policy (record result { id = uuid }) in
      let (t, n, mark, gone, w) = delete_made kv current bucket b old e.revision fresh in
      let (u, k, made, x) =
        create_made kv current bucket json t new v (ap is_live (w.elsewhere new one) ∙ free) in
      (
        u,
        k,
        edit_closed-some uuid e result s p b h
            ∙ moved t u k (unfold delete_policy in gone) (unfold create_policy in made),
        ap is_live (x.elsewhere old other ∙ w.here) ∙ unfold is_put in refl,
        x.here,
      )
    where
      moved :
          (t u : B) (k : ℕ)
          → delete_policy kv e.policy.account e.policy.id e.revision b ≡ (ok tt, t)
          → create_policy casts json kv uuid result t ≡ (ok k, u)
          → edit_entry to_lower casts json kv uuid e result s p b
            ≡ (record p { message = some (codes "Policy moved to new account") }, u)
      moved t u k gone made =
          unfold edit_entry told move_policy in
          rw
            (
              apart,
              then-ok (delete_policy kv e.policy.account e.policy.id e.revision)
                    (create_policy casts json kv uuid result) gone
                  ∙ made,
            )
            refl
