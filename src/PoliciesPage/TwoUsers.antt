-- ===== src/PoliciesPage/TwoUsers.antt =====
-- Two users who edit one policy.
use nauts.Base.{In, ℕ, ◌≡◌, refl, ap, ◌∙◌, true, Option, some, nat_eq}
use nauts.Base.Text.{Text, codes, ◌==◌}
use nauts.Models.{Policy, PolicyEntry}
use nauts.Thrown.{ok}
use nauts.KvKeys.{policy_key}
use nauts.KvStore.Client.{put, RawEntry, KvClient, Codec}
use nauts.KvStore.Bucket.{revision_of, IsBucket}
use nauts.KvStore.Writes.{put_renewed}
use nauts.PolicyStore.{Store, Casts, update_policy}
use nauts.PoliciesPage.{load_policies, PoliciesPage, told, edit_entry, edit_closed}
use nauts.Base.Dict.Laws.{In-values}
use nauts.KvKeys.RoundTrip.{IsName, IsSegment}
use nauts.PolicyStore.{get_policy, list_all_policies}
use nauts.PolicyStore.Writes.{hear, heard_written, held-update_policy}
use nauts.PoliciesPage.Listing.{IsVisible, load_policies-IsVisible}
use nauts.PoliciesPage.Edits.{conflicted, edit_closed-some, stale_selection}

-- What a lookup finds is in the list of all policies.
pub listed_of_found :
    (account id : Text) (s : Store) (x : PolicyEntry)
    → get_policy account id s ≡ some x
    → In x (list_all_policies s)
unfolding get_policy list_all_policies
listed_of_found account id s x h = In-values s.policies_map (policy_key account id) x h

module _ (to_lower : Text → Text) {V D B : Type 0} (casts : Casts V) (json : Codec V D)
    (kv : KvClient D B) (current : B → Text → Option (RawEntry D))
    (bucket : IsBucket kv current) where
  pub edit_closed-updated :
      (uuid : Text) (e : PolicyEntry) (result : Policy) (s : Store) (p : PoliciesPage) (b t : B)
      (n : ℕ)
      → p.selected_entry ≡ some e
      → (e.policy.account == result.account) ≡ true
      → update_policy casts json kv e.policy.account e.policy.id result e.revision b ≡ (ok n, t)
      → edit_closed to_lower casts json kv uuid (some result) s p b
        ≡ (record p { message = some (codes "Policy updated") }, t)
  edit_closed-updated uuid e result s p b t n h same made =
      edit_closed-some to_lower casts json kv current bucket uuid e result s p b h
      ∙ unfold edit_entry told in rw (same, made) refl

  -- In a bucket that behaves as documented, where the watch has not yet told the page of the second
  -- of two users, so that it still selects the revision that both have edited, the edit of the first
  -- is made, that of the second refused as a conflict, and the bucket holds what the first wrote.
  no_lost_update :
      (uuid : Text) (e : PolicyEntry) (mine theirs : Policy) (s z : Store) (p q : PoliciesPage)
      (b : B)
      → p.selected_entry ≡ some e
      → q.selected_entry ≡ some e
      → (e.policy.account == mine.account) ≡ true
      → nat_eq (revision_of (current b (policy_key e.policy.account e.policy.id))) e.revision ≡ true
      → (t : B) × (n : ℕ) × (edit_closed to_lower casts json kv uuid (some mine) s p b
          ≡ (record p { message = some (codes "Policy updated") }, t))
        × (edit_closed to_lower casts json kv uuid (some theirs) z q t
            ≡ (conflicted to_lower casts json kv current bucket z q, t))
        × (current t (policy_key e.policy.account e.policy.id)
            ≡ some (record {
              key = policy_key e.policy.account e.policy.id;
              value = json.encode (casts.of_policy mine);
              operation = put;
              revision = n;
            }))
  no_lost_update uuid e mine theirs s z p q b h k same fresh =
      let key = policy_key e.policy.account e.policy.id in
      let (t, n, made, w, renewed) =
        put_renewed kv current bucket json b key (casts.of_policy mine) e.revision fresh in
      (
        t,
        n,
        edit_closed-updated uuid e mine s p b t n h same (unfold update_policy in made),
        (stale_selection to_lower casts json kv current bucket uuid e theirs z q t k
            (ap (λ o. nat_eq (revision_of o) e.revision) w.here ∙ renewed)).0,
        w.here,
      )

  -- In a bucket that behaves as documented, an edit over the last revision that keeps the account is
  -- made, and once the watch of any other user has delivered what the bucket then holds under its
  -- key, the list of that user's page holds the new policy with its revision, where the page is to
  -- show it. The account is nonempty and on one line, and so is the ID, which holds no dot.
  pub edit_shown :
      (uuid : Text) (e : PolicyEntry) (mine : Policy) (s z : Store) (p q : PoliciesPage) (b : B)
      → p.selected_entry ≡ some e
      → (e.policy.account == mine.account) ≡ true
      → nat_eq (revision_of (current b (policy_key e.policy.account e.policy.id))) e.revision ≡ true
      → IsName e.policy.account
      → IsSegment e.policy.id
      → ((n : ℕ)
          → IsVisible q.selected_account q.show_global_policies
              (record { policy = mine; revision = n }))
      → (t : B) × (n : ℕ) × (edit_closed to_lower casts json kv uuid (some mine) s p b
          ≡ (record p { message = some (codes "Policy updated") }, t))
        × In
            (record { policy = mine; revision = n })
            (load_policies to_lower
              (hear casts json (current t (policy_key e.policy.account e.policy.id)) z)
              q).entries
  edit_shown uuid e mine s z p q b h same fresh a i visible =
      let (t, n, made, held) =
        held-update_policy casts json kv current bucket e.policy.account e.policy.id mine e.revision
          b fresh in
      let found = heard_written casts json e.policy.account e.policy.id mine n _ z a i held in
      (
        t,
        n,
        edit_closed-updated uuid e mine s p b t n h same made,
        ((load_policies-IsVisible to_lower _ q).0 (record { policy = mine; revision = n })).1
            (listed_of_found e.policy.account e.policy.id _ _ found, visible n),
      )
