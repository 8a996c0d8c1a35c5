-- ===== src/PoliciesPage/LostUpdate.antt =====
-- Two users who edit one policy, where the watch tells of the first edit before the second is made.
use nauts.Base.{
  subst, List, sym, ap₂, Bool-cases, inl, inr, if◌then◌else◌, nat_eq_refl, In, ℕ, ◌≡◌, refl, ap,
  ◌∙◌, true, Option, some, nat_eq,
}
use nauts.Base.Text.{Text, codes, ◌==◌, eq_iff, eq_refl}
use nauts.Models.{Statement, Policy, PolicyEntry}
use nauts.KvKeys.{policy_key}
use nauts.KvStore.Client.{put, RawEntry, KvClient, Codec}
use nauts.KvStore.Bucket.{revision_of, IsBucket}
use nauts.PolicyStore.{Store, Casts, policy_kind}
use nauts.PoliciesPage.{load_policies, PoliciesPage, edit_closed}
use nauts.Base.Dict.Laws.{values-get}
use nauts.KvKeys.RoundTrip.{IsName, IsSegment}
use nauts.KvStore.{KvEntry, put_event}
use nauts.PolicyStore.{on_event, list_all_policies}
use nauts.PolicyStore.Writes.{hear, hear_written, heard_written, held-update_policy}
use nauts.PolicyStore.Kinds.{kind_of-policy_key}
use nauts.PolicyStore.Tracking.{
  IsCurrent, on_event-IsCurrent, put_step, on_event-put, get-put_step, policy_entry,
}
use nauts.Base.Dict
use nauts.PoliciesPage.Listing.{IsVisible, load_policies-IsVisible}
use nauts.PoliciesPage.TwoUsers.{listed_of_found, edit_closed-updated}

-- Each policy stands under the key of its account and its ID.
abbrev pub IsFiled : Store → Type 0
IsFiled s =
    (k : Text) (x : PolicyEntry)
    → Dict.get k s.policies_map ≡ some x
    → policy_key x.policy.account x.policy.id ≡ k

module _ (to_lower : Text → Text) {V D B : Type 0} (casts : Casts V) (json : Codec V D)
    (kv : KvClient D B) (current : B → Text → Option (RawEntry D))
    (bucket : IsBucket kv current) where
  -- The page that reloads over the new entry selects it.
  reselected_new :
      (a i : Text) (y : PolicyEntry) (z : Store) (q : PoliciesPage) (e : PolicyEntry)
      → IsCurrent z
      → ((k : Text) (x : PolicyEntry)
          → Dict.get k z.policies_map ≡ some x
          → x.policy.id ≡ i
          → x.policy.account ≡ a
          → x ≡ y)
      → In y (load_policies to_lower z q).entries
      → q.selected_entry ≡ some e
      → (e.policy.id ≡ i) × (e.policy.account ≡ a)
      → (y.policy.id ≡ i) × (y.policy.account ≡ a)
      → (load_policies to_lower z q).selected_entry ≡ some y
  reselected_new a i y z q e c only m h (ei, ea) (yi, ya) =
      let v = load_policies-IsVisible to_lower z q in
      let (x, chosen) = v.2 e y h m (yi ∙ sym ei) (ya ∙ sym ea) in
      let (n, (o, ho, xi, xa)) = v.1 x chosen in
      let g : o ≡ e = some_eq (sym ho ∙ h) in
      let (k, found) =
        values-get z.policies_map x c.policy_keys (unfold list_all_policies in ((v.0 x).0 n).0) in
      chosen
      ∙ ap some (
          only k x found (xi ∙ ap (λ w. w.policy.id) g ∙ ei)
            (xa ∙ ap (λ w. w.policy.account) g ∙ ea))
    where
      some_eq : {u w : PolicyEntry} → ◌≡◌ {A = Option PolicyEntry} (some u) (some w) → u ≡ w
      some_eq r = cc r

  -- What a store that files each policy under its own key holds of the policy after the event.
  only_new :
      (a i : Text) (v : V) (r : ℕ) (z : Store)
      → IsName a
      → IsSegment i
      → IsFiled z
      → (k : Text) (x : PolicyEntry)
      → Dict.get k
          (on_event casts
            (put_event (record { key = policy_key a i; value = v; revision = r }))
            z).policies_map
        ≡ some x
      → x.policy.id ≡ i
      → x.policy.account ≡ a
      → x ≡ record { policy = casts.as_policy v; revision = r }
  only_new a i v r z na ni f k x g xi xa =
      let key = policy_key a i in
      let e : KvEntry V = record { key = key; value = v; revision = r } in
      let w =
        ap (λ s. Dict.get k s.policies_map)
          (on_event-put casts e z ∙ ap (λ d. put_step casts d e z) (kind_of-policy_key a i na ni))
        ∙ (get-put_step casts policy_kind k e z).0 in
      elim (Bool-cases (key == k)) [
        | inl t ↦ new (
            sym
              (w ∙ ap (λ b. if b then some (policy_entry casts e) else Dict.get k z.policies_map) t)
            ∙ g)
        | inr t ↦
            let old =
              sym (
                w
                ∙ ap (λ b. if b then some (policy_entry casts e) else Dict.get k z.policies_map) t)
              ∙ g in
            absurd (cc (sym t ∙ (eq_iff key k).1 (ap₂ policy_key (sym xa) (sym xi) ∙ f k x old)))
      ]
    where
      new : {u x : PolicyEntry} → ◌≡◌ {A = Option PolicyEntry} (some u) (some x) → x ≡ u
      new q = cc q

  -- A page that selects a policy selects what the watch delivers of it.
  heard-selected :
      (e y : PolicyEntry) (z : Store) (q : PoliciesPage) (o : Option (RawEntry D))
      → IsName e.policy.account
      → IsSegment e.policy.id
      → IsCurrent z
      → IsFiled z
      → q.selected_entry ≡ some e
      → y.policy.id ≡ e.policy.id
      → y.policy.account ≡ e.policy.account
      → o
        ≡ some (record {
          key = policy_key e.policy.account e.policy.id;
          value = json.encode (casts.of_policy y.policy);
          operation = put;
          revision = y.revision;
        })
      → IsVisible q.selected_account q.show_global_policies y
      → (load_policies to_lower (hear casts json o z) q).selected_entry ≡ some y
  heard-selected e y z q o na ni c f h yi ya held v =
      let a = e.policy.account in
      let i = e.policy.id in
      let value = casts.of_policy y.policy in
      let event =
        put_event (record { key = policy_key a i; value = value; revision = y.revision }) in
      let told : hear casts json o z ≡ on_event casts event z =
        ap (λ w. hear casts json w z) held
        ∙ hear_written casts json (policy_key a i) value y.revision z in
      let found = heard_written casts json a i y.policy y.revision o z na ni held in
      let m =
        ((load_policies-IsVisible to_lower (hear casts json o z) q).0 y).1
          (listed_of_found a i (hear casts json o z) y found, v) in
      subst (λ w. (load_policies to_lower w q).selected_entry ≡ some y) (sym told)
        (reselected_new a i y (on_event casts event z) q e (on_event-IsCurrent casts event z c)
          (λ k x g xi xa.
            only_new a i value y.revision z na ni f k x g xi xa
            ∙ ap (λ r. record y { policy = r }) (casts.as_policy-of y.policy))
          (subst (λ w. In y (load_policies to_lower w q).entries) told m) h (refl, refl) (yi, ya))

  -- In a bucket that behaves as documented, where two users have opened the dialog of the last
  -- revision of a policy, the first changes its name and statements, and the watch tells the page of
  -- the second before that one closes its dialog, the page selects the new revision, and the edit of
  -- the second, which started from the old one and keeps the account, is made over that of the first:
  -- the bucket holds what the second wrote. The account is nonempty and on one line, and so is the
  -- ID, which holds no dot; the store of the second is up to date and files each policy under its
  -- own key; and the page is to show the policy.
  pub lost_update :
      (uuid : Text) (e : PolicyEntry) (name : Text) (statements : List Statement) (theirs : Policy)
      (s z : Store) (p q : PoliciesPage) (b : B)
      → p.selected_entry ≡ some e
      → q.selected_entry ≡ some e
      → (e.policy.account == theirs.account) ≡ true
      → nat_eq (revision_of (current b (policy_key e.policy.account e.policy.id))) e.revision ≡ true
      → IsName e.policy.account
      → IsSegment e.policy.id
      → IsCurrent z
      → IsFiled z
      → let mine : Policy = record e.policy { name = name; statements = statements } in
        let key = policy_key e.policy.account e.policy.id in
        ((n : ℕ)
          → IsVisible q.selected_account q.show_global_policies
              (record { policy = mine; revision = n }))
        → (t u : B) × (n k : ℕ) × (edit_closed to_lower casts json kv uuid (some mine) s p b
            ≡ (record p { message = some (codes "Policy updated") }, t))
          × (let heard = hear casts json (current t key) z in
              let page = load_policies to_lower heard q in
              (page.selected_entry ≡ some (record { policy = mine; revision = n }))
              × (edit_closed to_lower casts json kv uuid (some theirs) heard page t
                  ≡ (record page { message = some (codes "Policy updated") }, u)))
          × (current u key
              ≡ some (record {
                key = key;
                value = json.encode (casts.of_policy theirs);
                operation = put;
                revision = k;
              }))
  lost_update uuid e name statements theirs s z p q b hp hq same fresh na ni c f visible =
      let mine : Policy = record e.policy { name = name; statements = statements } in
      let key = policy_key e.policy.account e.policy.id in
      let (t, n, made, held) =
        held-update_policy casts json kv current bucket e.policy.account e.policy.id mine e.revision
          b fresh in
      let y : PolicyEntry = record { policy = mine; revision = n } in
      let (u, k, again, kept) =
        held-update_policy casts json kv current bucket e.policy.account e.policy.id theirs n t
          (ap (λ o. nat_eq (revision_of o) n) held ∙ nat_eq_refl n) in
      let heard = hear casts json (current t key) z in
      let page = load_policies to_lower heard q in
      let selected =
        heard-selected e y z q (current t key) na ni c f hq refl refl held (visible n) in
      (
        t,
        u,
        n,
        k,
        edit_closed-updated to_lower casts json kv current bucket uuid e mine s p b t n hp
            (eq_refl e.policy.account) made,
        (
          selected,
          edit_closed-updated to_lower casts json kv current bucket uuid y theirs heard page t u k
              selected same again,
        ),
        kept,
      )
