-- ===== src/PoliciesPage/Listing.antt =====
-- What the page lists and what it keeps selected.
use nauts.Base.{
  ◌≡◌, ◌≢◌, ◌↔◌, ◌⊎◌, inl, inr, refl, sym, ap, ◌∙◌, Bool, true, false, not, Option, none, some,
  List, ◌++◌, if◌then◌else◌, filter, In, In-filter, filter-In, find, find-eq-some, find-eq-none,
  arith, In-append, append-In,
}
use nauts.Base.Text.{is_empty, Text, ◌==◌, eq_iff, eq-false}
use nauts.Models.{PolicyEntry}
use nauts.KvKeys.{global_prefix}
use nauts.PolicyStore.{Store, list_policies, list_all_policies, list_global_policies}
use nauts.PoliciesPage.{
  PoliciesPage, same_policy, reselect, visible_policies, apply_filter, load_policies,
}

-- The policies that the page is to list: those of the chosen account, or all if none is chosen, with
-- the global ones if they are to be shown.
pub record IsVisible (account : Text) (show_global : Bool) (e : PolicyEntry) : Type 0 where
  pub chosen :
      (is_empty account ≡ true)
      ⊎ (e.policy.account ≡ account)
      ⊎ ((show_global ≡ true) × (e.policy.account ≡ global_prefix))
  pub allowed : (show_global ≡ true) ⊎ (e.policy.account ≢ global_prefix)

not_global_iff : (t : Text) → (not (t == global_prefix) ≡ true) ↔ (t ≢ global_prefix)
not_global_iff t = (
  λ h e. cc (ap not (sym ((eq_iff t global_prefix).1 e)) ∙ h),
  λ h. ap not (eq-false t global_prefix h),
)

In-list_policies_iff :
    (account : Text) (s : Store) (e : PolicyEntry)
    → In e (list_policies account s) ↔ (In e (list_all_policies s) × (e.policy.account ≡ account))
unfolding list_policies list_all_policies
In-list_policies_iff account s e = (
  λ m.
      let (n, h) = In-filter (λ x. x.policy.account == account) _ m in
      (n, (eq_iff e.policy.account account).0 h),
  λ m. filter-In (λ x. x.policy.account == account) _ m.0 ((eq_iff e.policy.account account).1 m.1),
)

same_policy_lem :
    (a b : PolicyEntry)
    → same_policy a b ≡ true
    → (a.policy.id ≡ b.policy.id) × (a.policy.account ≡ b.policy.account)
unfolding same_policy
same_policy_lem a b h =
    ground (arith, eq_iff a.policy.id b.policy.id, eq_iff a.policy.account b.policy.account)

same_policy_of :
    (a b : PolicyEntry)
    → a.policy.id ≡ b.policy.id
    → a.policy.account ≡ b.policy.account
    → same_policy a b ≡ true
unfolding same_policy
same_policy_of a b i n =
    rw ((eq_iff a.policy.id b.policy.id).1 i, (eq_iff a.policy.account b.policy.account).1 n) refl

-- The list before the toggle is looked at.
In-chosen :
    (account : Text) (s : Store) (e : PolicyEntry) (b : Bool)
    → is_empty account ≡ b
    → In e (if b then list_all_policies s else list_policies account s)
      ↔ (In e (list_all_policies s) × ((b ≡ true) ⊎ (e.policy.account ≡ account)))
In-chosen account s e true h = (λ m. (m, inl refl), λ m. m.0)
In-chosen account s e false h =
    let w = In-list_policies_iff account s e in
    (λ m. let (n, q) = w.0 m in (n, inr q), λ m. w.1 (m.0, by m.1))
  where
    by : (false ≡ true) ⊎ (e.policy.account ≡ account) → e.policy.account ≡ account
    by (inl q) = absurd (cc q)
    by (inr q) = q

-- The list by whether an account is chosen and whether global policies are shown.
abbrev raw : Text → Store → Bool → Bool → List PolicyEntry
raw account s b show_global =
    let policies = if b then list_all_policies s else list_policies account s in
    if not show_global
    then filter (λ p. not (p.policy.account == global_prefix)) policies
    else if b
    then policies
    else policies ++ list_global_policies s

In-raw_hidden :
    (account : Text) (s : Store) (e : PolicyEntry) (b : Bool)
    → is_empty account ≡ b
    → In e (raw account s b false) ↔ (In e (list_all_policies s) × IsVisible account false e)
In-raw_hidden account s e b h =
    let w = In-chosen account s e b h in
    (
      λ m.
          let (n, t) = In-filter (λ p. not (p.policy.account == global_prefix)) _ m in
          let (k, c) = w.0 n in
          (k, record { chosen = put c; allowed = inr ((not_global_iff e.policy.account).0 t) }),
      λ m.
          filter-In (λ p. not (p.policy.account == global_prefix)) _ (w.1 (m.0, take m.1.chosen))
            ((not_global_iff e.policy.account).1 (unhidden m.1.allowed)),
    )
  where
    put :
        (b ≡ true) ⊎ (e.policy.account ≡ account)
        → (is_empty account ≡ true)
          ⊎ (e.policy.account ≡ account)
          ⊎ ((false ≡ true) × (e.policy.account ≡ global_prefix))
    put (inl q) = inl (h ∙ q)
    put (inr q) = inr (inl q)

    take :
        (is_empty account ≡ true)
          ⊎ (e.policy.account ≡ account)
          ⊎ ((false ≡ true) × (e.policy.account ≡ global_prefix))
        → (b ≡ true) ⊎ (e.policy.account ≡ account)
    take (inl q) = inl (sym h ∙ q)
    take (inr (inl q)) = inr q
    take (inr (inr q)) = absurd (cc q.0)

    unhidden :
        (false ≡ true) ⊎ (e.policy.account ≢ global_prefix) → e.policy.account ≢ global_prefix
    unhidden (inl q) = absurd (cc q)
    unhidden (inr q) = q

In-raw_shown :
    (account : Text) (s : Store) (e : PolicyEntry) (b : Bool)
    → is_empty account ≡ b
    → In e (raw account s b true) ↔ (In e (list_all_policies s) × IsVisible account true e)
In-raw_shown account s e true h =
    (λ m. (m, record { chosen = inl h; allowed = inl refl }), λ m. m.0)
In-raw_shown account s e false h =
    let w = In-list_policies_iff account s e in
    let g = In-list_policies_iff global_prefix s e in
    (
      λ m. elim (In-append e (list_policies account s) (list_global_policies s) m) [
        | inl n ↦ ((w.0 n).0, record { chosen = inr (inl (w.0 n).1); allowed = inl refl })
        | inr n ↦
            let k = g.0 (unfold list_global_policies in n) in
            (k.0, record { chosen = inr (inr (refl, k.1)); allowed = inl refl })
      ],
      λ m.
          append-In e (list_policies account s) (list_global_policies s)
            (place m.0 m.1.chosen w.1 g.1),
    )
  where
    place :
        In e (list_all_policies s)
        → (is_empty account ≡ true)
          ⊎ (e.policy.account ≡ account)
          ⊎ ((true ≡ true) × (e.policy.account ≡ global_prefix))
        → (In e (list_all_policies s) × (e.policy.account ≡ account)
            → In e (list_policies account s))
        → (In e (list_all_policies s) × (e.policy.account ≡ global_prefix)
            → In e (list_policies global_prefix s))
        → In e (list_policies account s) ⊎ In e (list_global_policies s)
    place m (inl q) w g = absurd (cc (sym h ∙ q))
    place m (inr (inl q)) w g = inl (w (m, q))
    place m (inr (inr q)) w g = inr (unfold list_global_policies in g (m, q.1))

-- After `loadPolicies` the list holds exactly the stored policies that it is to hold, and what is
-- selected, if anything, is in the list and has the ID and the account of what was selected before;
-- something is selected where the list holds a policy with that ID and account, and nothing where
-- nothing was.
pub load_policies-IsVisible :
    (to_lower : Text → Text) (s : Store) (p : PoliciesPage)
    → ((e : PolicyEntry)
        → In e (load_policies to_lower s p).entries
          ↔ (In e (list_all_policies s) × IsVisible p.selected_account p.show_global_policies e))
      × ((e : PolicyEntry)
          → (load_policies to_lower s p).selected_entry ≡ some e
          → In e (load_policies to_lower s p).entries
            × ((o : PolicyEntry) × (p.selected_entry ≡ some o)
                × (e.policy.id ≡ o.policy.id)
                × (e.policy.account ≡ o.policy.account)))
      × ((o e : PolicyEntry)
          → p.selected_entry ≡ some o
          → In e (load_policies to_lower s p).entries
          → e.policy.id ≡ o.policy.id
          → e.policy.account ≡ o.policy.account
          → (x : PolicyEntry) × ((load_policies to_lower s p).selected_entry ≡ some x))
      × (p.selected_entry ≡ none → (load_policies to_lower s p).selected_entry ≡ none)
unfolding load_policies apply_filter
load_policies-IsVisible to_lower s p = (
  λ e. shown e p.show_global_policies,
  λ e h.
      kept p.selected_entry e (visible_policies p.selected_account p.show_global_policies s) refl h,
  λ o e h m i a.
      let (x, q) = found o e (visible_policies p.selected_account p.show_global_policies s) m i a in
      (
        x,
        ap (λ u. reselect u (visible_policies p.selected_account p.show_global_policies s)) h ∙ q,
      ),
  λ h.
      ap (λ u. reselect u (visible_policies p.selected_account p.show_global_policies s)) h
      ∙ unfold reselect in refl,
)
  where
    shown :
        (e : PolicyEntry) (b : Bool)
        → In e (visible_policies p.selected_account b s)
          ↔ (In e (list_all_policies s) × IsVisible p.selected_account b e)
    shown e true =
        unfold visible_policies in
        In-raw_shown p.selected_account s e (is_empty p.selected_account) refl
    shown e false =
        unfold visible_policies in
        In-raw_hidden p.selected_account s e (is_empty p.selected_account) refl

    kept :
        (o : Option PolicyEntry) (e : PolicyEntry) (l : List PolicyEntry)
        → p.selected_entry ≡ o
        → reselect o l ≡ some e
        → In e l
          × ((u : PolicyEntry) × (p.selected_entry ≡ some u)
              × (e.policy.id ≡ u.policy.id)
              × (e.policy.account ≡ u.policy.account))
    kept none e l q h = absurd (unfold reselect in cc h)
    kept (some u) e l q h =
        let (m, t) = find-eq-some (λ a. same_policy a u) l e (unfold reselect in h) in
        let both = same_policy_lem e u t in (m, (u, q, both.0, both.1))

    found :
        (o e : PolicyEntry) (l : List PolicyEntry)
        → In e l
        → e.policy.id ≡ o.policy.id
        → e.policy.account ≡ o.policy.account
        → (x : PolicyEntry) × (reselect (some o) l ≡ some x)
    found o e l m i a = by (find (λ u. same_policy u o) l) refl
      where
        by :
            (r : Option PolicyEntry)
            → find (λ u. same_policy u o) l ≡ r
            → (x : PolicyEntry) × (reselect (some o) l ≡ some x)
        by (some x) q = (x, unfold reselect in q)
        by none q =
            absurd (cc (sym (find-eq-none (λ u. same_policy u o) l e q m) ∙ same_policy_of e o i a))
