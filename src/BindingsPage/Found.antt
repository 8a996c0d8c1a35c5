-- ===== src/BindingsPage/Found.antt =====
-- What the page lists, keeps selected and marks after loading.
use nauts.Base.{
  and_iff, or_iff, ◌≡◌, ◌↔◌, ◌⊎◌, inl, inr, refl, sym, ap, ◌∙◌, true, false, Option, none, some,
  filter, In, In-filter, filter-In, find-eq-some, Bool-cases, arith,
}
use nauts.Base.Text.{is_empty, Text, eq_iff, includes}
use nauts.Models.{BindingEntry}
use nauts.KvKeys.{strip_global_prefix}
use nauts.PolicyStore.{Store, includes_text, list_bindings, list_all_bindings}
use nauts.PolicyStore.Queries.{includes_text_iff}
use nauts.BindingsPage.{
  BindingsPage, same_binding, dangling_of, update_dangling_policies, visible_bindings,
  matches_filters, filter_bindings, load_bindings, reselect_binding, refound, reselected,
}
use nauts.BindingsPage.Dangling.{In-dangling_of}

refound-parts :
    (o : Option BindingEntry) (q : BindingsPage)
    → ((refound o q).entries ≡ q.entries)
      × ((refound o q).filtered_entries ≡ q.filtered_entries)
      × ((refound o q).selected_entry ≡ o)
      × ((f : BindingEntry)
          → o ≡ some f
          → (refound o q).dangling_policies ≡ dangling_of q.available_policies (some f))
unfolding refound update_dangling_policies
refound-parts none q = (refl, refl, refl, λ f h. absurd (cc h))
refound-parts (some g) q = (refl, refl, refl, λ f h. ap (dangling_of q.available_policies) h)

reselected-parts :
    (o : Option BindingEntry) (q : BindingsPage)
    → q.selected_entry ≡ o
    → ((reselected o q).entries ≡ q.entries)
      × ((reselected o q).filtered_entries ≡ q.filtered_entries)
      × ((reselected o q).selected_entry ≡ reselect_binding o q.entries)
      × ((f : BindingEntry)
          → (reselected o q).selected_entry ≡ some f
          → (reselected o q).dangling_policies ≡ dangling_of q.available_policies (some f))
unfolding reselected
reselected-parts none q e =
    (refl, refl, e ∙ unfold reselect_binding in refl, λ f h. absurd (cc (sym e ∙ h)))
reselected-parts (some o) q e =
    let found = reselect_binding (some o) q.entries in
    let (entries, filtered, selected, dangling) = refound-parts found q in
    (entries, filtered, selected, λ f h. dangling f (sym selected ∙ h))

same_binding_lem :
    (a b : BindingEntry)
    → same_binding a b ≡ true
    → (a.binding.role ≡ b.binding.role) × (a.binding.account ≡ b.binding.account)
unfolding same_binding
same_binding_lem a b h =
    ground (arith, eq_iff a.binding.role b.binding.role, eq_iff a.binding.account b.binding.account)

-- What the list is to show: the stored bindings of the chosen account, or all if none is chosen,
-- that the two filters match.
pub record IsListed (to_lower : Text → Text) (s : Store) (p : BindingsPage) (e : BindingEntry)
    : Type 0 where
  pub stored : In e (list_all_bindings s)
  pub chosen : (is_empty p.selected_account ≡ true) ⊎ (e.binding.account ≡ p.selected_account)
  pub role : includes (to_lower e.binding.role) (to_lower p.role_filter) ≡ true
  pub policy : (is_empty p.policy_filter ≡ true) ⊎ In p.policy_filter e.binding.policies

In-visible_bindings :
    (account : Text) (s : Store) (e : BindingEntry)
    → In e (visible_bindings account s)
      ↔ (In e (list_all_bindings s) × ((is_empty account ≡ true) ⊎ (e.binding.account ≡ account)))
unfolding visible_bindings list_all_bindings list_bindings
In-visible_bindings account s e = elim (Bool-cases (is_empty account)) [
  | inl h ↦ rw h (λ m. (m, inl refl), λ m. m.0)
  | inr h ↦ rw h (
    λ m. let (n, t) = In-filter _ _ m in (n, inr ((eq_iff e.binding.account account).0 t)),
    λ m. elim m.1 [
      | inl q ↦ absurd (cc q)
      | inr q ↦ filter-In _ _ m.0 ((eq_iff e.binding.account account).1 q)
    ],
  )
]

matches_filters_iff :
    (to_lower : Text → Text) (p : BindingsPage) (e : BindingEntry)
    → (matches_filters to_lower p e ≡ true) ↔ (
        (includes (to_lower e.binding.role) (to_lower p.role_filter) ≡ true)
        × ((is_empty p.policy_filter ≡ true) ⊎ In p.policy_filter e.binding.policies))
unfolding matches_filters
matches_filters_iff to_lower p e =
    let a = and_iff (includes (to_lower e.binding.role) (to_lower p.role_filter)) _ in
    let o = or_iff (is_empty p.policy_filter) (includes_text p.policy_filter e.binding.policies) in
    let i = includes_text_iff p.policy_filter e.binding.policies in
    (
      λ h. let (r, q) = a.0 h in (r, elim (o.0 q) [ inl x ↦ inl x | inr x ↦ inr (i.0 x) ]),
      λ h. a.1 (h.0, o.1 (elim h.1 [ inl x ↦ inl x | inr x ↦ inr (i.1 x) ])),
    )

module _ (to_lower : Text → Text) (s : Store) (p : BindingsPage) where
  load_bindings-parts :
      ((load_bindings to_lower s p).entries ≡ visible_bindings p.selected_account s)
      × ((load_bindings to_lower s p).filtered_entries
          ≡ filter (matches_filters to_lower p) (visible_bindings p.selected_account s))
      × ((load_bindings to_lower s p).selected_entry
          ≡ reselect_binding p.selected_entry (visible_bindings p.selected_account s))
      × ((f : BindingEntry)
          → (load_bindings to_lower s p).selected_entry ≡ some f
          → (load_bindings to_lower s p).dangling_policies
            ≡ dangling_of p.available_policies (some f))
  unfolding load_bindings filter_bindings update_dangling_policies matches_filters
  load_bindings-parts =
      let q =
        update_dangling_policies (
          filter_bindings to_lower
            (record p { entries = visible_bindings p.selected_account s })) in
      reselected-parts q.selected_entry q refl

  -- After `loadBindings` the table shows exactly the stored bindings of the chosen account, or of all
  -- accounts if none is chosen, that the two filters match.
  In-load_bindings :
      (e : BindingEntry)
      → In e (load_bindings to_lower s p).filtered_entries ↔ IsListed to_lower s p e
  In-load_bindings e =
      let w = In-visible_bindings p.selected_account s e in
      let v = matches_filters_iff to_lower p e in
      rw load_bindings-parts.1 (
        λ m.
            let (n, t) = In-filter (matches_filters to_lower p) _ m in
            record { stored = (w.0 n).0; chosen = (w.0 n).1; role = (v.0 t).0; policy = (v.0 t).1 },
        λ l.
            filter-In (matches_filters to_lower p) _ (w.1 (l.stored, l.chosen))
              (v.1 (l.role, l.policy)),
      )

  -- What is selected after `loadBindings` is a stored binding of the chosen account, or of any if none
  -- is chosen, has the role and the account of what was selected before, and its marked IDs are
  -- exactly those of its IDs that are, without a marker, the ID of no available policy.
  pub load_bindings-selected :
      (f : BindingEntry)
      → (load_bindings to_lower s p).selected_entry ≡ some f
      → In f (list_all_bindings s)
        × ((is_empty p.selected_account ≡ true) ⊎ (f.binding.account ≡ p.selected_account))
        × ((o : BindingEntry) × (p.selected_entry ≡ some o)
            × (f.binding.role ≡ o.binding.role)
            × (f.binding.account ≡ o.binding.account))
        × ((id : Text)
            → In id (load_bindings to_lower s p).dangling_policies
              ↔ (In id f.binding.policies × ¬ In (strip_global_prefix id) p.available_policies))
  load_bindings-selected f h =
      let (entries, filtered, selected, dangling) = load_bindings-parts in
      let (m, o, q, r, a) = kept p.selected_entry refl (sym selected ∙ h) in
      let (n, c) = (In-visible_bindings p.selected_account s f).0 m in
      (n, c, (o, q, r, a), λ id. rw (dangling f h) (marked id))
    where
      kept :
          (k : Option BindingEntry)
          → p.selected_entry ≡ k
          → reselect_binding k (visible_bindings p.selected_account s) ≡ some f
          → In f (visible_bindings p.selected_account s)
            × (o : BindingEntry) × (p.selected_entry ≡ some o)
            × (f.binding.role ≡ o.binding.role)
            × (f.binding.account ≡ o.binding.account)
      kept none e g = absurd (unfold reselect_binding in cc g)
      kept (some o) e g =
          let (m, t) =
            find-eq-some (λ a. same_binding a o) (visible_bindings p.selected_account s) f
              (unfold reselect_binding in g) in
          let (r, a) = same_binding_lem f o t in (m, o, e, r, a)

      marked :
          (id : Text)
          → In id (dangling_of p.available_policies (some f))
            ↔ (In id f.binding.policies × ¬ In (strip_global_prefix id) p.available_policies)
      marked id =
          let d = In-dangling_of p.available_policies f id in
          let i = includes_text_iff (strip_global_prefix id) p.available_policies in
          (λ m. let (n, t) = d.0 m in (n, λ k. cc (sym (i.1 k) ∙ t)), λ m. d.1 (m.0, absent m.1))
        where
          absent :
              ¬ In (strip_global_prefix id) p.available_policies
              → includes_text (strip_global_prefix id) p.available_policies ≡ false
          absent gone =
              elim (Bool-cases (includes_text (strip_global_prefix id) p.available_policies)) [
                | inl t ↦
                    absurd
                      (gone ((includes_text_iff (strip_global_prefix id) p.available_policies).0 t))
                | inr t ↦ t
              ]
