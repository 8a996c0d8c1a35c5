-- ===== src/BindingsPage/Renaming.antt =====
-- What editing a binding does to the bucket, and what the page says.
use nauts.Base.{◌≡◌, refl, ap, ◌∙◌, true, false, Option, none, some, nat_eq, ℕ}
use nauts.Base.Text.{Text, codes, ◌==◌}
use nauts.Models.{Binding, BindingEntry}
use nauts.Thrown.{lift, ok, throw, Outcome}
use nauts.Thrown.Laws.{then-ok, bind-ok}
use nauts.KvKeys.{binding_key}
use nauts.KvStore
use nauts.KvStore.Client.{put, is_put, RawEntry, KvClient, Codec}
use nauts.KvStore.Bucket.{revision_of, is_live, IsBucket}
use nauts.KvStore.Writes.{delete_made, create_made, create_conflict, put_made}
use nauts.PolicyStore.{
  Store, Casts, global_binding, binding_key_or_throw, create_binding, update_binding,
  delete_binding,
}
use nauts.PoliciesPage.{conflict_message}
use nauts.BindingsPage.{
  BindingsPage, load_bindings, binding_error, binding_told, rename_binding, edit_binding,
  edit_binding_closed,
}

keyed :
    (account role key : Text)
    → binding_key account role ≡ some key
    → binding_key_or_throw account role ≡ ok key
unfolding binding_key_or_throw
keyed account role key h = ap (λ o. elim o [ none ↦ throw global_binding | some k ↦ ok k ]) h

module _ {V D B : Type 0} (casts : Casts V) (json : Codec V D) (kv : KvClient D B) where
  -- The writes of a binding that has a key.
  create_binding-keyed :
      (binding : Binding) (key : Text) (b : B)
      → binding_key binding.account binding.role ≡ some key
      → create_binding casts json kv binding b
        ≡ KvStore.create json kv key (casts.of_binding binding) b
  unfolding create_binding
  create_binding-keyed binding key b h =
      bind-ok (lift (binding_key_or_throw binding.account binding.role))
        (λ k. KvStore.create json kv k (casts.of_binding binding))
        (ap (λ o. (o, b)) (keyed binding.account binding.role key h))

  update_binding-keyed :
      (account role : Text) (binding : Binding) (r : ℕ) (key : Text) (b : B)
      → binding_key account role ≡ some key
      → update_binding casts json kv account role binding r b
        ≡ KvStore.put json kv key (casts.of_binding binding) (some r) b
  unfolding update_binding
  update_binding-keyed account role binding r key b h =
      bind-ok (lift (binding_key_or_throw account role))
        (λ k. KvStore.put json kv k (casts.of_binding binding) (some r))
        (ap (λ o. (o, b)) (keyed account role key h))

  delete_binding-keyed :
      (account role : Text) (r : ℕ) (key : Text) (b : B)
      → binding_key account role ≡ some key
      → delete_binding kv account role r b ≡ KvStore.delete kv key r b
  unfolding delete_binding
  delete_binding-keyed account role r key b h =
      bind-ok (lift (binding_key_or_throw account role)) (λ k. KvStore.delete kv k r)
        (ap (λ o. (o, b)) (keyed account role key h))

  -- Renaming is the creation in the bucket without the old binding.
  rename-made :
      (e : BindingEntry) (result : Binding) (old new : Text) (b t : B)
      → binding_key e.binding.account e.binding.role ≡ some old
      → binding_key result.account result.role ≡ some new
      → KvStore.delete kv old e.revision b ≡ (ok tt, t)
      → rename_binding casts json kv e result b
        ≡ KvStore.create json kv new (casts.of_binding result) t
  unfolding rename_binding
  rename-made e result old new b t ko kn gone =
      then-ok (delete_binding kv e.binding.account e.binding.role e.revision)
        (create_binding casts json kv result)
        (delete_binding-keyed e.binding.account e.binding.role e.revision old b ko ∙ gone)
      ∙ create_binding-keyed result new t kn

  module _ (to_lower : Text → Text) where
    closed_renaming :
        (e : BindingEntry) (result : Binding) (s : Store) (p : BindingsPage) (b : B)
        → p.selected_entry ≡ some e
        → (e.binding.role == result.role) ≡ false
        → edit_binding_closed to_lower casts json kv (some result) s p b ≡ (
          binding_told to_lower s
              (codes "Binding renamed")
              (rename_binding casts json kv e result b).0
              p,
          (rename_binding casts json kv e result b).1,
        )
    unfolding edit_binding_closed edit_binding
    closed_renaming e result s p b h n = rw (h, n) refl

    module _ (current : B → Text → Option (RawEntry D)) (bucket : IsBucket kv current) where
      -- In a bucket that behaves as documented, giving the selected binding a new role whose key holds
      -- a value already, over its last revision, deletes the binding and tells of a conflict: the old
      -- key holds no value any more, and the new key still holds the other binding.
      pub renamed_onto_taken :
          (e : BindingEntry) (result : Binding) (old new : Text) (s : Store) (p : BindingsPage)
          (b : B)
          → p.selected_entry ≡ some e
          → (e.binding.role == result.role) ≡ false
          → binding_key e.binding.account e.binding.role ≡ some old
          → binding_key result.account result.role ≡ some new
          → (new == old) ≡ false
          → nat_eq (revision_of (current b old)) e.revision ≡ true
          → is_live (current b new) ≡ true
          → (t : B) × (edit_binding_closed to_lower casts json kv (some result) s p b
              ≡ (load_bindings to_lower s (record p { message = some conflict_message }), t))
            × (is_live (current t old) ≡ false)
            × (current t new ≡ current b new)
      renamed_onto_taken e result old new s p b h n ko kn apart fresh taken =
          let (t, k, mark, gone, w) = delete_made kv current bucket b old e.revision fresh in
          let refused =
            create_conflict kv current bucket json t new (casts.of_binding result)
              (ap is_live (w.elsewhere new apart) ∙ taken) in
          (
            t,
            closed_renaming e result s p b h n
                ∙ ap
                    (λ (a : Outcome ℕ × B).
                      (binding_told to_lower s (codes "Binding renamed") a.0 p, a.1))
                    (rename-made e result old new b t ko kn gone ∙ refused)
                ∙ unfold binding_told binding_error in refl,
            ap is_live w.here ∙ unfold is_put in refl,
            w.elsewhere new apart,
          )

      -- In a bucket that behaves as documented, giving the selected binding a new role, over its last
      -- revision, deletes it and creates it under the new key, where that key is another one and holds no
      -- value.
      pub renamed_onto_free :
          (e : BindingEntry) (result : Binding) (old new : Text) (s : Store) (p : BindingsPage)
          (b : B)
          → p.selected_entry ≡ some e
          → (e.binding.role == result.role) ≡ false
          → binding_key e.binding.account e.binding.role ≡ some old
          → binding_key result.account result.role ≡ some new
          → (new == old) ≡ false
          → (old == new) ≡ false
          → nat_eq (revision_of (current b old)) e.revision ≡ true
          → is_live (current b new) ≡ false
          → (u : B) × (k : ℕ) × (edit_binding_closed to_lower casts json kv (some result) s p b
              ≡ (record p { message = some (codes "Binding renamed") }, u))
            × (is_live (current u old) ≡ false)
            × (current u new
                ≡ some (record {
                  key = new;
                  value = json.encode (casts.of_binding result);
                  operation = put;
                  revision = k;
                }))
      renamed_onto_free e result old new s p b h n ko kn apart other fresh free =
          let (t, j, mark, gone, w) = delete_made kv current bucket b old e.revision fresh in
          let (u, k, made, x) =
            create_made kv current bucket json t new (casts.of_binding result)
              (ap is_live (w.elsewhere new apart) ∙ free) in
          (
            u,
            k,
            closed_renaming e result s p b h n
                ∙ ap
                    (λ (a : Outcome ℕ × B).
                      (binding_told to_lower s (codes "Binding renamed") a.0 p, a.1))
                    (rename-made e result old new b t ko kn gone ∙ made)
                ∙ unfold binding_told in refl,
            ap is_live (x.elsewhere old other ∙ w.here) ∙ unfold is_put in refl,
            x.here,
          )

      closed_updating :
          (e : BindingEntry) (result : Binding) (key : Text) (s : Store) (p : BindingsPage) (b : B)
          → p.selected_entry ≡ some e
          → (e.binding.role == result.role) ≡ true
          → binding_key e.binding.account e.binding.role ≡ some key
          → edit_binding_closed to_lower casts json kv (some result) s p b ≡ (
            binding_told to_lower s
                (codes "Binding updated")
                (KvStore.put json kv key (casts.of_binding result) (some e.revision) b).0
                p,
            (KvStore.put json kv key (casts.of_binding result) (some e.revision) b).1,
          )
      unfolding edit_binding_closed edit_binding
      closed_updating e result key s p b h n k =
          rw (h, n, update_binding-keyed e.binding.account e.binding.role result e.revision key b k)
            refl

      -- In a bucket that behaves as documented, an edit over the last revision that keeps the role is
      -- written under the key of the selected binding, whatever account the edited binding names.
      pub updated_in_place :
          (e : BindingEntry) (result : Binding) (key : Text) (s : Store) (p : BindingsPage) (b : B)
          → p.selected_entry ≡ some e
          → (e.binding.role == result.role) ≡ true
          → binding_key e.binding.account e.binding.role ≡ some key
          → nat_eq (revision_of (current b key)) e.revision ≡ true
          → (t : B) × (k : ℕ) × (edit_binding_closed to_lower casts json kv (some result) s p b
              ≡ (record p { message = some (codes "Binding updated") }, t))
            × (current t key
                ≡ some (record {
                  key = key;
                  value = json.encode (casts.of_binding result);
                  operation = put;
                  revision = k;
                }))
      updated_in_place e result key s p b h n ko fresh =
          let (t, k, made, w) =
            put_made kv current bucket json b key (casts.of_binding result) e.revision fresh in
          (
            t,
            k,
            closed_updating e result key s p b h n ko
                ∙ ap
                    (λ (a : Outcome ℕ × B).
                      (binding_told to_lower s (codes "Binding updated") a.0 p, a.1))
                    made
                ∙ unfold binding_told in refl,
            w.here,
          )
