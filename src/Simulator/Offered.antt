-- ===== src/Simulator/Offered.antt =====
-- The accounts and roles that the simulator offers.
use nauts.Base.{◌≡◌, ◌↔◌, ◌⊎◌, inl, inr, refl, ap, ◌∙◌, List, [], ◌∷◌, In}
use nauts.Base.Sort.{In-sort_by}
use nauts.Base.Text.{Text}
use nauts.Models.{BindingEntry}
use nauts.AccountService.{add_to_set, sort_texts, comes_before}
use nauts.AccountService.Found.{In-add_to_set}
use nauts.PolicyStore.{Store, list_all_bindings}
use nauts.Simulator.{role_text}
use nauts.Simulator.Page.{SimulatorPage, account_set, role_set, load_accounts_and_roles}

-- A text that an added entry may give.
abbrev Given : (BindingEntry → Text) → Text → List BindingEntry → Type 0
Given f a es = (e : BindingEntry) × In e es × (a ≡ f e)

added_step :
    (f : BindingEntry → Text) (a : Text) (e : BindingEntry) (es : List BindingEntry)
    (S T U : Type 0)
    → (U ↔ (T ⊎ Given f a es))
    → (T ↔ (S ⊎ (a ≡ f e)))
    → (U ↔ (S ⊎ Given f a (e ∷ es)))
added_step f a e es S T U w v = (λ m. forth (w.0 m), λ m. w.1 (back m))
  where
    forth : T ⊎ Given f a es → S ⊎ Given f a (e ∷ es)
    forth (inl t) = elim (v.0 t) [ inl s ↦ inl s | inr q ↦ inr (e, inl refl, q) ]
    forth (inr (d, m, q)) = inr (d, inr m, q)

    back : S ⊎ Given f a (e ∷ es) → T ⊎ Given f a es
    back (inl s) = inl (v.1 (inl s))
    back (inr (d, inl p, q)) = inl (v.1 (inr (q ∙ ap f p)))
    back (inr (d, inr m, q)) = inr (d, m, q)

In-account_set :
    (a : Text) (es : List BindingEntry) (set : List Text)
    → In a (account_set es set) ↔ (In a set ⊎ Given (λ e. e.binding.account) a es)
unfolding account_set
In-account_set a [] set = (λ m. inl m, λ m. elim m [ inl n ↦ n | inr n ↦ absurd n.1 ])
In-account_set a (e ∷ es) set =
    added_step (λ d. d.binding.account) a e es _ _ _
      (In-account_set a es (add_to_set e.binding.account set))
      (In-add_to_set a e.binding.account set)

In-role_set :
    (a : Text) (es : List BindingEntry) (set : List Text)
    → In a (role_set es set) ↔ (In a set ⊎ Given role_text a es)
unfolding role_set
In-role_set a [] set = (λ m. inl m, λ m. elim m [ inl n ↦ n | inr n ↦ absurd n.1 ])
In-role_set a (e ∷ es) set =
    added_step role_text a e es _ _ _ (In-role_set a es (add_to_set (role_text e) set))
      (In-add_to_set a (role_text e) set)

-- The simulator offers exactly the accounts and the roles of the stored bindings.
load_accounts_and_roles-In :
    {R : Type 0} (s : Store) (p : SimulatorPage R) (a : Text)
    → (In a (load_accounts_and_roles s p).available_accounts
        ↔ ((e : BindingEntry) × In e (list_all_bindings s) × (a ≡ e.binding.account)))
      × (In a (load_accounts_and_roles s p).available_roles
          ↔ ((e : BindingEntry) × In e (list_all_bindings s) × (a ≡ role_text e)))
unfolding load_accounts_and_roles sort_texts
load_accounts_and_roles-In s p a = (
  by (λ e. e.binding.account) _ (In-account_set a (list_all_bindings s) []),
  by role_text _ (In-role_set a (list_all_bindings s) []),
)
  where
    by :
        (f : BindingEntry → Text) (l : List Text)
        → (In a l ↔ (⊥ ⊎ Given f a (list_all_bindings s)))
        → (In a (sort_texts l) ↔ Given f a (list_all_bindings s))
    by f l w =
        unfold sort_texts in
        let v = In-sort_by (λ x y. comes_before y x) a l in
        (λ m. elim (w.0 (v.0 m)) [ inl n ↦ absurd n | inr n ↦ n ], λ m. v.1 (w.1 (inr m)))
