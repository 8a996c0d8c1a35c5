-- ===== src/Simulator/Restored.antt =====
-- What the simulator page opens with.
use nauts.Base.{
  Bool, if◌then◌else◌, ◌≡◌, ◌⊎◌, inl, inr, refl, sym, ◌∙◌, true, false, Option, none, some, List,
  [], ◌∷◌, In, ◌&&◌, not,
}
use nauts.Base.Text.{Text, is_empty}
use nauts.Thrown.{Outcome, ok}
use nauts.NatsService.{Connection}
use nauts.PolicyStore.{Store, includes_text}
use nauts.PolicyStore.Queries.{includes_text_iff}
use nauts.Simulator.{can_simulate}
use nauts.Simulator.Page.{
  DebugRequest, SimulatorPage, load_accounts_and_roles, request_of, answered, requested, simulate,
  restored, default_account, account_told, restored_or_default, simulator_opened,
}

-- The account that a page without a saved state shows: one on offer, and that of the navigation if it
-- is on offer.
abbrev pub Chosen : Text → Text → List Text → Type 0
Chosen account target available =
    (available ≡ [])
    ⊎ (In target available
        × (¬ In account available ⊎ (is_empty account ≡ true) ⊎ (target ≡ account)))

default_account-Chosen :
    (account : Text) (available : List Text) (target : Text)
    → Chosen account (default_account account available target) available
unfolding default_account
default_account-Chosen account [] target = inl refl
default_account-Chosen account (a ∷ rest) target =
    inr (by (is_empty account) (includes_text account (a ∷ rest)) refl refl)
  where
    by :
        (e i : Bool)
        → is_empty account ≡ e
        → includes_text account (a ∷ rest) ≡ i
        → In (if not e && i then account else a) (a ∷ rest)
          × (¬ In account (a ∷ rest)
              ⊎ (is_empty account ≡ true)
              ⊎ ((if not e && i then account else a) ≡ account))
    by false true e i = ((includes_text_iff account (a ∷ rest)).0 i, inr (inr refl))
    by true i e h = (inl refl, inr (inl e))
    by false false e i =
        (inl refl, inl (λ m. cc (sym i ∙ (includes_text_iff account (a ∷ rest)).1 m)))

module _ {R : Type 0} where
  simulate-ok :
      (send : Connection → DebugRequest → Outcome R) (error_of : R → Option Text)
      (connection : Option Connection) (p : SimulatorPage R) (r : R)
      → can_simulate p.user_name p.target_account p.selected_roles ≡ true
      → requested send connection (request_of p) ≡ ok r
      → ((simulate send error_of connection p).saved
          ≡ some (p.user_name, p.target_account, p.selected_roles, some r))
        × ((simulate send error_of connection p).response ≡ some r)
  unfolding simulate answered
  simulate-ok send error_of connection p r c h = rw (c, h) (refl, refl)

  opened-saved :
      (account : Text) (s : Store) (p : SimulatorPage R) (u a : Text) (rs : List Text)
      (r : Option R)
      → p.saved ≡ some (u, a, rs, r)
      → ((simulator_opened account s p).user_name ≡ u)
        × ((simulator_opened account s p).target_account ≡ a)
        × ((simulator_opened account s p).selected_roles ≡ rs)
        × ((simulator_opened account s p).response ≡ r)
  unfolding simulator_opened restored_or_default restored load_accounts_and_roles
  opened-saved account s p u a rs r h = rw h (refl, refl, refl, refl)

  -- A page that opens after a simulation which was answered, over the storage that this one left,
  -- has its user, account, roles and answer, whatever the store and the navigation hold.
  opened-simulate :
      (send : Connection → DebugRequest → Outcome R) (error_of : R → Option Text)
      (connection : Option Connection) (p : SimulatorPage R) (r : R) (account : Text) (s : Store)
      (q : SimulatorPage R)
      → can_simulate p.user_name p.target_account p.selected_roles ≡ true
      → requested send connection (request_of p) ≡ ok r
      → q.saved ≡ (simulate send error_of connection p).saved
      → ((simulator_opened account s q).user_name ≡ p.user_name)
        × ((simulator_opened account s q).target_account ≡ p.target_account)
        × ((simulator_opened account s q).selected_roles ≡ p.selected_roles)
        × ((simulator_opened account s q).response ≡ (simulate send error_of connection p).response)
  opened-simulate send error_of connection p r account s q c h kept =
      let (stored, shown) = simulate-ok send error_of connection p r c h in
      let (u, a, rs, o) =
        opened-saved account s q p.user_name p.target_account p.selected_roles (some r)
          (kept ∙ stored) in
      (u, a, rs, o ∙ sym shown)

  -- Where nothing is saved and an account is on offer, the page opens with an account on offer, which
  -- is that of the navigation if that is not empty and on offer.
  opened-account :
      (account : Text) (s : Store) (p : SimulatorPage R)
      → p.saved ≡ none
      → Chosen account
          (simulator_opened account s p).target_account
          (simulator_opened account s p).available_accounts
  unfolding simulator_opened restored_or_default account_told load_accounts_and_roles
  opened-account account s p h = rw h (
      default_account-Chosen account (load_accounts_and_roles s p).available_accounts
        p.target_account)
