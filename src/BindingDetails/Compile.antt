-- ===== src/BindingDetails/Compile.antt =====
-- The statements that the details of a binding list, and the policies that the simulator lists for
-- its role.
use nauts.Base.{
  ◌≡◌, refl, sym, ap, ap₂, ◌∙◌, Option, none, some, List, [], ◌∷◌, ◌++◌, map, find, append_assoc,
  append-nil,
}
use nauts.Base.Text.{Text}
use nauts.Models.{Statement, PolicyEntry, BindingEntry}
use nauts.Thrown.{ok}
use nauts.PolicyStore.{Store, get_binding, list_all_policies}
use nauts.KvKeys.{strip_global_prefix}
use nauts.BindingDetails.{
  PolicyInfo, info_of, fits, get_policy_for_id, Compiled, nothing_compiled, push_statements,
  push_policy, compile_policies, compile_statements,
}
use nauts.Simulator.{Role, resolve_policies, get_policies_for_role}

-- The policies that the IDs of a binding name, in their order.
abbrev pub resolved : BindingEntry → Store → List Text → List PolicyEntry
resolved e s [] = []
resolved e s (id ∷ ids) = elim (get_policy_for_id (some e) id s) [
  | none ↦ resolved e s ids
  | some p ↦ p ∷ resolved e s ids
]

abbrev pub all_statements : List PolicyEntry → List Statement
all_statements [] = []
all_statements (p ∷ ps) = p.policy.statements ++ all_statements ps

-- For each statement, the policy that it is from.
abbrev pub all_infos : List PolicyEntry → List PolicyInfo
all_infos [] = []
all_infos (p ∷ ps) = map (λ _. info_of p) p.policy.statements ++ all_infos ps

abbrev both : List Statement → List PolicyInfo → Compiled
both ss is = record { compiled_statements = ss; statement_policy_infos = is }

push_statements-eq :
    (info : PolicyInfo) (ss : List Statement) (c : Compiled)
    → push_statements info ss c
      ≡ both (c.compiled_statements ++ ss) (c.statement_policy_infos ++ map (λ _. info) ss)
unfolding push_statements
push_statements-eq info [] c =
    ap₂ both (sym (append-nil c.compiled_statements)) (sym (append-nil c.statement_policy_infos))
push_statements-eq info (s ∷ ss) c =
    push_statements-eq info ss _
    ∙ ap₂ both (append_assoc c.compiled_statements (s ∷ []) ss)
        (append_assoc c.statement_policy_infos (info ∷ []) (map (λ _. info) ss))

compile_policies-eq :
    (e : BindingEntry) (s : Store) (ids : List Text) (c : Compiled)
    → compile_policies e s ids c
      ≡ both
          (c.compiled_statements ++ all_statements (resolved e s ids))
          (c.statement_policy_infos ++ all_infos (resolved e s ids))
unfolding compile_policies
compile_policies-eq e s [] c =
    ap₂ both (sym (append-nil c.compiled_statements)) (sym (append-nil c.statement_policy_infos))
compile_policies-eq e s (id ∷ ids) c =
    compile_policies-eq e s ids _ ∙ by (get_policy_for_id (some e) id s) (resolved e s ids)
  where
    by :
        (o : Option PolicyEntry) (rest : List PolicyEntry)
        → both
            ((push_policy o c).compiled_statements ++ all_statements rest)
            ((push_policy o c).statement_policy_infos ++ all_infos rest)
          ≡ both
              (c.compiled_statements ++ all_statements (elim o [ none ↦ rest | some p ↦ p ∷ rest ]))
              (c.statement_policy_infos ++ all_infos (elim o [ none ↦ rest | some p ↦ p ∷ rest ]))
    by none rest = unfold push_policy in refl
    by (some p) rest =
        unfold push_policy in
        ap
          (λ d.
            both (d.compiled_statements ++ all_statements rest)
              (d.statement_policy_infos ++ all_infos rest))
          (push_statements-eq (info_of p) p.policy.statements c)
        ∙ ap₂ both (append_assoc c.compiled_statements p.policy.statements (all_statements rest)) (
            append_assoc c.statement_policy_infos (map (λ _. info_of p) p.policy.statements)
              (all_infos rest))

resolve_policies-eq :
    (e : BindingEntry) (s : Store) (ids : List Text)
    → resolve_policies e.binding.account s ids ≡ map info_of (resolved e s ids)
unfolding resolve_policies get_policy_for_id
resolve_policies-eq e s [] = refl
resolve_policies-eq e s (id ∷ ids) =
    by (find (fits e.binding.account (strip_global_prefix id)) (list_all_policies s))
      (resolve_policies-eq e s ids)
  where
    by :
        (o : Option PolicyEntry)
        → resolve_policies e.binding.account s ids ≡ map info_of (resolved e s ids)
        → (elim o [
          | none ↦ resolve_policies e.binding.account s ids
          | some p ↦ info_of p ∷ resolve_policies e.binding.account s ids
        ])
          ≡ map info_of (elim o [ none ↦ resolved e s ids | some p ↦ p ∷ resolved e s ids ])
    by none q = q
    by (some p) q = ap (λ l. info_of p ∷ l) q

-- Where a binding is the one that is stored for a role and holds the account of the role, its
-- details list the statements of the policies that its IDs name, in order, each with its policy,
-- and those are the policies that the simulator lists for the role.
pub compile_statements-resolved :
    (role : Role) (s : Store) (e : BindingEntry)
    → get_binding role.account role.name s ≡ ok (some e)
    → e.binding.account ≡ role.account
    → ((compile_statements (some e) s).compiled_statements
        ≡ all_statements (resolved e s e.binding.policies))
      × ((compile_statements (some e) s).statement_policy_infos
          ≡ all_infos (resolved e s e.binding.policies))
      × (get_policies_for_role role s ≡ ok (map info_of (resolved e s e.binding.policies)))
unfolding compile_statements get_policies_for_role
compile_statements-resolved role s e found same =
    let c = compile_policies-eq e s e.binding.policies nothing_compiled in
    (
      ap (λ d. d.compiled_statements) c,
      ap (λ d. d.statement_policy_infos) c,
      rw (found, get_policies_for_role)
          (ap (λ a. ok (resolve_policies a s e.binding.policies)) (sym same)
            ∙ ap ok (resolve_policies-eq e s e.binding.policies)),
    )
