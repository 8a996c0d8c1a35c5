-- ===== src/Validators/Laws.antt =====
-- The validators report nothing exactly for the policies and bindings that are complete.
use nauts.Base.{
  ℕ, suc, ◌≡◌, ◌↔◌, refl, sym, ◌∙◌, Bool, true, false, Option, none, some, List, [], ◌∷◌, ◌++◌, All,
  arith,
}
use nauts.Base.Text.{Text, codes, ◌==◌, eq_iff, trim, trim_eq_nil_iff, Blank}
use nauts.Validators.{
  ValidationError, PartialStatement, PartialPolicy, PartialBinding, is_blank, is_none_or_empty,
  is_not_allow, push_if, validate_statement, validate_statements, check_statements, validate_policy,
  validate_binding,
}

-- A text is there and holds more than white space.
abbrev pub IsFilled : Option Text → Type 0
IsFilled none = ⊥
IsFilled (some s) = ¬ Blank s

abbrev pub IsNonempty {ℓ} : {A : Type ℓ} → Option (List A) → Type 0
IsNonempty none = ⊥
IsNonempty (some []) = ⊥
IsNonempty (some (a ∷ rest)) = Unit

pub record IsCompleteStatement (s : PartialStatement) : Type 0 where
  pub allows : s.effect ≡ some (codes "allow")
  pub actions : IsNonempty s.actions
  pub resources : IsNonempty s.resources

abbrev pub AllComplete : Option (List PartialStatement) → Type 0
AllComplete none = Unit
AllComplete (some ss) = All IsCompleteStatement ss

pub record IsCompletePolicy (p : PartialPolicy) : Type 0 where
  pub name : IsFilled p.name
  pub account : IsFilled p.account
  pub some_statement : IsNonempty p.statements
  pub statements : AllComplete p.statements

pub record IsCompleteBinding (b : PartialBinding) : Type 0 where
  pub role : IsFilled b.role
  pub account : IsFilled b.account
  pub policies : IsNonempty b.policies

pub is_blank_iff : (o : Option Text) → (is_blank o ≡ false) ↔ IsFilled o
unfolding is_blank
is_blank_iff none = (λ h. cc, λ h. absurd h)
is_blank_iff (some s) = (
  λ h b. cc (sym ((eq_iff (trim s) []).1 ((trim_eq_nil_iff s).1 b)) ∙ h),
  λ h. unblank (trim s) refl h,
)
  where
    unblank : (t : Text) → trim s ≡ t → ¬ Blank s → (trim s == []) ≡ false
    unblank [] e h = absurd (h ((trim_eq_nil_iff s).0 e))
    unblank (c ∷ t) e h = rw e (unfold ◌==◌ in refl)

pub is_none_or_empty_iff {ℓ} :
    {A : Type ℓ} (o : Option (List A)) → (is_none_or_empty o ≡ false) ↔ IsNonempty o
unfolding is_none_or_empty
is_none_or_empty_iff none = (λ h. cc, λ h. absurd h)
is_none_or_empty_iff (some []) = (λ h. cc, λ h. absurd h)
is_none_or_empty_iff (some (a ∷ rest)) = (λ h. tt, λ h. refl)

pub is_not_allow_iff : (o : Option Text) → (is_not_allow o ≡ false) ↔ (o ≡ some (codes "allow"))
unfolding is_not_allow
is_not_allow_iff none = (λ h. cc, λ h. cc)
is_not_allow_iff (some s) =
    (λ h. ground (arith, eq_iff s (codes "allow")), λ h. ground (arith, eq_iff s (codes "allow")))

-- A report is empty when each of its two parts is.
append-nil_iff : (xs ys : List ValidationError) → (xs ++ ys ≡ []) ↔ ((xs ≡ []) × (ys ≡ []))
append-nil_iff [] ys = (λ h. (refl, h), λ h. h.1)
append-nil_iff (x ∷ xs) ys = (λ h. absurd (cc h), λ h. absurd (cc h.0))

push_if-nil_iff : (b : Bool) (f m : Text) → (push_if b f m ≡ []) ↔ (b ≡ false)
push_if-nil_iff true f m = (λ h. absurd (cc h), λ h. absurd (cc h))
push_if-nil_iff false f m = (λ h. refl, λ h. refl)

-- Three optional errors are none exactly when no test holds.
three_iff :
    (a b c : Bool) (f g h l m n : Text)
    → (push_if a f l ++ (push_if b g m ++ push_if c h n) ≡ [])
      ↔ ((a ≡ false) × (b ≡ false) × (c ≡ false))
three_iff a b c f g h l m n = (λ e. ground arith, λ e. ground arith)

validate_statement-nil_iff :
    (s : PartialStatement) (i : ℕ) → (validate_statement s i ≡ []) ↔ IsCompleteStatement s
unfolding validate_statement
validate_statement-nil_iff s i =
    let t =
      three_iff (is_not_allow s.effect) (is_none_or_empty s.actions) (is_none_or_empty s.resources)
        _ _ _ _ _ _ in
    (
      λ h.
          let e = t.0 h in
          record {
            allows = (is_not_allow_iff s.effect).0 e.0;
            actions = (is_none_or_empty_iff s.actions).0 e.1;
            resources = (is_none_or_empty_iff s.resources).0 e.2;
          },
      λ h. t.1 (
        (is_not_allow_iff s.effect).1 h.allows,
        (is_none_or_empty_iff s.actions).1 h.actions,
        (is_none_or_empty_iff s.resources).1 h.resources,
      ),
    )

validate_statements-nil_iff :
    (i : ℕ) (ss : List PartialStatement)
    → (validate_statements i ss ≡ []) ↔ All IsCompleteStatement ss
unfolding validate_statements
validate_statements-nil_iff i [] = (λ h. tt, λ h. refl)
validate_statements-nil_iff i (s ∷ ss) =
    let a = append-nil_iff (validate_statement s i) (validate_statements (suc i) ss) in
    let v = validate_statement-nil_iff s i in
    let w = validate_statements-nil_iff (suc i) ss in
    (λ h. (v.0 (a.0 h).0, w.0 (a.0 h).1), λ h. a.1 (v.1 h.0, w.1 h.1))

check_statements-nil_iff :
    (o : Option (List PartialStatement))
    → (check_statements o ≡ []) ↔ (IsNonempty o × AllComplete o)
unfolding check_statements
check_statements-nil_iff none = (λ h. absurd (cc h), λ h. absurd h.0)
check_statements-nil_iff (some []) = (λ h. absurd (cc h), λ h. absurd h.0)
check_statements-nil_iff (some (s ∷ ss)) =
    let w = validate_statements-nil_iff 0 (s ∷ ss) in (λ h. (tt, w.0 h), λ h. w.1 h.1)

-- `validatePolicy` reports nothing exactly for a policy with a name and an account that are not
-- blank and with statements, each of which allows and has actions and resources.
pub validate_policy-nil_iff : (p : PartialPolicy) → (validate_policy p ≡ []) ↔ IsCompletePolicy p
unfolding validate_policy
validate_policy-nil_iff p =
    let a = append-nil_iff (push_if (is_blank p.name) (codes "name") (codes "Name is required")) (
      push_if (is_blank p.account) (codes "account") (codes "Account is required")
      ++ check_statements p.statements) in
    let b =
      append-nil_iff (push_if (is_blank p.account) (codes "account") (codes "Account is required"))
        (check_statements p.statements) in
    let c = check_statements-nil_iff p.statements in
    (
      λ h.
          let (x, y) = a.0 h in
          record {
            name = (is_blank_iff p.name).0 ((push_if-nil_iff _ _ _).0 x);
            account = (is_blank_iff p.account).0 ((push_if-nil_iff _ _ _).0 (b.0 y).0);
            some_statement = (c.0 (b.0 y).1).0;
            statements = (c.0 (b.0 y).1).1;
          },
      λ h. a.1 (
        (push_if-nil_iff _ _ _).1 ((is_blank_iff p.name).1 h.name),
        b.1 (
          (push_if-nil_iff _ _ _).1 ((is_blank_iff p.account).1 h.account),
          c.1 (h.some_statement, h.statements),
        ),
      ),
    )

-- `validateBinding` reports nothing exactly for a binding with a role and an account that are not
-- blank and with policies.
validate_binding-nil_iff : (b : PartialBinding) → (validate_binding b ≡ []) ↔ IsCompleteBinding b
unfolding validate_binding
validate_binding-nil_iff b =
    let t =
      three_iff (is_blank b.role) (is_blank b.account) (is_none_or_empty b.policies) (codes "role")
        (codes "account") (codes "policies") _ _ _ in
    (
      λ h.
          let e = t.0 h in
          record {
            role = (is_blank_iff b.role).0 e.0;
            account = (is_blank_iff b.account).0 e.1;
            policies = (is_none_or_empty_iff b.policies).0 e.2;
          },
      λ h. t.1 (
        (is_blank_iff b.role).1 h.role,
        (is_blank_iff b.account).1 h.account,
        (is_none_or_empty_iff b.policies).1 h.policies,
      ),
    )
