-- ===== src/Validators/Located.antt =====
-- Where the validator of policies reports which error:
-- ctrlp/src/app/validators/policy.validator.ts. An error of a statement names the statement by its
-- index.
use nauts.Base.{
  ℕ, zero, suc, ◌+◌, ◌≡◌, ◌↔◌, ◌⊎◌, inl, inr, refl, ap, ◌∙◌, Bool, true, false, subst, Option, none,
  some, List, [], ◌∷◌, ◌++◌, In, In-append, append-In, arith,
}
use nauts.Base.Text.{Text, codes}
use nauts.Validators.{
  ValidationError, PartialStatement, PartialPolicy, is_blank, push_if, validate_statement,
  validate_statements, check_statements, validate_policy,
}
use nauts.Validators.Faults.{
  Part, effect, actions, resources, error_at, HasFaultAt, is_faulty, is_faulty_iff,
  error_at-injective, is_part, not_at,
}

-- What one optional error reports.
In-push_if :
    (b : Bool) (f m : Text) (e : ValidationError)
    → In e (push_if b f m) ↔ ((b ≡ true) × (e ≡ record { field = f; message = m }))
In-push_if true f m e = (λ n. elim n [ inl q ↦ (refl, q) | inr n ↦ absurd n ], λ h. inl h.1)
In-push_if false f m e = (λ h. absurd h, λ h. absurd (cc h.0))

-- One optional error of a statement.
In-part :
    (s : PartialStatement) (b a : Part) (j i : ℕ)
    → In (error_at a i) (push_if (is_faulty b s) (error_at b j).field (error_at b j).message)
    → (is_faulty a s ≡ true) × (i ≡ j)
In-part s b a j i n =
    let h =
      (In-push_if (is_faulty b s) (error_at b j).field (error_at b j).message (error_at a i)).0 n in
    let q = error_at-injective a b i j h.1 in (ap (λ (c : Part). is_faulty c s) q.0 ∙ h.0, q.1)

-- The errors of one statement are those on its faulty parts, at its index.
In-validate_statement :
    (s : PartialStatement) (j : ℕ) (a : Part) (i : ℕ)
    → In (error_at a i) (validate_statement s j)
    → (is_faulty a s ≡ true) × (i ≡ j)
unfolding validate_statement
In-validate_statement s j a i n = elim (In-append (error_at a i) _ _ n) [
  | inl m ↦ In-part s effect a j i m
  | inr m ↦ elim (In-append (error_at a i) _ _ m) [
    | inl k ↦ In-part s actions a j i k
    | inr k ↦ In-part s resources a j i k
  ]
]

validate_statement-In :
    (s : PartialStatement) (a : Part) (i : ℕ)
    → is_faulty a s ≡ true
    → In (error_at a i) (validate_statement s i)
unfolding validate_statement
validate_statement-In s a i h = append-In (error_at a i) _ _ (pushed a h)
  where
    own :
        (b : Part)
        → is_faulty b s ≡ true
        → In (error_at b i) (push_if (is_faulty b s) (error_at b i).field (error_at b i).message)
    own b h = (In-push_if (is_faulty b s) _ _ (error_at b i)).1 (h, refl)

    pushed :
        (b : Part)
        → is_faulty b s ≡ true
        → In
            (error_at b i)
            (push_if (is_faulty effect s) (error_at effect i).field (error_at effect i).message)
          ⊎ In (error_at b i) (
              push_if (is_faulty actions s) (error_at actions i).field (error_at actions i).message
              ++ push_if
                  (is_faulty resources s)
                  (error_at resources i).field
                  (error_at resources i).message)
    pushed effect h = inl (own effect h)
    pushed actions h = inr (append-In (error_at actions i) _ _ (inl (own actions h)))
    pushed resources h = inr (append-In (error_at resources i) _ _ (inr (own resources h)))

-- The errors of the statements from index `k` on.
In-validate_statements :
    (k : ℕ) (ss : List PartialStatement) (a : Part) (i : ℕ)
    → In (error_at a i) (validate_statements k ss)
    → (n : ℕ) × (i ≡ k + n) × HasFaultAt (some ss) a n
unfolding validate_statements
In-validate_statements k [] a i m = absurd m
In-validate_statements k (s ∷ ss) a i m =
    elim (In-append (error_at a i) (validate_statement s k) (validate_statements (suc k) ss) m) [
      | inl n ↦
          let h = In-validate_statement s k a i n in
          (0, omega (arith, h.1), (s, refl, (is_faulty_iff a s).0 h.0))
      | inr n ↦ let (j, e, h) = In-validate_statements (suc k) ss a i n in (suc j, omega arith, h)
    ]

validate_statements-In :
    (k : ℕ) (ss : List PartialStatement) (a : Part) (i n : ℕ)
    → i ≡ k + n
    → HasFaultAt (some ss) a n
    → In (error_at a i) (validate_statements k ss)
unfolding validate_statements
validate_statements-In k [] a i n q h = absurd (cc h.1)
validate_statements-In k (s ∷ ss) a i zero q (t, e, f) =
    let p : i ≡ k = omega arith in
    let u : s ≡ t = cc e in
    let g : is_faulty a s ≡ true = (is_faulty_iff a s).1 (rw u f) in
    rw p (
      append-In (error_at a k) (validate_statement s k) (validate_statements (suc k) ss)
        (inl (validate_statement-In s a k g)))
validate_statements-In k (s ∷ ss) a i (suc n) q h =
    append-In (error_at a i) (validate_statement s k) (validate_statements (suc k) ss)
      (inr (validate_statements-In (suc k) ss a i n (omega arith) h))

In-single :
    (a : Part) (i : ℕ) (e : ValidationError)
    → is_part e.message ≡ false
    → ¬ In (error_at a i) (e ∷ [])
In-single a i e h (inl q) = not_at a i e h q
In-single a i e h (inr m) = absurd m

-- Such an error in front, if it is there, is none on a statement.
In-behind :
    (a : Part) (i : ℕ) (b : Bool) (f m : Text) (es : List ValidationError)
    → is_part m ≡ false
    → In (error_at a i) (push_if b f m ++ es) ↔ In (error_at a i) es
In-behind a i true f m es h = (
  λ n. elim n [ inl q ↦ absurd (not_at a i (record { field = f; message = m }) h q) | inr n ↦ n ],
  λ n. inr n,
)
In-behind a i false f m es h = (λ n. n, λ n. n)

In-check_statements :
    (o : Option (List PartialStatement)) (a : Part) (i : ℕ)
    → In (error_at a i) (check_statements o) ↔ HasFaultAt o a i
unfolding check_statements
In-check_statements none a i = (λ m. absurd (In-single a i _ refl m), λ h. absurd h)
In-check_statements (some []) a i = (λ m. absurd (In-single a i _ refl m), λ h. absurd (cc h.1))
In-check_statements (some (s ∷ ss)) a i = (
  λ m.
      let (n, e, h) = In-validate_statements 0 (s ∷ ss) a i m in
      let q : n ≡ i = omega arith in subst (HasFaultAt (some (s ∷ ss)) a) q h,
  λ h. validate_statements-In 0 (s ∷ ss) a i i (omega arith) h,
)

-- `validatePolicy` reports an error on the effect, the actions or the resources of a statement
-- exactly if the policy has a statement at the index that the error names, within its list, and that
-- part of this statement is at fault.
pub In-validate_policy :
    (p : PartialPolicy) (a : Part) (i : ℕ)
    → In (error_at a i) (validate_policy p) ↔ HasFaultAt p.statements a i
unfolding validate_policy
In-validate_policy p a i =
    let c = In-check_statements p.statements a i in
    let n =
      In-behind a i (is_blank p.name) (codes "name") (codes "Name is required")
        (push_if (is_blank p.account) (codes "account") (codes "Account is required")
          ++ check_statements p.statements)
        refl in
    let o =
      In-behind a i (is_blank p.account) (codes "account") (codes "Account is required")
        (check_statements p.statements) refl in
    (λ m. c.0 (o.0 (n.0 m)), λ h. n.1 (o.1 (c.1 h)))
