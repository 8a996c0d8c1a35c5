-- ===== src/PoliciesPage/Status.antt =====
-- The status of a policy in the list.
use nauts.Base.{
  is_nonempty, ◌≡◌, ◌↔◌, refl, sym, ap, ◌∙◌, true, false, none, [], ◌∷◌, if◌then◌else◌, Bool-cases,
  inl, inr,
}
use nauts.Base.Text.{Text, eq_refl}
use nauts.Base.Dict
use nauts.Base.Dict.{Dict}
use nauts.Models.{PolicyEntry}
use nauts.ResourceValidator.{validate_resource, validate_policy_resources}
use nauts.ResourceValidator.Grammar.{IsResource}
use nauts.ResourceValidator.Accepts.{validate_resource-none_iff}
use nauts.ResourceValidator.Errors.{is_listed, get-validate_policy_resources}
use nauts.PoliciesPage.{has_invalid_resources}

-- A map is empty when no key finds anything.
is_nonempty-get : (m : Dict Text) → ((r : Text) → Dict.get r m ≡ none) → is_nonempty m ≡ false
unfolding Dict.get
is_nonempty-get [] h = refl
is_nonempty-get ((k, v) ∷ m) h = absurd (cc (rw (eq_refl k) at (h k)))

get-empty : (m : Dict Text) → is_nonempty m ≡ false → (r : Text) → Dict.get r m ≡ none
unfolding Dict.get
get-empty [] h r = refl
get-empty (e ∷ m) h r = absurd (cc h)

-- A policy counts as valid exactly if every resource that its statements list is a resource name of
-- the grammar.
has_invalid_resources_iff :
    (e : PolicyEntry)
    → (has_invalid_resources e ≡ false)
      ↔ ((r : Text) → is_listed r e.policy.statements ≡ true → IsResource r)
unfolding has_invalid_resources
has_invalid_resources_iff e = (
  λ h r m.
      (validate_resource-none_iff r).0
        (sym (listed r m) ∙ get-empty (validate_policy_resources e.policy.statements) h r),
  λ h. is_nonempty-get (validate_policy_resources e.policy.statements) (λ r. by r h),
)
  where
    listed :
        (r : Text)
        → is_listed r e.policy.statements ≡ true
        → Dict.get r (validate_policy_resources e.policy.statements) ≡ validate_resource r
    listed r m =
        get-validate_policy_resources r e.policy.statements
        ∙ ap (λ b. if b then validate_resource r else none) m

    by :
        (r : Text)
        → ((t : Text) → is_listed t e.policy.statements ≡ true → IsResource t)
        → Dict.get r (validate_policy_resources e.policy.statements) ≡ none
    by r h = elim (Bool-cases (is_listed r e.policy.statements)) [
      | inl m ↦ listed r m ∙ (validate_resource-none_iff r).1 (h r m)
      | inr m ↦
          get-validate_policy_resources r e.policy.statements
          ∙ ap (λ b. if b then validate_resource r else none) m
    ]
