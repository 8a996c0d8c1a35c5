-- ===== src/Validators.antt =====
-- The validators of policies and bindings: ctrlp/src/app/validators/policy.validator.ts and
-- binding.validator.ts. A property of a `Partial` that may be missing is an `Option`.
pub mod Laws
pub mod Faults
pub mod Located
use nauts.Base.{
  ℕ, suc, ◌≡◌, Bool, true, false, not, Option, none, some, List, [], ◌∷◌, ◌++◌, if◌then◌else◌,
}
use nauts.Base.Text.{Text, codes, ◌==◌, trim}
use nauts.Base.Decimal.{decimal}

pub record ValidationError : Type 0 where
  pub field : Text
  pub message : Text

pub record PartialStatement : Type 0 where
  pub effect : Option Text
  pub actions : Option (List Text)
  pub resources : Option (List Text)

pub record PartialPolicy : Type 0 where
  pub name : Option Text
  pub account : Option Text
  pub statements : Option (List PartialStatement)

pub record PartialBinding : Type 0 where
  pub role : Option Text
  pub account : Option Text
  pub policies : Option (List Text)

-- `!value?.trim()`
unfoldable pub is_blank : Option Text → Bool
is_blank none = true
is_blank (some s) = trim s == []

-- `!list || list.length === 0`
unfoldable pub is_none_or_empty {ℓ} : {A : Type ℓ} → Option (List A) → Bool
is_none_or_empty none = true
is_none_or_empty (some []) = true
is_none_or_empty (some (a ∷ rest)) = false

-- `effect !== 'allow'`
unfoldable pub is_not_allow : Option Text → Bool
is_not_allow none = true
is_not_allow (some s) = not (s == codes "allow")

-- `if (test) errors.push({ field, message })`
abbrev pub push_if : Bool → Text → Text → List ValidationError
push_if test field message = if test then record { field = field; message = message } ∷ [] else []

abbrev pub statement_prefix : ℕ → Text
statement_prefix index = codes "statements." ++ decimal index

unfoldable pub validate_statement : PartialStatement → ℕ → List ValidationError
validate_statement stmt index =
    push_if (is_not_allow stmt.effect) (statement_prefix index ++ codes ".effect")
      (codes "Effect must be \"allow\"")
    ++ (push_if (is_none_or_empty stmt.actions) (statement_prefix index ++ codes ".actions")
          (codes "At least one action is required")
        ++ push_if (is_none_or_empty stmt.resources) (statement_prefix index ++ codes ".resources")
            (codes "At least one resource is required"))

-- The loop over the statements, at index `i`.
unfoldable pub validate_statements : ℕ → List PartialStatement → List ValidationError
validate_statements i [] = []
validate_statements i (stmt ∷ stmts) =
    validate_statement stmt i ++ validate_statements (suc i) stmts

-- The errors of the statements, or of their absence.
unfoldable pub check_statements : Option (List PartialStatement) → List ValidationError
check_statements (some (stmt ∷ stmts)) = validate_statements 0 (stmt ∷ stmts)
check_statements _ =
    record { field = codes "statements"; message = codes "At least one statement is required" } ∷ []

unfoldable pub validate_policy : PartialPolicy → List ValidationError
validate_policy policy =
    push_if (is_blank policy.name) (codes "name") (codes "Name is required")
    ++ (push_if (is_blank policy.account) (codes "account") (codes "Account is required")
        ++ check_statements policy.statements)

unfoldable pub validate_binding : PartialBinding → List ValidationError
validate_binding binding =
    push_if (is_blank binding.role) (codes "role") (codes "Role is required")
    ++ (push_if (is_blank binding.account) (codes "account") (codes "Account is required")
        ++ push_if (is_none_or_empty binding.policies) (codes "policies")
            (codes "At least one policy is required"))
