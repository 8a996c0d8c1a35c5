-- ===== src/Tests/Resources.antt =====
-- The theorems on validation at concrete inputs.
use nauts.Base.{◌≡◌, ◌↔◌, none, some, [], ◌∷◌, In}
use nauts.Base.Text.{codes}
use nauts.ResourceValidator.{validate_resource}
use nauts.ResourceValidator.Grammar.{IsResource}
use nauts.ResourceValidator.Accepts.{validate_resource-none_iff}
use nauts.Validators.{PartialPolicy, validate_policy}
use nauts.Validators.Faults.{effect, error_at, HasFaultAt}
use nauts.Validators.Located.{In-validate_policy}

validate_resource-none_iff_example :
    (validate_resource (codes "nats:orders.>:workers") ≡ none)
    ↔ IsResource (codes "nats:orders.>:workers")
validate_resource-none_iff_example = validate_resource-none_iff (codes "nats:orders.>:workers")

-- Its second statement denies, and has no resources.
abbrev two_statements : PartialPolicy
two_statements = record {
  name = some (codes "readers");
  account = some (codes "ORDERS");
  statements = some (
      record {
        effect = some (codes "allow");
        actions = some (codes "nats.sub" ∷ []);
        resources = some (codes "nats:orders" ∷ []);
      }
      ∷ record {
        effect = some (codes "deny");
        actions = some (codes "nats.pub" ∷ []);
        resources = some [];
      }
      ∷ []);
}

In-validate_policy_example :
    In (error_at effect 1) (validate_policy two_statements)
    ↔ HasFaultAt two_statements.statements effect 1
In-validate_policy_example = In-validate_policy two_statements effect 1
