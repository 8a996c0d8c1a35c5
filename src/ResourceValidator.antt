-- ===== src/ResourceValidator.antt =====
-- The validator of resource names: ctrlp/src/app/validators/resource.validator.ts. A function that
-- returns `string | null` returns an `Option`; the messages are those of the source, all nonempty,
-- so a test `if (error)` is a test for `some`.
pub mod Placement
pub mod Grammar
pub mod Wildcards
pub mod Parsed
pub mod Accepts
pub mod Errors
use nauts.Base.{
  ℕ, ◌+◌, ◌-◌, ◌≡◌, Bool, true, false, not, ◌&&◌, ◌||◌, Option, none, some, List, [], ◌∷◌, ◌++◌,
  if◌then◌else◌, nat_eq, length, any,
}
use nauts.Base.Text.{is_empty, Text, codes, ◌==◌, includes, split, trim}
use nauts.Base.Dict
use nauts.Models.{Statement}
use nauts.Base.Dict.{Dict}

pub record ParsedResource : Type 0 where
  pub type : Text
  pub identifier : Text
  pub sub_identifier : Option Text

-- The loop over the tokens, at token `i` of `n`.
unfoldable pub check_tokens : ℕ → ℕ → List Text → Option Text
check_tokens i n [] = none
check_tokens i n (token ∷ tokens) =
    let rest = check_tokens (i + 1) n tokens in
    if token == codes ">"
    then (if nat_eq i (n - 1) then rest else some (codes "> wildcard must be the last token"))
    else if includes token (codes ">")
    then some (codes "> wildcard must be the entire token")
    else rest

unfoldable pub validate_gt_placement : Text → Option Text
unfolding check_tokens
validate_gt_placement value = let tokens = split b'.' value in check_tokens 0 (length tokens) tokens

unfoldable pub validate_wildcards : Text → Bool → Bool → Option Text
validate_wildcards value allow_star allow_gt =
    if includes value (codes "{{") && includes value (codes "}}")
    then none
    else if not allow_star && includes value (codes "*")
    then some (codes "* wildcard not allowed")
    else if not allow_gt && includes value (codes ">")
    then some (codes "> wildcard not allowed")
    else if includes value (codes ">")
    then validate_gt_placement value
    else none

-- `if (error) return "PREFIX" + error`, and else what follows.
abbrev pub or_else : Text → Option Text → Option Text → Option Text
or_else label none next = next
or_else label (some error) next = some (label ++ error)

-- The optional second part: a check of it is made if it is given and is not empty.
abbrev pub if_given : Option Text → (Text → Option Text) → Option Text
if_given none check = none
if_given (some []) check = none
if_given (some (c ∷ s)) check = check (c ∷ s)

unfoldable pub validate_nats_resource : Text → Option Text → Option Text
validate_nats_resource subject queue =
    or_else (codes "Invalid subject: ") (validate_wildcards subject true true) (
      if_given queue
        (λ q. or_else (codes "Invalid queue: ") (validate_wildcards q true false) none))

unfoldable pub validate_js_resource : Text → Option Text → Option Text
validate_js_resource stream consumer =
    or_else (codes "Invalid stream: ") (validate_wildcards stream true false) (
      if_given consumer
        (λ c. or_else (codes "Invalid consumer: ") (validate_wildcards c true false) none))

unfoldable pub validate_kv_resource : Text → Option Text → Option Text
validate_kv_resource bucket key =
    or_else (codes "Invalid bucket: ") (validate_wildcards bucket true false)
      (if_given key (λ k. or_else (codes "Invalid key: ") (validate_wildcards k true true) none))

-- The tests on the number of parts.
abbrev pub parsed_of : List Text → Option ParsedResource
parsed_of (a ∷ b ∷ []) = some (record { type = a; identifier = b; sub_identifier = none })
parsed_of (a ∷ b ∷ c ∷ []) = some (record { type = a; identifier = b; sub_identifier = some c })
parsed_of _ = none

unfoldable pub parse_resource : Text → Option ParsedResource
parse_resource resource = parsed_of (split b':' resource)

abbrev pub is_empty_part : Option Text → Bool
is_empty_part none = false
is_empty_part (some s) = is_empty s

unknown_type : Text → Option Text
unknown_type type = some (codes "Unknown resource type: " ++ type)

-- The checks of a resource name that has parsed.
unfoldable pub validate_parsed : ParsedResource → Option Text
unfolding unknown_type
validate_parsed p =
    if not (any (λ t. t == p.type) (codes "nats" ∷ codes "js" ∷ codes "kv" ∷ []))
    then unknown_type p.type
    else if is_empty p.identifier
    then some (codes "Empty identifier")
    else if is_empty_part p.sub_identifier
    then some (codes "Empty sub-identifier")
    else if p.type == codes "nats"
    then validate_nats_resource p.identifier p.sub_identifier
    else if p.type == codes "js"
    then validate_js_resource p.identifier p.sub_identifier
    else if p.type == codes "kv"
    then validate_kv_resource p.identifier p.sub_identifier
    else unknown_type p.type

unfoldable pub validate_resource : Text → Option Text
validate_resource resource =
    if is_empty resource || is_empty (trim resource)
    then some (codes "Empty resource")
    else elim (parse_resource resource) [
      | none ↦
          some (codes "Invalid resource format. Expected: <type>:<identifier>[:<sub-identifier>]")
      | some parsed ↦ validate_parsed parsed
    ]

-- The inner loop: the errors of a statement's resources are written into the map.
unfoldable pub collect_errors : List Text → Dict Text → Dict Text
collect_errors [] errors = errors
collect_errors (resource ∷ resources) errors =
    collect_errors resources (elim (validate_resource resource) [
      | none ↦ errors
      | some error ↦ Dict.set resource error errors
    ])

unfoldable pub collect_statements : List Statement → Dict Text → Dict Text
collect_statements [] errors = errors
collect_statements (statement ∷ rest) errors =
    collect_statements rest (collect_errors statement.resources errors)

-- The errors of the statements of a policy, by resource.
unfoldable pub validate_policy_resources : List Statement → Dict Text
unfolding collect_statements collect_errors
validate_policy_resources statements = collect_statements statements []
