-- ===== src/ResourceValidator/Errors.antt =====
-- The map of errors that `validatePolicyResources` collects.
use nauts.Base.{
  ◌≡◌, refl, ap, ◌∙◌, Bool, true, false, ◌||◌, Option, none, some, List, [], ◌∷◌, if◌then◌else◌,
  Bool-cases, inl, inr, any,
}
use nauts.Base.Text.{Text, ◌==◌, eq_iff}
use nauts.Base.Dict
use nauts.Base.Dict.{Dict}
use nauts.Base.Dict.Laws.{get-set}
use nauts.Models.{Statement}
use nauts.ResourceValidator.{
  validate_resource, collect_errors, collect_statements, validate_policy_resources,
}

-- The resource stands in some statement.
abbrev pub is_listed : Text → List Statement → Bool
is_listed r ss = any (λ s. any (λ t. t == r) s.resources) ss

abbrev over : Option Text → Option Text → Option Text
over none o = o
over (some e) o = some e

-- What the map shows of `r` once resources, `r` among them or not, have been looked at.
abbrev seen : Bool → Text → Dict Text → Option Text
seen hit r m = if hit then over (validate_resource r) (Dict.get r m) else Dict.get r m

over_idempotent : (v o : Option Text) → over v (over v o) ≡ over v o
over_idempotent none o = refl
over_idempotent (some e) o = refl

abbrev record_error : Text → Option Text → Dict Text → Dict Text
record_error t o m = elim o [ none ↦ m | some e ↦ Dict.set t e m ]

-- One round of the inner loop.
get-record_error :
    (r t : Text) (o : Option Text) (m : Dict Text)
    → validate_resource t ≡ o
    → Dict.get r (record_error t o m) ≡ seen (t == r) r m
get-record_error r t none m h = elim (Bool-cases (t == r)) [
  | inl e ↦ rw (e, ← (eq_iff t r).0 e, h)
  | inr e ↦ rw e
]
get-record_error r t (some v) m h =
    get-set t r v m
    ∙ elim (Bool-cases (t == r)) [ inl e ↦ rw (e, ← (eq_iff t r).0 e, h) | inr e ↦ rw e ]

seen_twice :
    (r : Text) (a b : Bool) (m n : Dict Text)
    → Dict.get r m ≡ seen a r n
    → seen b r m ≡ seen (a || b) r n
seen_twice r true true m n h =
    ap (over (validate_resource r)) h ∙ over_idempotent (validate_resource r) (Dict.get r n)
seen_twice r true false m n h = h
seen_twice r false true m n h = ap (over (validate_resource r)) h
seen_twice r false false m n h = h

get-collect_errors :
    (r : Text) (ts : List Text) (m : Dict Text)
    → Dict.get r (collect_errors ts m) ≡ seen (any (λ t. t == r) ts) r m
unfolding collect_errors any
get-collect_errors r [] m = refl
get-collect_errors r (t ∷ ts) m =
    get-collect_errors r ts (record_error t (validate_resource t) m)
    ∙ seen_twice r (t == r) (any (λ u. u == r) ts) _ m
        (get-record_error r t (validate_resource t) m refl)

get-collect_statements :
    (r : Text) (ss : List Statement) (m : Dict Text)
    → Dict.get r (collect_statements ss m) ≡ seen (is_listed r ss) r m
unfolding collect_statements any
get-collect_statements r [] m = refl
get-collect_statements r (s ∷ ss) m =
    get-collect_statements r ss (collect_errors s.resources m)
    ∙ seen_twice r (any (λ t. t == r) s.resources) (any (λ u. any (λ t. t == r) u.resources) ss)
        (collect_errors s.resources m) m (get-collect_errors r s.resources m)

over-none : (v : Option Text) → over v none ≡ v
over-none none = refl
over-none (some e) = refl

-- The map holds the error of every listed resource that has one, and nothing else.
pub get-validate_policy_resources :
    (r : Text) (ss : List Statement)
    → Dict.get r (validate_policy_resources ss)
      ≡ (if is_listed r ss then validate_resource r else none)
unfolding validate_policy_resources
get-validate_policy_resources r ss =
    get-collect_statements r ss [] ∙ elim (Bool-cases (is_listed r ss)) [
      | inl e ↦ rw e (unfold Dict.get in over-none (validate_resource r))
      | inr e ↦ rw e (unfold Dict.get in refl)
    ]
