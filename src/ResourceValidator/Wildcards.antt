-- ===== src/ResourceValidator/Wildcards.antt =====
-- The check of the wildcards of one part, and of the parts of each type of resource.
use nauts.Base.{
  ◌≡◌, ◌↔◌, ◌⊎◌, inl, inr, refl, Bool, true, false, Option, none, some, [], ◌∷◌, arith,
}
use nauts.Base.Text.{Text, codes, includes-eq-has, has}
use nauts.ResourceValidator.{
  validate_gt_placement, validate_wildcards, validate_nats_resource, validate_js_resource,
  validate_kv_resource, or_else, if_given,
}
use nauts.ResourceValidator.Placement.{validate_gt_placement-none_iff}
use nauts.ResourceValidator.Grammar.{
  Kind, nats, js, kv, identifier_gt, sub_identifier_gt, IsTemplate, IsWild,
}

passes :
    (v : Text) (gt : Bool)
    → IsTemplate v ⊎ (((gt ≡ true) ⊎ (has b'>' v ≡ false)) × (validate_gt_placement v ≡ none))
    → validate_wildcards v true gt ≡ none
unfolding validate_wildcards
passes v gt h = ground (arith, includes-eq-has b'>' v)

passed :
    (v : Text) (gt : Bool)
    → validate_wildcards v true gt ≡ none
    → IsTemplate v
      ⊎ (((gt ≡ true) ⊎ (has b'>' v ≡ false))
          × ((has b'>' v ≡ false) ⊎ (validate_gt_placement v ≡ none)))
unfolding validate_wildcards
passed v gt h = ground (arith, includes-eq-has b'>' v)

IsWild-of_passed :
    (v : Text) (gt : Bool)
    → IsTemplate v
      ⊎ (((gt ≡ true) ⊎ (has b'>' v ≡ false))
          × ((has b'>' v ≡ false) ⊎ (validate_gt_placement v ≡ none)))
    → IsWild gt v
IsWild-of_passed v gt (inl t) = inl t
IsWild-of_passed v gt (inr (a, inl f)) = inr (a, inl f)
IsWild-of_passed v gt (inr (a, inr e)) = inr (a, (validate_gt_placement-none_iff v).0 e)

placed : (v : Text) (gt : Bool) → IsWild gt v → validate_wildcards v true gt ≡ none
placed v gt (inl t) = passes v gt (inl t)
placed v gt (inr (a, t)) = passes v gt (inr (a, (validate_gt_placement-none_iff v).1 t))

-- With "*" allowed, the check of the wildcards passes exactly for the texts described by `IsWild`.
pub validate_wildcards-none_iff :
    (v : Text) (gt : Bool) → (validate_wildcards v true gt ≡ none) ↔ IsWild gt v
validate_wildcards-none_iff v gt = (λ h. IsWild-of_passed v gt (passed v gt h), placed v gt)

abbrev pub validate_kind : Kind → Text → Option Text → Option Text
validate_kind nats = validate_nats_resource
validate_kind js = validate_js_resource
validate_kind kv = validate_kv_resource

-- What holds of the sub-identifier, if there is one with a character.
abbrev pub IsWildIfGiven : Bool → Option Text → Type 0
IsWildIfGiven gt none = Unit
IsWildIfGiven gt (some []) = Unit
IsWildIfGiven gt (some (c ∷ s)) = IsWild gt (c ∷ s)

-- A label and a check before a check.
or_else-none_iff :
    (l : Text) (o p : Option Text) → (or_else l o p ≡ none) ↔ ((o ≡ none) × (p ≡ none))
or_else-none_iff l none p = (λ h. (refl, h), λ h. h.1)
or_else-none_iff l (some e) p = (λ h. absurd (cc h), λ h. absurd (cc h.0))

checks_iff :
    (l m : Text) (a : Text) (b : Option Text) (g h : Bool)
    → (or_else l
          (validate_wildcards a true g)
          (if_given b (λ v. or_else m (validate_wildcards v true h) none))
        ≡ none)
      ↔ (IsWild g a × IsWildIfGiven h b)
checks_iff l m a b g h =
    let w = validate_wildcards-none_iff a g in
    let o =
      or_else-none_iff l (validate_wildcards a true g)
        (if_given b (λ v. or_else m (validate_wildcards v true h) none)) in
    (λ e. (w.0 (o.0 e).0, (given b).0 (o.0 e).1), λ e. o.1 (w.1 e.0, (given b).1 e.1))
  where
    given :
        (c : Option Text)
        → (if_given c (λ v. or_else m (validate_wildcards v true h) none) ≡ none)
          ↔ IsWildIfGiven h c
    given none = (λ e. tt, λ e. refl)
    given (some []) = (λ e. tt, λ e. refl)
    given (some (c ∷ s)) =
        let w = validate_wildcards-none_iff (c ∷ s) h in
        let o = or_else-none_iff m (validate_wildcards (c ∷ s) true h) none in
        (λ e. w.0 (o.0 e).0, λ e. o.1 (w.1 e, refl))

-- For each type, the check of the parts passes exactly where the wildcards are those of the type.
pub validate_kind-none_iff :
    (k : Kind) (a : Text) (b : Option Text)
    → (validate_kind k a b ≡ none)
      ↔ (IsWild (identifier_gt k) a × IsWildIfGiven (sub_identifier_gt k) b)
unfolding validate_nats_resource validate_js_resource validate_kv_resource
validate_kind-none_iff nats a b =
    checks_iff (codes "Invalid subject: ") (codes "Invalid queue: ") a b true false
validate_kind-none_iff js a b =
    checks_iff (codes "Invalid stream: ") (codes "Invalid consumer: ") a b false false
validate_kind-none_iff kv a b =
    checks_iff (codes "Invalid bucket: ") (codes "Invalid key: ") a b false true
