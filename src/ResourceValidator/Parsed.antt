-- ===== src/ResourceValidator/Parsed.antt =====
-- The checks of a resource that has been split into its parts.
use nauts.Base.{
  ◌≡◌, ◌≢◌, ◌↔◌, inl, inr, refl, sym, ◌∙◌, Bool, true, false, Option, none, some, List, [], ◌∷◌,
  if◌then◌else◌, Bool-cases, arith, any,
}
use nauts.Base.Text.{is_empty, Text, codes, ◌==◌, eq_iff}
use nauts.ResourceValidator.{
  ParsedResource, parsed_of, is_empty_part, validate_parsed, unknown_type,
}
use nauts.ResourceValidator.Grammar.{
  Kind, nats, js, kv, tag, identifier_gt, sub_identifier_gt, IsWild,
}
use nauts.ResourceValidator.Wildcards.{validate_kind, validate_kind-none_iff, IsWildIfGiven}

abbrev pub is_known : Text → Bool
is_known t = any (λ u. u == t) (codes "nats" ∷ codes "js" ∷ codes "kv" ∷ [])

pub known_kind : (t : Text) → is_known t ≡ true → (k : Kind) × (t ≡ tag k)
unfolding any
known_kind t h = elim (Bool-cases (codes "nats" == t)) [
  | inl e ↦ (nats, sym ((eq_iff _ t).0 e))
  | inr e ↦ elim (Bool-cases (codes "js" == t)) [
    | inl f ↦ (js, sym ((eq_iff _ t).0 f))
    | inr f ↦ (kv, sym ((eq_iff _ t).0 (ground arith)))
  ]
]

-- With a known type, the checks are that no part is empty and those of the type.
validate_parsed_known :
    (k : Kind) (a : Text) (b : Option Text)
    → validate_parsed (record { type = tag k; identifier = a; sub_identifier = b }) ≡ (
        if is_empty a
        then some (codes "Empty identifier")
        else if is_empty_part b
        then some (codes "Empty sub-identifier")
        else validate_kind k a b)
unfolding validate_parsed any ◌==◌
validate_parsed_known nats a b = refl
validate_parsed_known js a b = refl
validate_parsed_known kv a b = refl

pub validate_parsed_unknown :
    (p : ParsedResource) → is_known p.type ≡ false → validate_parsed p ≢ none
unfolding validate_parsed unknown_type
validate_parsed_unknown p h e = cc (rw h at e)

abbrev pub rendered : ParsedResource → List Text
rendered p = elim p.sub_identifier [
  | none ↦ p.type ∷ p.identifier ∷ []
  | some c ↦ p.type ∷ p.identifier ∷ c ∷ []
]

pub parsed_of_sound :
    (ts : List Text) (p : ParsedResource) → parsed_of ts ≡ some p → ts ≡ rendered p
parsed_of_sound [] p h = cc
parsed_of_sound (a ∷ []) p h = cc
parsed_of_sound (a ∷ b ∷ []) p h = ground arith
parsed_of_sound (a ∷ b ∷ c ∷ []) p h = ground arith
parsed_of_sound (a ∷ b ∷ c ∷ d ∷ ts) p h = cc

pub full_iff : (s : Text) → (is_empty s ≡ false) ↔ (s ≢ [])
full_iff [] = (λ h. absurd (cc h), λ h. absurd (h refl))
full_iff (c ∷ s) = (λ h e. cc, λ h. refl)

-- What a resource that has parsed must meet.
pub record IsGood (k : Kind) (a : Text) (b : Option Text) : Type 0 where
  pub full : is_empty a ≡ false
  pub full_part : is_empty_part b ≡ false
  pub wild : IsWild (identifier_gt k) a
  pub wild_part : IsWildIfGiven (sub_identifier_gt k) b

pub validate_parsed-none_iff :
    (k : Kind) (a : Text) (b : Option Text)
    → (validate_parsed (record { type = tag k; identifier = a; sub_identifier = b }) ≡ none)
      ↔ IsGood k a b
validate_parsed-none_iff k a b =
    (λ h. good (sym (validate_parsed_known k a b) ∙ h), λ g. validate_parsed_known k a b ∙ bad g)
  where
    w :
        (validate_kind k a b ≡ none)
        ↔ (IsWild (identifier_gt k) a × IsWildIfGiven (sub_identifier_gt k) b)
    w = validate_kind-none_iff k a b

    good :
        (if is_empty a
            then some (codes "Empty identifier")
            else if is_empty_part b
            then some (codes "Empty sub-identifier")
            else validate_kind k a b)
          ≡ none
        → IsGood k a b
    good h = elim (Bool-cases (is_empty a)) [
      | inl e ↦ absurd (cc (rw e at h))
      | inr e ↦ elim (Bool-cases (is_empty_part b)) [
        | inl f ↦ absurd (cc (rw (e, f) at h))
        | inr f ↦
            let v = w.0 (rw (e, f) at h) in
            record { full = e; full_part = f; wild = v.0; wild_part = v.1 }
      ]
    ]

    bad :
        IsGood k a b
        → (if is_empty a
            then some (codes "Empty identifier")
            else if is_empty_part b
            then some (codes "Empty sub-identifier")
            else validate_kind k a b)
          ≡ none
    bad g = rw (g.full, g.full_part) (w.1 (g.wild, g.wild_part))
