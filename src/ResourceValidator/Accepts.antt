-- ===== src/ResourceValidator/Accepts.antt =====
-- The validator accepts exactly the resource names of the grammar.
use nauts.Base.{
  ◌≡◌, ◌↔◌, inl, inr, refl, sym, ap, subst, ◌∙◌, false, ◌||◌, Option, none, some, [], ◌∷◌, ◌++◌,
  Bool-cases, Option-cases, All,
}
use nauts.Base.Text.{
  is_empty, Text, has, split, split_free, split-append, join, join-split, split-All_free, trim,
  trim_eq_nil_iff, is_space, Blank,
}
use nauts.ResourceValidator.{
  ParsedResource, parsed_of, parse_resource, validate_parsed, validate_resource,
}
use nauts.ResourceValidator.Grammar.{Kind, nats, js, kv, tag, IsResource, whole, divided}
use nauts.ResourceValidator.Parsed.{
  is_known, known_kind, validate_parsed_unknown, rendered, parsed_of_sound, full_iff, IsGood,
  validate_parsed-none_iff,
}

IsResource-of_good :
    (r : Text) (k : Kind) (a : Text) (b : Option Text)
    → r ≡ join b':' (rendered (record { type = tag k; identifier = a; sub_identifier = b }))
    → All
        (λ t. has b':' t ≡ false)
        (rendered (record { type = tag k; identifier = a; sub_identifier = b }))
    → IsGood k a b
    → IsResource r
unfolding join
IsResource-of_good r k a none e f g =
    whole k a e (record { full = (full_iff a).0 g.full; undivided = f.1.0; wild = g.wild })
IsResource-of_good r k a (some []) e f g = absurd (cc g.full_part)
IsResource-of_good r k a (some (c ∷ s)) e f g =
    divided k a (c ∷ s) e
      (record { full = (full_iff a).0 g.full; undivided = f.1.0; wild = g.wild })
      (record { full = λ q. cc; undivided = f.1.1.0; wild = g.wild_part })

abbrev retyped : ParsedResource → Text → ParsedResource
retyped p t = record p { type = t }

IsResource-of_parsed :
    (r : Text) (p : ParsedResource)
    → parse_resource r ≡ some p
    → validate_parsed p ≡ none
    → IsResource r
unfolding parse_resource
IsResource-of_parsed r p e h = elim (Bool-cases (is_known p.type)) [
  | inr u ↦ absurd (validate_parsed_unknown p u h)
  | inl u ↦
      let (k, same) = known_kind p.type u in
      let parts = parsed_of_sound (split b':' r) p e in
      let typed = ap (λ t. retyped p t) same in
      let listed = parts ∙ ap rendered typed in
      IsResource-of_good r k p.identifier p.sub_identifier
        (sym (join-split b':' r) ∙ ap (join b':') listed)
        (subst (All (λ t. has b':' t ≡ false)) listed (split-All_free b':' r))
        ((validate_parsed-none_iff k p.identifier p.sub_identifier).0
          (sym (ap validate_parsed typed) ∙ h))
]

tag_undivided : (k : Kind) → has b':' (tag k) ≡ false
unfolding has
tag_undivided nats = refl
tag_undivided js = refl
tag_undivided kv = refl

not_blank : (k : Kind) (s : Text) → is_empty (trim (tag k ++ s)) ≡ false
not_blank k s =
    (full_iff (trim (tag k ++ s))).1 (λ e. seen k s ((trim_eq_nil_iff (tag k ++ s)).0 e))
  where
    seen : (j : Kind) (t : Text) → Blank (tag j ++ t) → ⊥
    seen nats t h = unfold is_space in cc h.0
    seen js t h = unfold is_space in cc h.0
    seen kv t h = unfold is_space in cc h.0

validate_resource_filled :
    (r : Text) (p : ParsedResource)
    → is_empty r ≡ false
    → is_empty (trim r) ≡ false
    → parse_resource r ≡ some p
    → validate_resource r ≡ validate_parsed p
unfolding validate_resource
validate_resource_filled r p e f h = rw (e, f, h)

accepted :
    (k : Kind) (s a : Text) (b : Option Text)
    → split b':' (tag k ++ s)
      ≡ rendered (record { type = tag k; identifier = a; sub_identifier = b })
    → IsGood k a b
    → validate_resource (tag k ++ s) ≡ none
unfolding parse_resource
accepted k s a b e g =
    validate_resource_filled (tag k ++ s) _ (filled k s) (not_blank k s)
      (ap parsed_of e ∙ parsed_again a b)
    ∙ (validate_parsed-none_iff k a b).1 g
  where
    filled : (j : Kind) (t : Text) → is_empty (tag j ++ t) ≡ false
    filled nats t = refl
    filled js t = refl
    filled kv t = refl

    parsed_again :
        (c : Text) (d : Option Text)
        → parsed_of (rendered (record { type = tag k; identifier = c; sub_identifier = d }))
          ≡ some (record { type = tag k; identifier = c; sub_identifier = d })
    parsed_again c none = refl
    parsed_again c (some d) = refl

validate_resource_complete : (r : Text) → IsResource r → validate_resource r ≡ none
validate_resource_complete r (whole k a e part) =
    ap validate_resource e
    ∙ accepted k (b':' ∷ a) a none
        (split-append b':' (tag k) a (tag_undivided k)
          ∙ ap (λ ts. tag k ∷ ts) (split_free b':' a part.undivided))
        (record {
          full = (full_iff a).1 part.full;
          full_part = refl;
          wild = part.wild;
          wild_part = tt;
        })
validate_resource_complete r (divided k a [] e part part') = absurd (part'.full refl)
validate_resource_complete r (divided k a (c ∷ b) e part part') =
    ap validate_resource e
    ∙ accepted k (b':' ∷ (a ++ b':' ∷ (c ∷ b))) a (some (c ∷ b))
        (split-append b':' (tag k) (a ++ b':' ∷ (c ∷ b)) (tag_undivided k)
          ∙ ap (λ ts. tag k ∷ ts)
              (split-append b':' a (c ∷ b) part.undivided
                ∙ ap (λ ts. a ∷ ts) (split_free b':' (c ∷ b) part'.undivided)))
        (record {
          full = (full_iff a).1 part.full;
          full_part = refl;
          wild = part.wild;
          wild_part = part'.wild;
        })

validate_resource_sound : (r : Text) → validate_resource r ≡ none → IsResource r
unfolding validate_resource
validate_resource_sound r h = elim (Bool-cases (is_empty r || is_empty (trim r))) [
  | inl e ↦ absurd (cc (rw e at h))
  | inr e ↦ elim (Option-cases (parse_resource r)) [
    | inl m ↦ absurd (cc (rw (e, m) at h))
    | inr (p, m) ↦ IsResource-of_parsed r p m (rw (e, m) at h)
  ]
]

-- A resource name passes exactly when it is a type, an identifier and at most one sub-identifier,
-- none of them empty, each with the wildcards that its place allows or with template variables.
pub validate_resource-none_iff : (r : Text) → (validate_resource r ≡ none) ↔ IsResource r
validate_resource-none_iff r = (validate_resource_sound r, validate_resource_complete r)
