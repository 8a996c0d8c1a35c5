-- ===== src/KvKeys/Greedy.antt =====
-- What the expressions `^(.+)SEP(.+)$` of kv-keys.ts match: the last separator that leaves both
-- groups nonempty.
use nauts.Base.{
  ℕ, ◌≡◌, ◌≢◌, ◌⊎◌, ◌↔◌, ◌≤◌, refl, sym, ap, ◌∙◌, true, ◌&&◌, Option, none, some, [], ◌∷◌, ◌++◌,
  length, drop, drop-append, all, inl, inr, Option-cases, Bool-cases, arith,
}
use nauts.Base.Text.{Text, starts_with, starts_with-append, starts_with-drop}
use nauts.KvKeys.{nonempty, match_rest, prefer, match_greedy, is_line, on_lines, match_key}

nonempty_sound : (s b : Text) → nonempty s ≡ some b → (s ≡ b) × (b ≢ [])
unfolding nonempty
nonempty_sound [] b h = absurd (cc h)
nonempty_sound (c ∷ s) b h = (cc h, λ e. cc)

match_rest_sound : (sep s b : Text) → match_rest sep s ≡ some b → (s ≡ sep ++ b) × (b ≢ [])
unfolding match_rest
match_rest_sound sep s b h = elim (Bool-cases (starts_with s sep)) [
  | inl e ↦
      let (same, full) = nonempty_sound (drop (length sep) s) b (rw e at h) in
      (starts_with-drop s sep e ∙ ap (λ t. sep ++ t) same, full)
  | inr e ↦ absurd (cc (rw e at h))
]

match_rest_complete : (sep b : Text) → b ≢ [] → match_rest sep (sep ++ b) ≡ some b
unfolding match_rest
match_rest_complete sep [] h = absurd (h refl)
match_rest_complete sep (c ∷ b) h =
    rw (starts_with-append sep (c ∷ b), drop-append sep (c ∷ b)) (unfold nonempty in refl)

pub append-ne-nil : (s t : Text) → t ≢ [] → s ++ t ≢ []
append-ne-nil [] t h e = h e
append-ne-nil (c ∷ s) t h e = cc

prefer-some :
    (c : ℕ) (o : Option (Text × Text)) (r : Option Text) (a b : Text)
    → prefer c o r ≡ some (a, b)
    → ((t : Text) × (o ≡ some (t, b)) × (a ≡ c ∷ t)) ⊎ ((o ≡ none) × (a ≡ []) × (r ≡ some b))
unfolding prefer
prefer-some c (some (t, u)) r a b h = inl (t, ground arith, ground arith)
prefer-some c none (some u) a b h = inr (ground arith)
prefer-some c none none a b h = absurd (cc h)

prefer-ne-none :
    (c : ℕ) (o : Option (Text × Text)) (r : Option Text) (b : Text)
    → r ≡ some b
    → prefer c o r ≢ none
unfolding prefer
prefer-ne-none c (some t) r b e h = cc
prefer-ne-none c none (some u) b e h = cc
prefer-ne-none c none none b e h = cc

prefer-none : (c : ℕ) (o : Option (Text × Text)) (r : Option Text) → prefer c o r ≡ none → o ≡ none
unfolding prefer
prefer-none c (some t) r h = cc
prefer-none c none r h = refl

match_greedy_sound :
    (sep s a b : Text) → match_greedy sep s ≡ some (a, b) → (s ≡ a ++ (sep ++ b)) × (b ≢ [])
unfolding match_greedy
match_greedy_sound sep [] a b h = absurd (cc h)
match_greedy_sound sep (c ∷ s) a b h =
    elim (prefer-some c (match_greedy sep s) (match_rest sep (c ∷ s)) a b h) [
      | inl (t, e, q) ↦
          let (same, full) = match_greedy_sound sep s t b e in
          (ap (λ u. c ∷ u) same ∙ ap (λ u. u ++ (sep ++ b)) (sym q), full)
      | inr (e, q, r) ↦
          let (same, full) = match_rest_sound sep (c ∷ s) b r in
          (same ∙ ap (λ u. u ++ (sep ++ b)) (sym q), full)
    ]

-- No match means that no separator is followed by anything.
match_greedy-none :
    (sep s a b : Text) → match_greedy sep s ≡ none → s ≡ a ++ (sep ++ b) → b ≢ [] → ⊥
unfolding match_greedy
match_greedy-none sep [] a b h e f = append-ne-nil a (sep ++ b) (append-ne-nil sep b f) (sym e)
match_greedy-none sep (c ∷ s) [] b h e f =
    let found : match_rest sep (c ∷ s) ≡ some b =
      ap (match_rest sep) e ∙ match_rest_complete sep b f in
    prefer-ne-none c (match_greedy sep s) (match_rest sep (c ∷ s)) b found h
match_greedy-none sep (c ∷ s) (d ∷ a) b h e f =
    match_greedy-none sep s a b (prefer-none c (match_greedy sep s) _ h) (cc e) f

match_greedy_last :
    (sep s a b a' b' : Text)
    → match_greedy sep s ≡ some (a, b)
    → s ≡ a' ++ (sep ++ b')
    → b' ≢ []
    → length a' ≤ length a
unfolding match_greedy
match_greedy_last sep [] a b a' b' h e f = absurd (cc h)
match_greedy_last sep (c ∷ s) a b [] b' h e f = omega arith
match_greedy_last sep (c ∷ s) a b (d ∷ a') b' h e f =
    elim (prefer-some c (match_greedy sep s) (match_rest sep (c ∷ s)) a b h) [
      | inl (t, g, q) ↦
          let ih = match_greedy_last sep s t b a' b' g (cc e) f in omega (arith, ih, ap length q)
      | inr (g, q, r) ↦ absurd (match_greedy-none sep s a' b' g (cc e) f)
    ]

-- A place in the key where both groups can stand.
pub record Splits (sep key a b : Text) : Type 0 where
  pub whole : key ≡ a ++ (sep ++ b)
  pub first : a ≢ []
  pub second : b ≢ []
  pub first_line : is_line a ≡ true
  pub second_line : is_line b ≡ true

on_lines-some :
    (c : ℕ) (o : Option (Text × Text)) (a b : Text)
    → on_lines c o ≡ some (a, b)
    → (t : Text) × (o ≡ some (t, b)) × (a ≡ c ∷ t) × (is_line a ≡ true) × (is_line b ≡ true)
unfolding on_lines
on_lines-some c none a b h = absurd (cc h)
on_lines-some c (some (t, u)) a b h = (t, ground arith, ground arith, ground arith, ground arith)

match_key-Splits : (sep key a b : Text) → match_key sep key ≡ some (a, b) → Splits sep key a b
unfolding match_key
match_key-Splits sep [] a b h = absurd (cc h)
match_key-Splits sep (c ∷ s) a b h =
    let (t, g, q, l, m) = on_lines-some c (match_greedy sep s) a b h in
    let (same, full) = match_greedy_sound sep s t b g in
    record {
      whole = ap (λ u. c ∷ u) same ∙ ap (λ u. u ++ (sep ++ b)) (sym q);
      first = λ e. cc (sym q ∙ e);
      second = full;
      first_line = l;
      second_line = m;
    }

is_line-append : (s t : Text) → is_line (s ++ t) ≡ (is_line s && is_line t)
unfolding is_line all
is_line-append [] t = refl
is_line-append (c ∷ s) t = ground (arith, is_line-append s t)

pub key_is_line :
    (sep a b : Text)
    → is_line sep ≡ true
    → is_line a ≡ true
    → is_line b ≡ true
    → is_line (a ++ (sep ++ b)) ≡ true
key_is_line sep a b h k l = is_line-append a (sep ++ b) ∙ ground (arith, is_line-append sep b)

on_lines-ne-none :
    (sep : Text) (c : ℕ) (o : Option (Text × Text)) (t u : Text)
    → is_line ((c ∷ t) ++ (sep ++ u)) ≡ true
    → o ≡ some (t, u)
    → on_lines c o ≢ none
unfolding on_lines
on_lines-ne-none sep c none t u l e h = cc
on_lines-ne-none sep c (some (v, w)) t u l e h =
    ground (arith, is_line-append (c ∷ t) (sep ++ u), is_line-append sep u)

match_key-none :
    (sep key a b : Text) → is_line sep ≡ true → match_key sep key ≡ none → Splits sep key a b → ⊥
unfolding match_key
match_key-none sep [] a b l h p =
    append-ne-nil a (sep ++ b) (append-ne-nil sep b p.second) (sym p.whole)
match_key-none sep (c ∷ s) [] b l h p = p.first refl
match_key-none sep (c ∷ s) (d ∷ a) b l h p = elim (Option-cases (match_greedy sep s)) [
  | inl e ↦ match_greedy-none sep s a b e (cc p.whole) p.second
  | inr ((t, u), e) ↦
      let (same, full) = match_greedy_sound sep s t u e in
      let line : is_line (c ∷ s) ≡ true =
        ap is_line p.whole ∙ key_is_line sep (d ∷ a) b l p.first_line p.second_line in
      on_lines-ne-none sep c (match_greedy sep s) t u
        (ap is_line (ap (λ v. c ∷ v) (sym same)) ∙ line) e h
]

match_key-first_le :
    (sep key a b a' b' : Text)
    → match_key sep key ≡ some (a, b)
    → Splits sep key a' b'
    → length a' ≤ length a
unfolding match_key
match_key-first_le sep [] a b a' b' h p = absurd (cc h)
match_key-first_le sep (c ∷ s) a b [] b' h p = omega arith
match_key-first_le sep (c ∷ s) a b (d ∷ a') b' h p =
    let (t, g, q, l, m) = on_lines-some c (match_greedy sep s) a b h in
    omega (arith, ap length q, match_greedy_last sep s t b a' b' g (cc p.whole) p.second)

-- A match is a place where both groups can stand, and no such place lies further right.
pub match_key_last :
    (sep key a b : Text)
    → match_key sep key ≡ some (a, b)
    → Splits sep key a b × ((a' b' : Text) → Splits sep key a' b' → length a' ≤ length a)
match_key_last sep key a b h =
    (match_key-Splits sep key a b h, λ a' b' p. match_key-first_le sep key a b a' b' h p)

-- The key matches exactly when the groups can stand somewhere.
pub match_key-none_iff :
    (sep key : Text)
    → is_line sep ≡ true
    → (match_key sep key ≡ none) ↔ ((a b : Text) → ¬ Splits sep key a b)
match_key-none_iff sep key l =
    (λ h a b p. match_key-none sep key a b l h p, back (match_key sep key) refl)
  where
    back :
        (o : Option (Text × Text))
        → match_key sep key ≡ o
        → ((a b : Text) → ¬ Splits sep key a b)
        → match_key sep key ≡ none
    back none e h = e
    back (some (a, b)) e h = absurd (h a b (match_key-Splits sep key a b e))
