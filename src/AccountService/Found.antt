-- ===== src/AccountService/Found.antt =====
-- Which accounts are found.
use nauts.Base.{
  ℕ, ◌≡◌, ◌≢◌, ◌↔◌, ◌⊎◌, inl, inr, refl, sym, ap, subst, ◌∙◌, true, false, Option, none, some, List,
  [], ◌∷◌, ◌++◌, any, In, In-append, append-In, Bool-cases, Option-cases, arith, nat_eq, nat_eq_iff,
}
use nauts.Base.Sort.{In-sort_by}
use nauts.Base.Text.{Text, ◌==◌, eq_iff, has, has-nil}
use nauts.KvKeys.{star, account_from_key_prefix}
use nauts.PolicyStore.{includes_text}
use nauts.PolicyStore.Queries.{includes_text_iff}
use nauts.AccountService.{
  add_to_set, before_dot, add_prefix, collect_accounts, accounts_of, sort_texts, comes_before,
}

-- The key begins with a nonempty text and a dot, the first of the key, and the account is that of
-- the text.
pub record IsNamedBy (a key : Text) : Type 0 where
  pub prefix : Text
  pub rest : Text
  pub whole : key ≡ prefix ++ b'.' ∷ rest
  pub undotted : has b'.' prefix ≡ false
  pub full : prefix ≢ []
  pub account : a ≡ account_from_key_prefix prefix

-- The text before the first dot.
abbrev IsBeforeDot : Text → Text → Type 0
IsBeforeDot p key = (rest : Text) × (key ≡ p ++ b'.' ∷ rest) × (has b'.' p ≡ false)

at_dot : (c : ℕ) (s p : Text) → nat_eq c b'.' ≡ true → p ≡ [] → IsBeforeDot p (c ∷ s)
at_dot c s p d e = rw e (s, ap (λ x. x ∷ s) ((nat_eq_iff c b'.').0 d), has-nil b'.')

past_dot :
    (c : ℕ) (s p q : Text)
    → nat_eq c b'.' ≡ false
    → IsBeforeDot q s
    → p ≡ c ∷ q
    → IsBeforeDot p (c ∷ s)
past_dot c s p q d (rest, w, f) e = rw e (rest, ap (λ t. c ∷ t) w, unfold has in ground (arith, f))

before_dot-some : (key p : Text) → before_dot key ≡ some p → IsBeforeDot p key
unfolding before_dot
before_dot-some [] p h = absurd (cc h)
before_dot-some (c ∷ s) p h = elim (Bool-cases (nat_eq c b'.')) [
  | inl d ↦ at_dot c s p d (cc (rw d at h))
  | inr d ↦ elim (Option-cases (before_dot s)) [
    | inl e ↦ absurd (cc (rw (d, e) at h))
    | inr (q, e) ↦ past_dot c s p q d (before_dot-some s q e) (cc (rw (d, e) at h))
  ]
]

before_dot-append : (p rest : Text) → has b'.' p ≡ false → before_dot (p ++ b'.' ∷ rest) ≡ some p
unfolding before_dot has
before_dot-append [] rest h = refl
before_dot-append (c ∷ p) rest h = ground (arith, before_dot-append p rest)

pub In-add_to_set : (a b : Text) (set : List Text) → In a (add_to_set b set) ↔ (In a set ⊎ (a ≡ b))
unfolding add_to_set includes_text
In-add_to_set a b set = elim (Bool-cases (any (λ x. x == b) set)) [
  | inl e ↦ rw e (λ m. inl m, λ m. there ((includes_text_iff b set).0 e) m)
  | inr e ↦ rw e (λ m. last (In-append a set (b ∷ []) m), λ m. append-In a set (b ∷ []) (first m))
]
  where
    there : In b set → In a set ⊎ (a ≡ b) → In a set
    there n (inl m) = m
    there n (inr q) = rw q n

    last : In a set ⊎ In a (b ∷ []) → In a set ⊎ (a ≡ b)
    last (inl m) = inl m
    last (inr (inl q)) = inr q
    last (inr (inr m)) = absurd m

    first : In a set ⊎ (a ≡ b) → In a set ⊎ In a (b ∷ [])
    first (inl m) = inl m
    first (inr q) = inr (inl q)

-- What the prefix of a key adds to the set.
abbrev Gives : Option Text → Text → Type 0
Gives none a = ⊥
Gives (some []) a = ⊥
Gives (some (c ∷ p)) a = (a ≡ account_from_key_prefix (c ∷ p)) × (a ≢ star)

In-add_prefix :
    (a : Text) (o : Option Text) (set : List Text)
    → In a (add_prefix o set) ↔ (In a set ⊎ Gives o a)
In-add_prefix a none set = (λ m. inl m, λ m. elim m [ inl n ↦ n | inr n ↦ absurd n ])
In-add_prefix a (some []) set = (λ m. inl m, λ m. elim m [ inl n ↦ n | inr n ↦ absurd n ])
In-add_prefix a (some (c ∷ p)) set = elim (Bool-cases (account_from_key_prefix (c ∷ p) == star)) [
  | inl e ↦ rw e (λ m. inl m, λ m. kept e m)
  | inr e ↦
      rw e (λ m. added e ((In-add_to_set a _ set).0 m), λ m. (In-add_to_set a _ set).1 (dropped m))
]
  where
    kept :
        (account_from_key_prefix (c ∷ p) == star) ≡ true
        → In a set ⊎ Gives (some (c ∷ p)) a
        → In a set
    kept e (inl m) = m
    kept e (inr (q, n)) = absurd (n (q ∙ (eq_iff _ star).0 e))

    added :
        (account_from_key_prefix (c ∷ p) == star) ≡ false
        → In a set ⊎ (a ≡ account_from_key_prefix (c ∷ p))
        → In a set ⊎ Gives (some (c ∷ p)) a
    added e (inl m) = inl m
    added e (inr q) = inr (q, λ r. cc (sym ((eq_iff _ star).1 (sym q ∙ r)) ∙ e))

    dropped : In a set ⊎ Gives (some (c ∷ p)) a → In a set ⊎ (a ≡ account_from_key_prefix (c ∷ p))
    dropped (inl m) = inl m
    dropped (inr g) = inr g.0

Gives-iff : (a key : Text) → Gives (before_dot key) a ↔ ((a ≢ star) × IsNamedBy a key)
Gives-iff a key = (λ g. forth (before_dot key) refl g, λ m. back m.0 m.1)
  where
    forth : (o : Option Text) → before_dot key ≡ o → Gives o a → (a ≢ star) × IsNamedBy a key
    forth none e g = absurd g
    forth (some []) e g = absurd g
    forth (some (c ∷ p)) e (q, n) =
        let (rest, w, f) = before_dot-some key (c ∷ p) e in
        (
          n,
          record {
            prefix = c ∷ p;
            rest = rest;
            whole = w;
            undotted = f;
            full = λ r. cc;
            account = q;
          },
        )

    given : (p : Text) → p ≢ [] → a ≡ account_from_key_prefix p → a ≢ star → Gives (some p) a
    given [] n q m = absurd (n refl)
    given (c ∷ p) n q m = (q, m)

    back : a ≢ star → IsNamedBy a key → Gives (before_dot key) a
    back n m =
        subst (λ o. Gives o a)
          (sym (ap before_dot m.whole ∙ before_dot-append m.prefix m.rest m.undotted))
          (given m.prefix m.full m.account n)

In-collect_accounts :
    (a : Text) (keys set : List Text)
    → In a (collect_accounts keys set)
      ↔ (In a set ⊎ ((key : Text) × In key keys × Gives (before_dot key) a))
unfolding collect_accounts
In-collect_accounts a [] set = (λ m. inl m, λ m. none_left m)
  where
    none_left : In a set ⊎ ((key : Text) × ⊥ × Gives (before_dot key) a) → In a set
    none_left (inl m) = m
    none_left (inr (key, m, g)) = absurd m
In-collect_accounts a (k ∷ keys) set =
    let w = In-collect_accounts a keys (add_prefix (before_dot k) set) in
    let v = In-add_prefix a (before_dot k) set in (λ m. forth v.0 (w.0 m), λ m. w.1 (back v.1 m))
  where
    forth :
        (In a (add_prefix (before_dot k) set) → In a set ⊎ Gives (before_dot k) a)
        → In a (add_prefix (before_dot k) set)
          ⊎ ((key : Text) × In key keys × Gives (before_dot key) a)
        → In a set ⊎ ((key : Text) × In key (k ∷ keys) × Gives (before_dot key) a)
    forth f (inl m) = elim (f m) [ inl n ↦ inl n | inr g ↦ inr (k, inl refl, g) ]
    forth f (inr (key, m, g)) = inr (key, inr m, g)

    back :
        (In a set ⊎ Gives (before_dot k) a → In a (add_prefix (before_dot k) set))
        → In a set ⊎ ((key : Text) × In key (k ∷ keys) × Gives (before_dot key) a)
        → In a (add_prefix (before_dot k) set)
          ⊎ ((key : Text) × In key keys × Gives (before_dot key) a)
    back f (inl m) = inl (f (inl m))
    back f (inr (key, inl q, g)) = inl (f (inr (subst (λ j. Gives (before_dot j) a) q g)))
    back f (inr (key, inr m, g)) = inr (key, m, g)

-- The accounts that are found are exactly those that the keys of the bucket begin with, before their
-- first dot, without the global one.
In-accounts_of :
    (a : Text) (keys : List Text)
    → In a (accounts_of keys) ↔ ((a ≢ star) × ((key : Text) × In key keys × IsNamedBy a key))
unfolding accounts_of sort_texts
In-accounts_of a keys =
    let v = In-sort_by (λ x y. comes_before y x) a (collect_accounts keys []) in
    let w = In-collect_accounts a keys [] in
    (λ m. forth (w.0 (v.0 m)), λ m. v.1 (w.1 (inr (back m))))
  where
    forth :
        ⊥ ⊎ ((key : Text) × In key keys × Gives (before_dot key) a)
        → (a ≢ star) × ((key : Text) × In key keys × IsNamedBy a key)
    forth (inl m) = absurd m
    forth (inr (key, m, g)) = let (n, i) = (Gives-iff a key).0 g in (n, (key, m, i))

    back :
        (a ≢ star) × ((key : Text) × In key keys × IsNamedBy a key)
        → (key : Text) × In key keys × Gives (before_dot key) a
    back (n, (key, m, i)) = (key, m, (Gives-iff a key).1 (n, i))
