-- ===== src/KvKeys/RoundTrip.antt =====
-- Parsing the keys that the control plane makes.
use nauts.Base.{
  ℕ, ◌≡◌, ◌≢◌, ◌≤◌, ◌+◌, refl, sym, ap, ap₂, ◌∙◌, append-nil, true, false, some, [], ◌∷◌, ◌++◌,
  if◌then◌else◌, length, inl, inr, Option-cases, Bool-cases, arith, all,
}
use nauts.Base.Text.{
  Text, codes, ◌==◌, eq_iff, eq_refl, eq-false, has, count, count-append, count-cons_self,
  count_free,
}
use nauts.KvKeys.{
  star, global_prefix, policy_infix, binding_infix, account_part, policy_key, binding_key,
  parse_policy_key, parse_binding_key, match_key, is_line, to_policy_key, to_binding_key,
  is_line_terminator,
}
use nauts.KvKeys.Greedy.{Splits, match_key_last, match_key-none_iff}

append_prefix :
    (s t u v : Text)
    → s ++ u ≡ t ++ v
    → length s ≤ length t
    → (w : Text) × (t ≡ s ++ w) × (u ≡ w ++ v)
append_prefix [] t u v e l = (t, refl, e)
append_prefix (c ∷ s) [] u v e l = absurd (omega arith)
append_prefix (c ∷ s) (d ∷ t) u v e l =
    let (w, p, q) = append_prefix s t u v (cc e) (omega arith) in (w, cc, q)

append_cancel : (s t u : Text) → s ++ t ≡ s ++ u → t ≡ u
append_cancel [] t u e = e
append_cancel (c ∷ s) t u e = append_cancel s t u (cc e)

-- A separator that begins with `c` and holds it once more fits nowhere further right than before a
-- rest with no `c`.
no_later_place :
    (c : ℕ) (r w b id : Text)
    → count c r ≡ 1
    → has c id ≡ false
    → (c ∷ r) ++ id ≡ w ++ ((c ∷ r) ++ b)
    → w ≡ []
no_later_place c r [] b id h f e = refl
no_later_place c r (d ∷ w) b id h f e = absurd (
    omega (
      arith,
      ap (count c) (cut e),
      count-append c r id,
      count-append c w ((c ∷ r) ++ b),
      more,
      count_free c id f,
    ))
  where
    cut : (c ∷ r) ++ id ≡ (d ∷ w) ++ ((c ∷ r) ++ b) → r ++ id ≡ w ++ ((c ∷ r) ++ b)
    cut q = cc q

    more : count c ((c ∷ r) ++ b) ≡ 1 + (count c r + count c b)
    more = count-cons_self c (r ++ b) ∙ ap (λ n. 1 + n) (count-append c r b)

module _ (c : ℕ) (r : Text) (once : count c r ≡ 1) (line : is_line (c ∷ r) ≡ true) where
  match_key_of_free :
      (a id : Text)
      → Splits (c ∷ r) (a ++ ((c ∷ r) ++ id)) a id
      → has c id ≡ false
      → match_key (c ∷ r) (a ++ ((c ∷ r) ++ id)) ≡ some (a, id)
  match_key_of_free a id p f = elim (Option-cases (match_key (c ∷ r) (a ++ ((c ∷ r) ++ id)))) [
    | inl e ↦ absurd ((match_key-none_iff (c ∷ r) _ line).0 e a id p)
    | inr ((a', b'), e) ↦
        let (q, last) = match_key_last (c ∷ r) _ a' b' e in
        let (w, s, t) = append_prefix a a' _ _ q.whole (last a id p) in
        let n = no_later_place c r w b' id once f t in
        e
        ∙ ap₂ (λ x y. some (x, y)) (s ∙ ap (λ v. a ++ v) n ∙ append-nil a)
            (sym (append_cancel (c ∷ r) id b' (t ∙ ap (λ v. v ++ ((c ∷ r) ++ b')) n)))
  ]

abbrev dot : ℕ
dot = b'.'

-- What a group of the key expressions can match.
pub record IsName (s : Text) : Type 0 where
  pub full : s ≢ []
  pub line : is_line s ≡ true

-- A name that stands between two dots.
pub record IsSegment (s : Text) : Type 0 where
  pub name : IsName s
  pub open name use *
  pub undotted : has b'.' s ≡ false

Splits-of_names : (sep a b : Text) → IsName a → IsName b → Splits sep (a ++ (sep ++ b)) a b
Splits-of_names sep a b n m = record {
  whole = refl;
  first = n.full;
  second = m.full;
  first_line = n.line;
  second_line = m.line;
}

global_prefix-IsName : IsName global_prefix
unfolding is_line is_line_terminator all
global_prefix-IsName = record { full = λ e. cc; line = refl }

account_part-IsName : (account : Text) → IsName account → IsName (account_part account)
unfolding account_part
account_part-IsName account n = elim (Bool-cases (account == star)) [
  | inl e ↦ rw e global_prefix-IsName
  | inr e ↦ rw e n
]

-- The account that a policy key shows: the reserved name stands for the global account.
abbrev pub shown : Text → Text
shown account = if account_part account == global_prefix then star else account_part account

match-policy_key :
    (account id : Text)
    → IsName account
    → IsSegment id
    → match_key policy_infix (policy_key account id) ≡ some (account_part account, id)
unfolding policy_key
match-policy_key account id n m =
    match_key_of_free dot _ policy_once policy_line (account_part account) id
      (Splits-of_names policy_infix _ id (account_part-IsName account n) m.name) m.undotted
  where
    policy_once : count dot (codes "policy.") ≡ 1
    policy_once = unfold count in refl

    policy_line : is_line policy_infix ≡ true
    policy_line = unfold is_line is_line_terminator all in refl

-- A policy key with a nonempty account and a nonempty, undotted policy ID, on one line, parses to
-- that ID and to the account, and to the global account if the account is "*" or "_global".
pub parse-policy_key :
    (account id : Text)
    → IsName account
    → IsSegment id
    → parse_policy_key (policy_key account id)
      ≡ some (record { account = if account == global_prefix then star else account; id = id })
unfolding parse_policy_key
parse-policy_key account id n m =
    ap to_policy_key (match-policy_key account id n m)
    ∙ unfold to_policy_key in ap (λ a. some (record { account = a; id = id })) (shown_lem account)
  where
    shown_lem : (a : Text) → shown a ≡ (if a == global_prefix then star else a)
    shown_lem a =
        unfold account_part in
        ground (arith, eq_iff a star, eq_iff a global_prefix, eq_refl global_prefix)

match-binding_key :
    (account role : Text)
    → IsName account
    → IsSegment role
    → match_key binding_infix (account ++ (binding_infix ++ role)) ≡ some (account, role)
match-binding_key account role n m =
    match_key_of_free dot _ binding_once binding_line account role
      (Splits-of_names binding_infix account role n m.name) m.undotted
  where
    binding_once : count dot (codes "binding.") ≡ 1
    binding_once = unfold count in refl

    binding_line : is_line binding_infix ≡ true
    binding_line = unfold is_line is_line_terminator all in refl

-- The key of a binding parses to its account and role, where both are nonempty and on one line, the
-- role holds no dot and the account is not "*".
pub parse-binding_key :
    (account role : Text)
    → IsName account
    → IsSegment role
    → account ≢ star
    → (key : Text) × (binding_key account role ≡ some key)
      × (parse_binding_key key ≡ some (record { account = account; role = role }))
unfolding binding_key parse_binding_key
parse-binding_key account role n m h = (
  account ++ (binding_infix ++ role),
  rw (eq-false account star h),
  ap to_binding_key (match-binding_key account role n m) ∙ unfold to_binding_key in refl,
)
