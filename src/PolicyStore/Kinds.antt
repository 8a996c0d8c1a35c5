-- ===== src/PolicyStore/Kinds.antt =====
-- Which map an entry goes to, by its key.
use nauts.Base.{
  ◌≡◌, ◌≢◌, refl, sym, ap, ◌∙◌, true, false, Option, none, some, ◌++◌, append_assoc, is_some, arith,
}
use nauts.Base.Text.{Text, eq_iff}
use nauts.KvKeys.{
  star, policy_infix, binding_infix, policy_key, binding_key, parse_policy_key, parse_binding_key,
  match_key, to_policy_key,
}
use nauts.KvKeys.Greedy.{key_is_line, append-ne-nil, Splits, match_key-none_iff}
use nauts.KvKeys.RoundTrip.{IsName, IsSegment, parse-policy_key, parse-binding_key}
use nauts.KvKeys.Kinds.{infix_lines, parse_policy_key-binding_key}
use nauts.PolicyStore.{policy_kind, binding_kind, kind_of}

is_some-some {ℓ} : {A : Type ℓ} (o : Option A) (a : A) → o ≡ some a → is_some o ≡ true
is_some-some none a h = cc
is_some-some (some b) a h = refl

is_some-none {ℓ} : {A : Type ℓ} (o : Option A) → o ≡ none → is_some o ≡ false
is_some-none none h = refl
is_some-none (some b) h = cc

kind_of_policy : (key : Text) → is_some (parse_policy_key key) ≡ true → kind_of key ≡ policy_kind
unfolding kind_of
kind_of_policy key h = rw h

kind_of_binding :
    (key : Text)
    → is_some (parse_policy_key key) ≡ false
    → is_some (parse_binding_key key) ≡ true
    → kind_of key ≡ binding_kind
unfolding kind_of
kind_of_binding key h k = rw (h, k)

-- The key of a policy with an undotted ID is a policy's.
pub kind_of-policy_key :
    (account id : Text)
    → IsName account
    → IsSegment id
    → kind_of (policy_key account id) ≡ policy_kind
kind_of-policy_key account id n m =
    kind_of_policy (policy_key account id) (is_some-some _ _ (parse-policy_key account id n m))

-- The key of a binding with a nonempty, undotted account and role on one line is a binding's to the
-- store.
kind_of-binding_key :
    (account role key : Text)
    → IsSegment account
    → IsSegment role
    → binding_key account role ≡ some key
    → kind_of key ≡ binding_kind
kind_of-binding_key account role key n m h =
    kind_of_binding key
      (is_some-none (parse_policy_key key) (parse_policy_key-binding_key account role key n m h))
      (is_some-some (parse_binding_key key) _
        (parsed (parse-binding_key account role n.name m (unstarred h))))
  where
    unstarred : binding_key account role ≡ some key → account ≢ star
    unstarred q e = unfold binding_key in ground (arith, eq_iff account star)

    parsed :
        ((k : Text) × (binding_key account role ≡ some k)
          × (parse_binding_key k ≡ some (record { account = account; role = role })))
        → parse_binding_key key ≡ some (record { account = account; role = role })
    parsed (k, e, f) = ap parse_binding_key (cc (sym h ∙ e)) ∙ f

whole_key :
    (account role key : Text)
    → binding_key account role ≡ some key
    → key ≡ account ++ (binding_infix ++ role)
unfolding binding_key
whole_key account role key h = ground arith

-- A binding whose role holds ".policy." between two parts has a key that the store takes for a
-- policy's, where the account and both parts are nonempty and on one line.
pub kind_of-dotted_role :
    (account a b key : Text)
    → IsName account
    → IsName a
    → IsName b
    → binding_key account (a ++ (policy_infix ++ b)) ≡ some key
    → kind_of key ≡ policy_kind
kind_of-dotted_role account a b key n m o h =
    kind_of_policy key (found (match_key policy_infix key) refl)
  where
    front : Text
    front = account ++ (binding_infix ++ a)

    same : key ≡ front ++ (policy_infix ++ b)
    same =
        whole_key account (a ++ (policy_infix ++ b)) key h
        ∙ ap (λ t. account ++ t) (sym (append_assoc binding_infix a (policy_infix ++ b)))
        ∙ sym (append_assoc account (binding_infix ++ a) (policy_infix ++ b))

    place : Splits policy_infix key front b
    place = record {
      whole = same;
      first = append-ne-nil account (binding_infix ++ a) (append-ne-nil binding_infix a m.full);
      second = o.full;
      first_line = key_is_line binding_infix account a infix_lines.1 n.line m.line;
      second_line = o.line;
    }

    found :
        (r : Option (Text × Text))
        → match_key policy_infix key ≡ r
        → is_some (parse_policy_key key) ≡ true
    found none e = absurd ((match_key-none_iff policy_infix key infix_lines.0).0 e front b place)
    found (some (x, y)) e =
        unfold parse_policy_key in
        ap (λ q. is_some (to_policy_key q)) e ∙ unfold to_policy_key in refl
