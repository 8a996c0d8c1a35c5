-- ===== src/KvKeys/Kinds.antt =====
-- Binding keys are told from policy keys, where the account and the last part hold no dot.
use nauts.Base.{ℕ, ◌≡◌, ◌≢◌, refl, ap, ◌∙◌, true, false, none, some, ◌∷◌, ◌++◌, arith, all}
use nauts.Base.Text.{
  Text, codes, has, count, count-append, count-cons_self, count_free, free_of_count, first_part,
}
use nauts.KvKeys.{
  policy_infix, binding_infix, binding_key, parse_policy_key, match_key, is_line, to_policy_key,
  is_line_terminator,
}
use nauts.KvKeys.Greedy.{match_key-none_iff}
use nauts.KvKeys.RoundTrip.{IsSegment}

-- Where both sides hold the first character of the separators equally often, the separators stand
-- at one place.
same_place :
    (c : ℕ) (r q a b s t : Text)
    → has c a ≡ false
    → has c b ≡ false
    → count c r ≡ 1
    → count c q ≡ 1
    → a ++ ((c ∷ r) ++ b) ≡ s ++ ((c ∷ q) ++ t)
    → r ++ b ≡ q ++ t
same_place c r q a b s t f g h k e =
    (first_part c a s (r ++ b) (q ++ t) f (free_of_count c s none_left) e).1
  where
    none_left : count c s ≡ 0
    none_left = omega (
      arith,
      ap (count c) e,
      count-append c a (c ∷ (r ++ b)),
      count-append c s (c ∷ (q ++ t)),
      count-cons_self c (r ++ b),
      count-cons_self c (q ++ t),
      count-append c r b,
      count-append c q t,
      count_free c a f,
      count_free c b g,
    )

-- A key over one separator matches the expression of no other, where its parts hold no dot.
match_key_other :
    (r q a b : Text)
    → has b'.' a ≡ false
    → has b'.' b ≡ false
    → count b'.' r ≡ 1
    → count b'.' q ≡ 1
    → is_line (b'.' ∷ q) ≡ true
    → ((t : Text) → r ++ b ≢ q ++ t)
    → match_key (b'.' ∷ q) (a ++ ((b'.' ∷ r) ++ b)) ≡ none
match_key_other r q a b f g h k l differ =
    (match_key-none_iff (b'.' ∷ q) _ l).1
      (λ s t p. differ t (same_place b'.' r q a b s t f g h k p.whole))

policy_once : count b'.' (codes "policy.") ≡ 1
unfolding count
policy_once = refl

binding_once : count b'.' (codes "binding.") ≡ 1
unfolding count
binding_once = refl

pub infix_lines : (is_line policy_infix ≡ true) × (is_line binding_infix ≡ true)
unfolding is_line is_line_terminator all
infix_lines = (refl, refl)

-- With an account and a role that hold no dot, a binding key is no policy key.
pub parse_policy_key-binding_key :
    (account role key : Text)
    → IsSegment account
    → IsSegment role
    → binding_key account role ≡ some key
    → parse_policy_key key ≡ none
unfolding parse_policy_key binding_key
parse_policy_key-binding_key account role key n m h =
    ap to_policy_key (
      ap (match_key policy_infix) same
      ∙ match_key_other (codes "binding.") (codes "policy.") account role n.undotted m.undotted
          binding_once policy_once infix_lines.0 (λ t e. ground arith))
    ∙ unfold to_policy_key in refl
  where
    same : key ≡ account ++ (binding_infix ++ role)
    same = ground arith
