-- ===== src/PolicyDetails/Mismatch.antt =====
-- The warning of the details of a policy whose value does not match its key.
use nauts.Base.{
  Option, if◌then◌else◌, ap₂, none, ◌++◌, sym, ap, Bool-cases, inl, inr, ◌≡◌, refl, ◌∙◌, Bool, true,
  false, not, ◌||◌, ◌&&◌, some, is_nonempty,
}
use nauts.Base.Text.{Text, codes, eq_refl, ◌==◌, is_empty}
use nauts.KvKeys.{global_prefix}
use nauts.Models.{PolicyEntry}
use nauts.BindingDetails.Mismatch.{join_two}
use nauts.PolicyDetails.{
  PolicyDetails, has_policy_key_mismatch, get_policy_mismatch_message, mismatch_warning,
  policy_mismatch,
}
use nauts.BindingDetails.{join_messages}

mismatch_tests : (g a i : Bool) → (not a || not i) ≡ (((not a && not g) || not i) || (g && (not a)))
mismatch_tests true true true = refl
mismatch_tests true true false = refl
mismatch_tests true false true = refl
mismatch_tests true false false = refl
mismatch_tests false true true = refl
mismatch_tests false true false = refl
mismatch_tests false false true = refl
mismatch_tests false false false = refl

-- A message is there for a mismatch, or for a global policy under another account.
is_nonempty-get_policy_mismatch_message :
    (d : PolicyDetails) (e : PolicyEntry)
    → d.entry ≡ some e
    → is_empty d.current_account ≡ false
    → is_empty d.current_policy_id ≡ false
    → is_nonempty (get_policy_mismatch_message d) ≡ (
        has_policy_key_mismatch d
        || ((e.policy.account == global_prefix) && not (e.policy.account == d.current_account)))
unfolding get_policy_mismatch_message has_policy_key_mismatch
is_nonempty-get_policy_mismatch_message d e h a i =
    rw (h, a, i)
      (join_two _ _ (not (e.policy.account == d.current_account))
          (not (e.policy.id == d.current_policy_id)) refl refl
        ∙ mismatch_tests (e.policy.account == global_prefix) (e.policy.account == d.current_account)
            (e.policy.id == d.current_policy_id))

-- A mismatch of a global policy is one of its ID.
global_mismatch :
    (d : PolicyDetails) (e : PolicyEntry)
    → d.entry ≡ some e
    → is_empty d.current_account ≡ false
    → is_empty d.current_policy_id ≡ false
    → e.policy.account ≡ global_prefix
    → has_policy_key_mismatch d ≡ not (e.policy.id == d.current_policy_id)
unfolding has_policy_key_mismatch
global_mismatch d e h a i g =
    let q : (e.policy.account == global_prefix) ≡ true =
      ap (λ x. x == global_prefix) g ∙ eq_refl global_prefix in
    rw (h, a, i) (marks _ _ q)
  where
    marks :
        (x y : Bool)
        → (e.policy.account == global_prefix) ≡ true
        → ((not x && not (e.policy.account == global_prefix)) || not y) ≡ not y
    marks true y q = refl
    marks false y q = rw q refl

warned :
    (d : PolicyDetails) (b : Bool)
    → has_policy_key_mismatch d ≡ b
    → mismatch_warning d ≡ (if b then some (get_policy_mismatch_message d) else none)
unfolding mismatch_warning
warned d b h = rw h refl

-- With a policy shown under an account and an ID that are not empty, a warning that the details show
-- is no empty text; for a global policy shown under another account they show none under its own ID,
-- though there is a text for the account, and under another ID the warning holds that text too.
pub mismatch_warning_lem :
    (d : PolicyDetails) (e : PolicyEntry)
    → d.entry ≡ some e
    → is_empty d.current_account ≡ false
    → is_empty d.current_policy_id ≡ false
    → ((t : Text) → mismatch_warning d ≡ some t → is_nonempty t ≡ true)
      × (e.policy.account ≡ global_prefix
          → (e.policy.account == d.current_account) ≡ false
          → ((e.policy.id == d.current_policy_id) ≡ true
              → (mismatch_warning d ≡ none) × (is_nonempty (get_policy_mismatch_message d) ≡ true))
            × ((e.policy.id == d.current_policy_id) ≡ false
                → mismatch_warning d
                  ≡ some (
                      join_messages (
                        policy_mismatch (codes "Account") global_prefix d.current_account
                        ++ policy_mismatch (codes "ID") e.policy.id d.current_policy_id))))
mismatch_warning_lem d e h a i = (
  λ t q. elim (Bool-cases (has_policy_key_mismatch d)) [
    | inl m ↦
        ap is_nonempty (sym (text_of t (sym (warned d true m) ∙ q)))
        ∙ message
        ∙ ap (λ b. b || apart) m
    | inr m ↦ absurd (cc (sym (warned d false m) ∙ q))
  ],
  λ g n. (
    λ s. (
      warned d false (global_mismatch d e h a i g ∙ ap not s),
      message
          ∙ ap₂ (λ x y. x || y) (global_mismatch d e h a i g ∙ ap not s)
              (ap₂ (λ x y. x && not y) (ap (λ x. x == global_prefix) g ∙ eq_refl global_prefix) n),
    ),
    λ s.
        warned d true (global_mismatch d e h a i g ∙ ap not s)
        ∙ ap some (
            unfold get_policy_mismatch_message in
            rw (h, a, i)
              (ap
                (λ x. join_messages (
                  policy_mismatch (codes "Account") x d.current_account
                  ++ policy_mismatch (codes "ID") e.policy.id d.current_policy_id))
                g)),
  ),
)
  where
    apart : Bool
    apart = (e.policy.account == global_prefix) && not (e.policy.account == d.current_account)

    message : is_nonempty (get_policy_mismatch_message d) ≡ (has_policy_key_mismatch d || apart)
    message = is_nonempty-get_policy_mismatch_message d e h a i

    text_of :
        (t : Text)
        → ◌≡◌ {A = Option Text} (some (get_policy_mismatch_message d)) (some t)
        → get_policy_mismatch_message d ≡ t
    text_of t q = cc q
