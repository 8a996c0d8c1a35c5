-- ===== src/BindingDetails/Shown.antt =====
-- Which policy an ID of a binding stands for.
use nauts.Base.{
  ◌≡◌, ◌↔◌, ◌⊎◌, refl, sym, ◌∙◌, Bool, true, Option, none, some, find, In, find-eq-some,
  find-eq-none, arith,
}
use nauts.Base.Text.{Text, eq_iff}
use nauts.Models.{PolicyEntry, BindingEntry}
use nauts.PolicyStore.{Store, list_all_policies}
use nauts.KvKeys.{global_prefix, strip_global_prefix}
use nauts.BindingDetails.{fits, get_policy_for_id}

-- The policy has the ID, and stands in the account or in the global one.
abbrev pub Fits : Text → Text → PolicyEntry → Type 0
Fits account id p =
    (p.policy.id ≡ id) × ((p.policy.account ≡ account) ⊎ (p.policy.account ≡ global_prefix))

pub fits_iff :
    (account id : Text) (p : PolicyEntry) → (fits account id p ≡ true) ↔ Fits account id p
unfolding fits
fits_iff account id p = (
  λ h. ground (
    arith,
    eq_iff p.policy.id id,
    eq_iff p.policy.account account,
    eq_iff p.policy.account global_prefix,
  ),
  λ h. ground (
    arith,
    eq_iff p.policy.id id,
    eq_iff p.policy.account account,
    eq_iff p.policy.account global_prefix,
  ),
)

-- An ID of a binding stands for a stored policy that has the ID without its marker and is in the
-- account of the binding or in the global one, and for nothing exactly if no stored policy is so.
get_policy_for_id-Fits :
    (e : BindingEntry) (id : Text) (s : Store)
    → ((p : PolicyEntry)
        → get_policy_for_id (some e) id s ≡ some p
        → In p (list_all_policies s) × Fits e.binding.account (strip_global_prefix id) p)
      × ((get_policy_for_id (some e) id s ≡ none) ↔ (
          (p : PolicyEntry)
          → In p (list_all_policies s)
          → ¬ Fits e.binding.account (strip_global_prefix id) p))
unfolding get_policy_for_id
get_policy_for_id-Fits e id s = (
  λ p h.
      let (m, f) = find-eq-some test (list_all_policies s) p h in
      (m, (fits_iff e.binding.account (strip_global_prefix id) p).0 f),
  (
    λ h p m f. cc (
        sym ((fits_iff e.binding.account (strip_global_prefix id) p).1 f)
        ∙ find-eq-none test (list_all_policies s) p h m),
    λ h. by (find test (list_all_policies s)) refl h,
  ),
)
  where
    test : PolicyEntry → Bool
    test = fits e.binding.account (strip_global_prefix id)

    by :
        (o : Option PolicyEntry)
        → find test (list_all_policies s) ≡ o
        → ((p : PolicyEntry)
            → In p (list_all_policies s)
            → ¬ Fits e.binding.account (strip_global_prefix id) p)
        → o ≡ none
    by none q h = refl
    by (some p) q h =
        let (m, f) = find-eq-some test (list_all_policies s) p q in
        absurd (h p m ((fits_iff e.binding.account (strip_global_prefix id) p).0 f))
