-- ===== src/Simulator/Roles.antt =====
-- The roles that are chosen as texts.
use nauts.Base.{◌≡◌, ◌↔◌, refl, sym, ap, ◌∙◌, false, some, List, [], ◌∷◌, All}
use nauts.Base.Text.{Text, has, split, split-append, split_free, split-ne-nil, split-All_free}
use nauts.Models.{BindingEntry}
use nauts.Simulator.{role_of_parts, parse_role, role_text}

-- With an account that holds no dot, the text of a role is parsed back to the account and the role
-- exactly if the role holds no dot.
pub parse_role-role_text :
    (e : BindingEntry)
    → has b'.' e.binding.account ≡ false
    → (parse_role (role_text e) ≡ (e.binding.account, some e.binding.role))
      ↔ (has b'.' e.binding.role ≡ false)
unfolding parse_role role_text
parse_role-role_text e h =
    let parts = split-append b'.' e.binding.account e.binding.role h in
    (
      λ q.
          first_free (split b'.' e.binding.role) (split-All_free b'.' e.binding.role)
            (split-ne-nil b'.' e.binding.role) (ap role_of_parts (sym parts) ∙ q),
      λ f.
          ap role_of_parts
            (parts ∙ ap (λ ts. e.binding.account ∷ ts) (split_free b'.' e.binding.role f))
          ∙ unfold role_of_parts in refl,
    )
  where
    first_free :
        (ts : List Text)
        → All (λ t. has b'.' t ≡ false) ts
        → (ts ≡ [] → ⊥)
        → role_of_parts (e.binding.account ∷ ts) ≡ (e.binding.account, some e.binding.role)
        → has b'.' e.binding.role ≡ false
    first_free [] a n q = absurd (n refl)
    first_free (t ∷ ts) a n q =
        let same : some t ≡ some e.binding.role = unfold role_of_parts in ap (λ r. r.1) q in
        ap (has b'.') (sym (cc same)) ∙ a.0
