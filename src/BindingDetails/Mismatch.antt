-- ===== src/BindingDetails/Mismatch.antt =====
-- The warning of the details of a binding whose value does not match its key.
use nauts.Base.{
  if◌then◌else◌, ◌≡◌, refl, Bool, true, false, not, ◌||◌, Option, none, some, [], ◌∷◌, ◌++◌,
  Bool-cases, inl, inr, is_nonempty,
}
use nauts.Base.Text.{Text, ◌==◌, is_empty}
use nauts.Models.{BindingEntry}
use nauts.BindingDetails.{join_messages, has_key_mismatch, get_key_mismatch_message}

-- A message appears exactly for what differs, and the joined messages are empty only if there are none.
pub join_two :
    (a b : Text) (x y : Bool)
    → is_nonempty a ≡ true
    → is_nonempty b ≡ true
    → is_nonempty (join_messages ((if x then a ∷ [] else []) ++ (if y then b ∷ [] else [])))
      ≡ (x || y)
unfolding join_messages
join_two (c ∷ a) b true true h k = refl
join_two (c ∷ a) b true false h k = refl
join_two a (d ∷ b) false true h k = refl
join_two a b false false h k = refl
join_two [] b x y h k = cc
join_two a [] x y h k = cc

-- The details show a message exactly if they mark a mismatch.
is_nonempty-get_key_mismatch_message :
    (o : Option BindingEntry) (account role : Text)
    → is_nonempty (get_key_mismatch_message o account role) ≡ has_key_mismatch o account role
unfolding get_key_mismatch_message has_key_mismatch
is_nonempty-get_key_mismatch_message none account role = refl
is_nonempty-get_key_mismatch_message (some e) account role =
    elim (Bool-cases (is_empty account || is_empty role)) [
      | inl h ↦ rw h refl
      | inr h ↦ rw h (
          join_two _ _ (not (e.binding.account == account)) (not (e.binding.role == role)) refl
            refl)
    ]
