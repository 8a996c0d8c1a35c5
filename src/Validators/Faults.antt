-- ===== src/Validators/Faults.antt =====
-- The faults of a statement and the errors that tell of them, each with the index of the statement:
-- `validateStatement` of ctrlp/src/app/validators/policy.validator.ts.
use nauts.Base.{
  ℕ, ◌≡◌, ◌↔◌, refl, sym, ap, ◌∙◌, Bool, true, false, if◌then◌else◌, ltb, nat_eq, ◌||◌, Option,
  none, some, List, ◌++◌, length, get_elem?,
}
use mathlib.Core.List.{append_cancel_left, append_cancel_right}
use nauts.Base.Text.{Text, codes}
use nauts.Base.Decimal.{decimal, decimal-injective}
use nauts.Validators.{
  ValidationError, PartialStatement, is_none_or_empty, is_not_allow, statement_prefix,
}
use nauts.Validators.Laws.{IsNonempty, is_none_or_empty_iff, is_not_allow_iff}

-- The parts of a statement that can be at fault.
pub data Part : Type 0 where
  effect : Part
  actions : Part
  resources : Part

abbrev pub part_field : Part → Text
part_field effect = codes ".effect"
part_field actions = codes ".actions"
part_field resources = codes ".resources"

abbrev pub part_message : Part → Text
part_message effect = codes "Effect must be \"allow\""
part_message actions = codes "At least one action is required"
part_message resources = codes "At least one resource is required"

-- The error on a part of the statement at an index.
abbrev pub error_at : Part → ℕ → ValidationError
error_at a i = record { field = statement_prefix i ++ part_field a; message = part_message a }

-- What it is for a part of a statement to be at fault.
abbrev pub IsFaulty : Part → PartialStatement → Type 0
IsFaulty effect s = ¬ (s.effect ≡ some (codes "allow"))
IsFaulty actions s = ¬ IsNonempty s.actions
IsFaulty resources s = ¬ IsNonempty s.resources

-- There is a statement at the index, and the part of it is at fault.
abbrev pub HasFaultAt : Option (List PartialStatement) → Part → ℕ → Type 0
HasFaultAt none a i = ⊥
HasFaultAt (some ss) a i = (s : PartialStatement) × (get_elem? ss i ≡ some s) × IsFaulty a s

abbrev pub is_faulty : Part → PartialStatement → Bool
is_faulty effect s = is_not_allow s.effect
is_faulty actions s = is_none_or_empty s.actions
is_faulty resources s = is_none_or_empty s.resources

-- A test that fails exactly on what is right holds exactly on what is not.
true_iff : {P : Type 0} (b : Bool) → ((b ≡ false) ↔ P) → (b ≡ true) ↔ (¬ P)
true_iff true h = (λ e p. cc (h.1 p), λ n. refl)
true_iff false h = (λ e p. cc, λ n. absurd (n (h.0 refl)))

pub is_faulty_iff : (a : Part) (s : PartialStatement) → (is_faulty a s ≡ true) ↔ IsFaulty a s
is_faulty_iff effect s = true_iff (is_not_allow s.effect) (is_not_allow_iff s.effect)
is_faulty_iff actions s = true_iff (is_none_or_empty s.actions) (is_none_or_empty_iff s.actions)
is_faulty_iff resources s =
    true_iff (is_none_or_empty s.resources) (is_none_or_empty_iff s.resources)

-- Statements at different indices have different errors.
index-injective : (a : Part) (i j : ℕ) → (error_at a i).field ≡ (error_at a j).field → i ≡ j
index-injective a i j e = decimal-injective i j (
    append_cancel_left (codes "statements.") (decimal i) (decimal j)
      (append_cancel_right (statement_prefix i) (statement_prefix j) (part_field a) e))

-- The part that a message is about, which its length tells.
abbrev part_of : Text → Part
part_of m = if ltb (length m) 31 then effect else if ltb (length m) 33 then actions else resources

part_of-message : (a : Part) → part_of (part_message a) ≡ a
part_of-message effect = refl
part_of-message actions = refl
part_of-message resources = refl

part-injective : (a b : Part) → part_message a ≡ part_message b → a ≡ b
part-injective a b e = sym (part_of-message a) ∙ ap part_of e ∙ part_of-message b

pub error_at-injective : (a b : Part) (i j : ℕ) → error_at a i ≡ error_at b j → (a ≡ b) × (i ≡ j)
error_at-injective a b i j e =
    let p = part-injective a b (ap (λ (v : ValidationError). v.message) e) in
    (
      p,
      index-injective a i j (
          ap (λ (v : ValidationError). v.field) e
          ∙ ap (λ (c : Part). (error_at c j).field) (sym p)),
    )

-- The errors on the whole policy have messages of other lengths.
abbrev pub is_part : Text → Bool
is_part m = nat_eq (length m) 22 || nat_eq (length m) 31 || nat_eq (length m) 33

is_part-message : (a : Part) → is_part (part_message a) ≡ true
is_part-message effect = refl
is_part-message actions = refl
is_part-message resources = refl

pub not_at :
    (a : Part) (i : ℕ) (e : ValidationError) → is_part e.message ≡ false → ¬ (error_at a i ≡ e)
not_at a i e h q =
    cc (sym (is_part-message a) ∙ ap (λ (v : ValidationError). is_part v.message) q ∙ h)
