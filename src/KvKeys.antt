-- ===== src/KvKeys.antt =====
-- Keys of the KV bucket: ctrlp/src/app/services/kv-keys.ts. A function that throws returns an
-- `Option`, with `none` for the error. A regular expression match returns its two groups.
pub mod Greedy
pub mod RoundTrip
pub mod Kinds
pub mod Prefixes
use nauts.Base.{
  ℕ, ◌≡◌, Bool, Option, none, some, List, [], ◌∷◌, ◌++◌, ◌&&◌, ◌||◌, if◌then◌else◌, nat_eq, length,
  drop, all, not,
}
use nauts.Base.Text.{Text, codes, ◌==◌, starts_with}

abbrev pub star : Text
star = codes "*"

abbrev pub global_prefix : Text
global_prefix = codes "_global"

abbrev pub global_policy_prefix : Text
global_policy_prefix = codes "_global:"

unfoldable pub strip_global_prefix : Text → Text
strip_global_prefix policy_id =
    if starts_with policy_id global_policy_prefix
    then drop (length global_policy_prefix) policy_id
    else policy_id

unfoldable pub add_global_prefix : Text → Text
add_global_prefix policy_id = global_policy_prefix ++ policy_id

unfoldable pub has_global_prefix : Text → Bool
has_global_prefix policy_id = starts_with policy_id global_policy_prefix

abbrev pub policy_infix : Text
policy_infix = codes ".policy."

abbrev pub binding_infix : Text
binding_infix = codes ".binding."

-- The account part of a policy key.
unfoldable pub account_part : Text → Text
account_part account = if account == star then global_prefix else account

unfoldable pub policy_key : Text → Text → Text
unfolding account_part
policy_key account id = account_part account ++ (policy_infix ++ id)

unfoldable pub binding_key : Text → Text → Option Text
binding_key account role =
    if account == star then none else some (account ++ (binding_infix ++ role))

unfoldable pub policy_prefix : Text → Text
unfolding account_part
policy_prefix account = account_part account ++ policy_infix

unfoldable pub binding_prefix : Text → Option Text
binding_prefix account = if account == star then none else some (account ++ binding_infix)

-- The characters that `.` of a regular expression does not match.
unfoldable pub is_line_terminator : ℕ → Bool
is_line_terminator c = nat_eq c 10 || nat_eq c 13 || nat_eq c 0x2028 || nat_eq c 0x2029

-- `(.+)$` on what follows a separator
unfoldable pub nonempty : Text → Option Text
nonempty [] = none
nonempty (c ∷ s) = some (c ∷ s)

-- `SEP(.+)$` at the head of a text: the group
unfoldable pub match_rest : Text → Text → Option Text
match_rest sep s = if starts_with s sep then nonempty (drop (length sep) s) else none

unfoldable pub prefer : ℕ → Option (Text × Text) → Option Text → Option (Text × Text)
prefer c (some (a, b)) here = some (c ∷ a, b)
prefer c none (some b) = some ([], b)
prefer c none none = none

-- `^(.*)SEP(.+)$`, greedy: the last place where the separator fits is taken.
unfoldable pub match_greedy : Text → Text → Option (Text × Text)
match_greedy sep [] = none
match_greedy sep (c ∷ s) = prefer c (match_greedy sep s) (match_rest sep (c ∷ s))

-- What `.` matches throughout.
unfoldable pub is_line : Text → Bool
is_line s = all (λ d. not (is_line_terminator d)) s

unfoldable pub on_lines : ℕ → Option (Text × Text) → Option (Text × Text)
on_lines c none = none
on_lines c (some (a, b)) = if is_line (c ∷ a) && is_line b then some (c ∷ a, b) else none

-- `key.match(/^(.+)SEP(.+)$/)`: the first group takes one character, and then as many as it can.
unfoldable pub match_key : Text → Text → Option (Text × Text)
match_key sep [] = none
match_key sep (c ∷ s) = on_lines c (match_greedy sep s)

pub record PolicyKey : Type 0 where
  pub account : Text
  pub id : Text

pub record BindingKey : Type 0 where
  pub account : Text
  pub role : Text

unfoldable pub account_from_key_prefix : Text → Text
account_from_key_prefix key_prefix = if key_prefix == global_prefix then star else key_prefix

unfoldable pub to_policy_key : Option (Text × Text) → Option PolicyKey
to_policy_key none = none
to_policy_key (some (a, b)) =
    some (record { account = if a == global_prefix then star else a; id = b })

unfoldable pub parse_policy_key : Text → Option PolicyKey
parse_policy_key key = to_policy_key (match_key policy_infix key)

unfoldable pub to_binding_key : Option (Text × Text) → Option BindingKey
to_binding_key none = none
to_binding_key (some (a, b)) = some (record { account = a; role = b })

unfoldable pub parse_binding_key : Text → Option BindingKey
parse_binding_key key = to_binding_key (match_key binding_infix key)

unfoldable pub is_global_account : Text → Bool
is_global_account account = account == star
