-- ===== src/AccountService.antt =====
-- The accounts that the bucket names: ctrlp/src/app/services/account.service.ts.
-- A `Set` is a list in the order of
-- insertion.
pub mod Found
use nauts.Base.{
  ℕ, zero, suc, Bool, true, false, not, Option, none, some, List, [], ◌∷◌, ◌++◌, if◌then◌else◌, ltb,
  nat_eq, any,
}
use nauts.Base.Sort.{sort_by}
use nauts.Base.Text.{Text, codes, ◌==◌}
use nauts.Thrown.{Outcome, ok, throw, Exec, ◌>>=◌, ◌>>◌, pure}
use nauts.KvKeys.{star, account_from_key_prefix}
use nauts.KvStore.Client.{KvClient}

-- The default order of `Array.prototype.sort`: by the first code that differs.
unfoldable pub comes_before : Text → Text → Bool
comes_before s [] = false
comes_before [] (d ∷ t) = true
comes_before (c ∷ s) (d ∷ t) = let rest = comes_before s t in if nat_eq c d then rest else ltb c d

unfoldable pub sort_texts : List Text → List Text
unfolding comes_before
sort_texts ts = sort_by (λ a b. comes_before b a) ts

unfoldable pub add_to_set : Text → List Text → List Text
add_to_set a set = if any (λ b. b == a) set then set else set ++ a ∷ []

-- `key.substring(0, key.indexOf('.'))`, where there is a dot
unfoldable pub before_dot : Text → Option Text
before_dot [] = none
before_dot (c ∷ s) =
    let rest = before_dot s in
    if nat_eq c b'.' then some [] else elim rest [ none ↦ none | some p ↦ some (c ∷ p) ]

abbrev pub add_prefix : Option Text → List Text → List Text
add_prefix none set = set
add_prefix (some []) set = set
add_prefix (some (c ∷ p)) set =
    let account = account_from_key_prefix (c ∷ p) in
    if not (account == star) then add_to_set account set else set

unfoldable pub collect_accounts : List Text → List Text → List Text
collect_accounts [] set = set
collect_accounts (key ∷ keys) set = collect_accounts keys (add_prefix (before_dot key) set)

unfoldable pub accounts_of : List Text → List Text
unfolding collect_accounts sort_texts
accounts_of keys = sort_texts (collect_accounts keys [])

module _ {D B : Type 0} (kv : KvClient D B) where
  -- `discoverAccounts`; what it returns is also what subscribers are given.
  unfoldable pub discover_accounts : Exec B (List Text)
  unfolding accounts_of
  discover_accounts = do kv.get_kv_bucket; keys ← kv.keys (codes ">"); pure (accounts_of keys)
