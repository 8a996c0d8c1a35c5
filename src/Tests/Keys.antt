-- ===== src/Tests/Keys.antt =====
-- The theorems on keys at concrete inputs.
use nauts.Base.{◌≡◌, refl, some, ◌++◌, all, if◌then◌else◌}
use nauts.Base.Text.{codes, ◌==◌}
use nauts.KvKeys.{
  star, global_prefix, policy_infix, policy_key, binding_key, parse_policy_key, is_line,
  is_line_terminator,
}
use nauts.KvKeys.RoundTrip.{IsName, parse-policy_key}
use nauts.PolicyStore.{policy_kind, kind_of}
use nauts.PolicyStore.Kinds.{kind_of-dotted_role}
use nauts.Tests.Data.{acme, reader_id, reader_role, acme-IsName, reader_id-IsSegment}

parse-policy_key_example :
    parse_policy_key (policy_key acme reader_id)
    ≡ some (record { account = if acme == global_prefix then star else acme; id = reader_id })
parse-policy_key_example = parse-policy_key acme reader_id acme-IsName reader_id-IsSegment

reader_key : binding_key acme reader_role ≡ some (codes "ACME.binding.reader")
unfolding binding_key ◌==◌
reader_key = refl

a-IsName : IsName (codes "a")
unfolding is_line is_line_terminator all
a-IsName = record { full = λ e. cc; line = refl }

dotted_key :
    binding_key acme (codes "a" ++ (policy_infix ++ codes "a"))
    ≡ some (codes "ACME.binding.a.policy.a")
unfolding binding_key ◌==◌
dotted_key = refl

kind_of-dotted_role_example : kind_of (codes "ACME.binding.a.policy.a") ≡ policy_kind
kind_of-dotted_role_example =
    kind_of-dotted_role acme (codes "a") (codes "a") (codes "ACME.binding.a.policy.a") acme-IsName
      a-IsName a-IsName dotted_key
