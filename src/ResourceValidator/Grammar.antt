-- ===== src/ResourceValidator/Grammar.antt =====
-- Resource names, described without the validator: "<type>:<identifier>[:<sub-identifier>]" with
-- the wildcards that each place allows.
use nauts.Base.{◌≡◌, ◌≢◌, ◌⊎◌, Bool, true, false, [], ◌∷◌, ◌++◌}
use nauts.Base.Text.{Text, codes, includes, has}
use nauts.ResourceValidator.Placement.{IsTerminal}

pub data Kind : Type 0 where
  nats js kv : Kind

abbrev pub tag : Kind → Text
tag nats = codes "nats"
tag js = codes "js"
tag kv = codes "kv"

-- Whether ">" may stand in the identifier: in subjects, not in the names of streams and buckets.
abbrev pub identifier_gt : Kind → Bool
identifier_gt nats = true
identifier_gt js = false
identifier_gt kv = false

-- Whether ">" may stand in the sub-identifier: in keys, not in the names of queues and consumers.
abbrev pub sub_identifier_gt : Kind → Bool
sub_identifier_gt nats = false
sub_identifier_gt js = false
sub_identifier_gt kv = true

-- A text with template variables is left unchecked until they are filled in.
abbrev pub IsTemplate : Text → Type 0
IsTemplate v = (includes v (codes "{{") ≡ true) × (includes v (codes "}}") ≡ true)

abbrev pub IsWild : Bool → Text → Type 0
IsWild gt v = IsTemplate v ⊎ (((gt ≡ true) ⊎ (has b'>' v ≡ false)) × IsTerminal v)

pub record IsPart (gt : Bool) (v : Text) : Type 0 where
  pub full : v ≢ []
  pub undivided : has b':' v ≡ false
  pub wild : IsWild gt v

pub data IsResource (r : Text) : Type 0 where
  whole : (k : Kind) (a : Text) → r ≡ tag k ++ b':' ∷ a → IsPart (identifier_gt k) a → IsResource r
  divided :
      (k : Kind) (a b : Text)
      → r ≡ tag k ++ b':' ∷ (a ++ b':' ∷ b)
      → IsPart (identifier_gt k) a
      → IsPart (sub_identifier_gt k) b
      → IsResource r
