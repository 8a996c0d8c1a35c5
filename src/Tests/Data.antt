-- ===== src/Tests/Data.antt =====
-- Names and records that the tests share.
use nauts.Base.{refl, [], ◌∷◌, all}
use nauts.Base.Text.{Text, codes, has}
use nauts.Models.{Statement, Policy, Binding}
use nauts.KvKeys.{is_line, is_line_terminator}
use nauts.KvKeys.RoundTrip.{IsName, IsSegment}

abbrev pub acme : Text
acme = codes "ACME"

abbrev pub reader_id : Text
reader_id = codes "7f3a"

abbrev pub reader_role : Text
reader_role = codes "reader"

pub acme-IsName : IsName acme
unfolding is_line is_line_terminator all
acme-IsName = record { full = λ e. cc; line = refl }

pub reader_id-IsSegment : IsSegment reader_id
unfolding is_line is_line_terminator all has
reader_id-IsSegment = record { name = record { full = λ e. cc; line = refl }; undotted = refl }

abbrev pub read_orders : Statement
read_orders = record {
  effect = codes "allow";
  actions = codes "nats.sub" ∷ [];
  resources = codes "nats:orders.>" ∷ codes "js:>" ∷ [];
}

abbrev pub reader : Policy
reader = record {
  id = reader_id;
  account = acme;
  name = codes "Reader";
  statements = read_orders ∷ [];
}

abbrev pub reader_binding : Binding
reader_binding = record { role = reader_role; account = acme; policies = reader_id ∷ [] }
