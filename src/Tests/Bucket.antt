-- ===== src/Tests/Bucket.antt =====
-- A bucket in memory, which meets what the store relies on of a bucket.
use nauts.Base.{
  ℕ, suc, ◌+◌, ◌≡◌, refl, ◌∙◌, true, false, Option, none, some, [], map, nat_eq, if◌then◌else◌,
  arith,
}
use nauts.Base.Text.{Text, codes, ◌==◌, eq_iff, eq_refl, includes, starts_with}
use nauts.Base.Dict
use nauts.Base.Dict.{Dict}
use nauts.Base.Dict.Laws.{get-set}
use nauts.Models.{Policy, Binding}
use nauts.Thrown.{error, Outcome, ok, throw}
use nauts.KvStore.Client.{Operation, put, del, RawEntry, KvClient, Codec}
use nauts.KvStore.Bucket.{revision_of, is_live, Written, IsBucket}
use nauts.PolicyStore.{Casts}

-- The values of the tests; `mark` is what a deletion writes.
pub data Value : Type 0 where
  policy_value : Policy → Value
  binding_value : Binding → Value
  mark : Value

abbrev no_policy : Policy
no_policy = record { id = []; account = []; name = []; statements = [] }

abbrev no_binding : Binding
no_binding = record { role = []; account = []; policies = [] }

abbrev as_policy_or : Value → Policy
as_policy_or (policy_value p) = p
as_policy_or _ = no_policy

abbrev as_binding_or : Value → Binding
as_binding_or (binding_value b) = b
as_binding_or _ = no_binding

abbrev pub value_casts : Casts Value
value_casts = record {
  as_policy = as_policy_or;
  as_binding = as_binding_or;
  of_policy = policy_value;
  of_binding = binding_value;
  as_policy-of = λ p. refl;
  as_binding-of = λ b. refl;
}

abbrev pub value_codec : Codec Value Value
value_codec = record { encode = λ v. v; decode = some; decode-encode = λ v. refl }

pub record Memory : Type 0 where
  pub entries : Dict (RawEntry Value)
  pub last : ℕ

abbrev pub entry_at : Memory → Text → Option (RawEntry Value)
entry_at s key = Dict.get key s.entries

abbrev refusal : Text
refusal = codes "wrong last sequence: 7"

-- A write over revision `r` is later than that.
abbrev next : ℕ → Memory → ℕ
next r s = suc (s.last + r)

abbrev written : ℕ → Text → Value → Operation → Memory → Memory
written r key value operation s = record {
  entries =
      Dict.set key (record { key = key; value = value; operation = operation; revision = next r s })
        s.entries;
  last = next r s;
}

abbrev memory_put : Text → Value → Option ℕ → Memory → Outcome ℕ × Memory
memory_put key value none s = (ok (next 0 s), written 0 key value put s)
memory_put key value (some r) s =
    if nat_eq (revision_of (entry_at s key)) r
    then (ok (next r s), written r key value put s)
    else (throw (error refusal), s)

abbrev memory_create : Text → Value → Memory → Outcome ℕ × Memory
memory_create key value s =
    if is_live (entry_at s key)
    then (throw (error refusal), s)
    else (ok (next 0 s), written 0 key value put s)

abbrev memory_delete : Text → ℕ → Memory → Outcome Unit × Memory
memory_delete key r s =
    if nat_eq (revision_of (entry_at s key)) r
    then (ok tt, written r key mark del s)
    else (throw (error refusal), s)

abbrev pub memory : KvClient Value Memory
memory = record {
  get_kv_bucket = λ s. (ok tt, s);
  get = λ key s. (ok (entry_at s key), s);
  keys = λ pattern s. (ok (map (λ e. e.key) (Dict.values s.entries)), s);
  watch_initial = λ s. (ok (record { early = false; entries = Dict.values s.entries }), s);
  watch_start = λ s. (ok tt, s);
  put = memory_put;
  create = memory_create;
  delete = memory_delete;
}

swapped : (s t : Text) → (s == t) ≡ false → (t == s) ≡ false
swapped s t h = ground (arith, eq_iff s t, eq_iff t s)

written-Written :
    (r : ℕ) (s : Memory) (key : Text) (v : Value) (o : Operation)
    → Written memory entry_at s key v o (written r key v o s) (next r s)
written-Written r s key v o = record {
  here = get-set key key _ s.entries ∙ rw (eq_refl key) refl;
  elsewhere = λ j e. get-set key j _ s.entries ∙ rw (swapped j key e) refl;
}

refuses : includes refusal (codes "wrong last sequence") ≡ true
unfolding includes starts_with
refuses = refl

later : (r : ℕ) (s : Memory) → nat_eq (next r s) r ≡ false
later r s = ground arith

pub memory-IsBucket : IsBucket memory entry_at
memory-IsBucket = record {
  opens = λ s. refl;
  gets = λ s key. refl;
  put_stale =
      λ s key v r h. record { message = refusal; answered = rw h refl; wrong_sequence = refuses };
  put_fresh = λ s key v r h.
      (written r key v put s, next r s, rw h refl, written-Written r s key v put, later r s);
  create_taken =
      λ s key v h. record { message = refusal; answered = rw h refl; wrong_sequence = refuses };
  create_free =
      λ s key v h. (written 0 key v put s, next 0 s, rw h refl, written-Written 0 s key v put);
  delete_stale =
      λ s key r h. record { message = refusal; answered = rw h refl; wrong_sequence = refuses };
  delete_fresh = λ s key r h.
      (written r key mark del s, next r s, mark, rw h refl, written-Written r s key mark del);
}
