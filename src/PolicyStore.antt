-- ===== src/PolicyStore.antt =====
-- The store of policies and bindings: ctrlp/src/app/services/policy-store.service.ts. A value that
-- the bucket holds becomes a policy or a binding by a cast that the code does not check; the casts
-- are arguments. A `BehaviorSubject` is its last value; `watching` says that the
-- watch runs.
pub mod Kinds
pub mod Tracking
pub mod Lookup
pub mod Writes
pub mod Queries
pub mod Loading
use nauts.Base.{
  ℕ, ◌≡◌, Bool, true, false, ◌||◌, Option, none, some, List, [], ◌∷◌, ◌++◌, if◌then◌else◌, is_some,
  filter, any,
}
use nauts.Base.Text.{Text, codes, ◌==◌}
use nauts.Base.Dict
use nauts.Base.Dict.{Dict}
use nauts.Models.{Policy, PolicyEntry, Binding, BindingEntry}
use nauts.Thrown.{Thrown, error, Outcome, ok, throw, Exec, ◌>>=◌, lift}
use nauts.KvStore
use nauts.KvStore.{KvEntry, KvEvent, put_event, del_event}
use nauts.KvStore.Client.{KvClient, Codec}
use nauts.KvKeys.{
  policy_key, binding_key, parse_policy_key, parse_binding_key, PolicyKey, BindingKey,
  global_policy_prefix, global_prefix,
}

pub record Store : Type 0 where
  pub policies_map : Dict PolicyEntry
  pub bindings_map : Dict BindingEntry
  pub policies_subject : List PolicyEntry
  pub bindings_subject : List BindingEntry
  pub initialized : Bool
  pub watching : Bool

abbrev pub empty : Store
empty = record {
  policies_map = [];
  bindings_map = [];
  policies_subject = [];
  bindings_subject = [];
  initialized = false;
  watching = false;
}

-- The casts between the values of the bucket and the records of the program.
pub record Casts (V : Type 0) : Type 0 where
  pub as_policy : V → Policy
  pub as_binding : V → Binding
  pub of_policy : Policy → V
  pub of_binding : Binding → V
  pub as_policy-of : (p : Policy) → as_policy (of_policy p) ≡ p
  pub as_binding-of : (b : Binding) → as_binding (of_binding b) ≡ b

unfoldable pub is_policy_key : Text → Bool
is_policy_key key = is_some (parse_policy_key key)

unfoldable pub is_binding_key : Text → Bool
is_binding_key key = is_some (parse_binding_key key)

-- A key that both expressions match is taken for a policy's.
pub data KeyKind : Type 0 where
  policy_kind binding_kind neither : KeyKind

unfoldable pub kind_of : Text → KeyKind
unfolding is_policy_key is_binding_key
kind_of key =
    if is_policy_key key then policy_kind else if is_binding_key key then binding_kind else neither

unfoldable pub emit_policies : Store → Store
emit_policies s = record s { policies_subject = Dict.values s.policies_map }

unfoldable pub emit_bindings : Store → Store
emit_bindings s = record s { bindings_subject = Dict.values s.bindings_map }

unfoldable pub emit_kind : KeyKind → Store → Store
unfolding emit_policies emit_bindings
emit_kind policy_kind s = emit_policies s
emit_kind binding_kind s = emit_bindings s
emit_kind neither s = s

unfoldable pub emit_all : Text → Store → Store
unfolding emit_kind
emit_all key s = emit_kind (kind_of key) s

unfoldable pub del_kind : KeyKind → Text → Store → Bool × Store
del_kind policy_kind key s = (true, record s { policies_map = Dict.delete key s.policies_map })
del_kind binding_kind key s = (true, record s { bindings_map = Dict.delete key s.bindings_map })
del_kind neither key s = (false, s)

unfoldable pub handle_del : Text → Store → Bool × Store
unfolding del_kind
handle_del key s = del_kind (kind_of key) key s

module _ {V : Type 0} (casts : Casts V) where
  unfoldable pub put_kind : KeyKind → Text → V → ℕ → Store → Bool × Store
  put_kind policy_kind key value revision s =
      let entry : PolicyEntry = record { policy = casts.as_policy value; revision = revision } in
      (true, record s { policies_map = Dict.set key entry s.policies_map })
  put_kind binding_kind key value revision s =
      let entry : BindingEntry = record { binding = casts.as_binding value; revision = revision } in
      (true, record s { bindings_map = Dict.set key entry s.bindings_map })
  put_kind neither key value revision s = (false, s)

  unfoldable pub handle_put : Text → V → ℕ → Store → Bool × Store
  unfolding put_kind
  handle_put key value revision s = put_kind (kind_of key) key value revision s

  -- The callback of the watch.
  unfoldable pub on_event : KvEvent V → Store → Store
  on_event (put_event e) s =
      let (handled, t) = handle_put e.key e.value e.revision s in
      if handled then emit_all e.key t else t
  on_event (del_event key revision) s =
      let (handled, t) = handle_del key s in if handled then emit_all key t else t

  unfoldable pub load : List (KvEntry V) → Store → Store
  load [] s = s
  load (e ∷ es) s = load es (handle_put e.key e.value e.revision s).1

  -- `initialize` from the entries that were read to the start of the watch.
  unfoldable pub after_load : List (KvEntry V) → Store → Store
  unfolding load emit_policies emit_bindings
  after_load entries s = emit_bindings (emit_policies (load entries s))

unfoldable pub list_policies : Text → Store → List PolicyEntry
list_policies account s = filter (λ e. e.policy.account == account) (Dict.values s.policies_map)

unfoldable pub list_global_policies : Store → List PolicyEntry
unfolding list_policies
list_global_policies s = list_policies global_prefix s

unfoldable pub list_all_policies : Store → List PolicyEntry
list_all_policies s = Dict.values s.policies_map

unfoldable pub get_policy : Text → Text → Store → Option PolicyEntry
get_policy account id s = Dict.get (policy_key account id) s.policies_map

-- `policies.includes(id)`
unfoldable pub includes_text : Text → List Text → Bool
includes_text t ts = any (λ u. u == t) ts

unfoldable pub get_bindings_for_policy : Text → Store → List BindingEntry
unfolding includes_text
get_bindings_for_policy policy_id s =
    filter
      (λ b.
        includes_text policy_id b.binding.policies
        || includes_text (global_policy_prefix ++ policy_id) b.binding.policies)
      (Dict.values s.bindings_map)

unfoldable pub list_bindings : Text → Store → List BindingEntry
list_bindings account s = filter (λ e. e.binding.account == account) (Dict.values s.bindings_map)

unfoldable pub list_all_bindings : Store → List BindingEntry
list_all_bindings s = Dict.values s.bindings_map

abbrev pub global_binding : Thrown
global_binding = error (codes "Bindings can not be global")

-- `bindingKey`, which throws for the account "*"
unfoldable pub binding_key_or_throw : Text → Text → Outcome Text
binding_key_or_throw account role = elim (binding_key account role) [
  | none ↦ throw global_binding
  | some key ↦ ok key
]

unfoldable pub get_binding : Text → Text → Store → Outcome (Option BindingEntry)
get_binding account role s = elim (binding_key_or_throw account role) [
  | throw e ↦ throw e
  | ok key ↦ ok (Dict.get key s.bindings_map)
]

-- `destroy` stops the watch and nothing else.
unfoldable pub destroy : Store → Store
destroy s = record s { watching = false }

-- The writes go to the bucket; the store hears of them by its watch. `uuid` is the answer of
-- `crypto.randomUUID`, which becomes the ID of the new policy.
module _ {V D B : Type 0} (casts : Casts V) (json : Codec V D) (kv : KvClient D B) where
  -- The end of `initialize`, by the outcome of starting the watch.
  unfoldable pub watch_begun : Outcome Unit → Store → Outcome Unit × Store
  watch_begun (ok u) s = (ok u, record s { watching = true; initialized = true })
  watch_begun (throw err) s = (throw err, s)

  unfoldable pub entries_listed :
      Outcome (List (KvEntry V)) → Store → B → (Outcome Unit × Store) × B
  unfolding watch_begun
  entries_listed (throw err) s b = ((throw err, s), b)
  entries_listed (ok entries) s b =
      let (r, c) = KvStore.begin_watch kv b in (watch_begun r (after_load casts entries s), c)

  unfoldable pub initialize : Store → B → (Outcome Unit × Store) × B
  unfolding entries_listed
  initialize s b =
      if s.initialized
      then ((ok tt, s), b)
      else (let (r, c) = KvStore.list_all json kv b in entries_listed r s c)

  unfoldable pub create_policy : Text → Policy → Exec B ℕ
  create_policy uuid policy =
      let named : Policy = record policy { id = uuid } in
      KvStore.create json kv (policy_key named.account named.id) (casts.of_policy named)

  unfoldable pub update_policy : Text → Text → Policy → ℕ → Exec B ℕ
  update_policy account id policy revision =
      KvStore.put json kv (policy_key account id) (casts.of_policy policy) (some revision)

  unfoldable pub create_binding : Binding → Exec B ℕ
  create_binding binding = do
    key ← lift (binding_key_or_throw binding.account binding.role)
    KvStore.create json kv key (casts.of_binding binding)

  unfoldable pub update_binding : Text → Text → Binding → ℕ → Exec B ℕ
  update_binding account role binding revision = do
    key ← lift (binding_key_or_throw account role)
    KvStore.put json kv key (casts.of_binding binding) (some revision)

module _ {D B : Type 0} (kv : KvClient D B) where
  unfoldable pub delete_policy : Text → Text → ℕ → Exec B Unit
  delete_policy account id revision = KvStore.delete kv (policy_key account id) revision

  unfoldable pub delete_binding : Text → Text → ℕ → Exec B Unit
  delete_binding account role revision = do
    key ← lift (binding_key_or_throw account role)
    KvStore.delete kv key revision
