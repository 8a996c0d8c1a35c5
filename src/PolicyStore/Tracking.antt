-- ===== src/PolicyStore/Tracking.antt =====
-- The maps of the store follow the watch: what they hold of a key is what the last event about it
-- said, and what subscribers have been given is what the maps hold.
use nauts.Base.{
  ℕ, ◌≡◌, refl, sym, ◌∙◌, Bool, true, false, Option, none, some, List, [], ◌∷◌, if◌then◌else◌,
  Bool-cases, inl, inr,
}
use nauts.Base.Text.{Text, ◌==◌, eq_iff}
use nauts.Base.Dict
use nauts.Base.Dict.{Dict}
use nauts.Base.Dict.Laws.{
  get-set, get-delete, HasDistinctKeys, set-HasDistinctKeys, delete-HasDistinctKeys,
}
use nauts.Models.{PolicyEntry, BindingEntry}
use nauts.KvStore.{KvEntry, KvEvent, put_event, del_event}
use nauts.PolicyStore.{
  Store, Casts, KeyKind, policy_kind, binding_kind, neither, kind_of, emit_kind, emit_all, del_kind,
  handle_del, put_kind, handle_put, on_event,
}

-- The two maps, each with every key once, and the subscribers up to date.
pub record IsCurrent (s : Store) : Type 0 where
  pub policy_keys : HasDistinctKeys s.policies_map
  pub binding_keys : HasDistinctKeys s.bindings_map
  pub policies_told : s.policies_subject ≡ Dict.values s.policies_map
  pub bindings_told : s.bindings_subject ≡ Dict.values s.bindings_map

abbrev pub is_policy_kind : KeyKind → Bool
is_policy_kind policy_kind = true
is_policy_kind _ = false

abbrev pub is_binding_kind : KeyKind → Bool
is_binding_kind binding_kind = true
is_binding_kind _ = false

emit_keeps_maps :
    (k : KeyKind) (s : Store)
    → ((emit_kind k s).policies_map ≡ s.policies_map)
      × ((emit_kind k s).bindings_map ≡ s.bindings_map)
unfolding emit_kind
emit_keeps_maps policy_kind s = (refl, refl)
emit_keeps_maps binding_kind s = (refl, refl)
emit_keeps_maps neither s = (refl, refl)

-- What the callback does, once the kind of the key is known.
pub del_step : KeyKind → Text → Store → Store
unfolding del_kind emit_kind
del_step k key s = let (handled, t) = del_kind k key s in if handled then emit_kind k t else t

module _ {V : Type 0} (casts : Casts V) where
  pub put_step : KeyKind → KvEntry V → Store → Store
  unfolding put_kind emit_kind
  put_step k e s =
      let (handled, t) = put_kind casts k e.key e.value e.revision s in
      if handled then emit_kind k t else t

  pub on_event-put :
      (e : KvEntry V) (s : Store) → on_event casts (put_event e) s ≡ put_step (kind_of e.key) e s
  unfolding on_event handle_put emit_all put_step
  on_event-put e s = refl

  pub on_event-del :
      (key : Text) (r : ℕ) (s : Store)
      → on_event casts (del_event key r) s ≡ del_step (kind_of key) key s
  unfolding on_event handle_del emit_all del_step
  on_event-del key r s = refl

  put_step-IsCurrent :
      (k : KeyKind) (e : KvEntry V) (s : Store) → IsCurrent s → IsCurrent (put_step k e s)
  unfolding put_step
  put_step-IsCurrent policy_kind e s c = record {
    policy_keys = set-HasDistinctKeys e.key _ s.policies_map c.policy_keys;
    binding_keys = c.binding_keys;
    policies_told = refl;
    bindings_told = c.bindings_told;
  }
  put_step-IsCurrent binding_kind e s c = record {
    policy_keys = c.policy_keys;
    binding_keys = set-HasDistinctKeys e.key _ s.bindings_map c.binding_keys;
    policies_told = c.policies_told;
    bindings_told = refl;
  }
  put_step-IsCurrent neither e s c = c

  del_step-IsCurrent :
      (k : KeyKind) (key : Text) (s : Store) → IsCurrent s → IsCurrent (del_step k key s)
  unfolding del_step
  del_step-IsCurrent policy_kind key s c = record {
    policy_keys = delete-HasDistinctKeys key s.policies_map c.policy_keys;
    binding_keys = c.binding_keys;
    policies_told = refl;
    bindings_told = c.bindings_told;
  }
  del_step-IsCurrent binding_kind key s c = record {
    policy_keys = c.policy_keys;
    binding_keys = delete-HasDistinctKeys key s.bindings_map c.binding_keys;
    policies_told = c.policies_told;
    bindings_told = refl;
  }
  del_step-IsCurrent neither key s c = c

  pub on_event-IsCurrent :
      (event : KvEvent V) (s : Store) → IsCurrent s → IsCurrent (on_event casts event s)
  on_event-IsCurrent (put_event e) s c =
      rw (on_event-put e s) (put_step-IsCurrent (kind_of e.key) e s c)
  on_event-IsCurrent (del_event key r) s c =
      rw (on_event-del key r s) (del_step-IsCurrent (kind_of key) key s c)

  abbrev pub policy_entry : KvEntry V → PolicyEntry
  policy_entry e = record { policy = casts.as_policy e.value; revision = e.revision }

  abbrev pub binding_entry : KvEntry V → BindingEntry
  binding_entry e = record { binding = casts.as_binding e.value; revision = e.revision }

  -- What the events leave of a key in the map of policies.
  abbrev pub last_policy : Text → List (KvEvent V) → Option PolicyEntry → Option PolicyEntry
  last_policy k [] o = o
  last_policy k (put_event e ∷ es) o =
      last_policy k es (if e.key == k then some (policy_entry e) else o)
  last_policy k (del_event j r ∷ es) o = last_policy k es (if j == k then none else o)

  unfoldable pub run : List (KvEvent V) → Store → Store
  run [] s = s
  run (event ∷ events) s = run events (on_event casts event s)

  pub run-IsCurrent :
      (events : List (KvEvent V)) (s : Store) → IsCurrent s → IsCurrent (run events s)
  unfolding run
  run-IsCurrent [] s c = c
  run-IsCurrent (event ∷ events) s c =
      run-IsCurrent events (on_event casts event s) (on_event-IsCurrent event s c)

  pub get-put_step :
      (kind : KeyKind) (k : Text) (e : KvEntry V) (s : Store)
      → (Dict.get k (put_step kind e s).policies_map ≡ (
          if is_policy_kind kind
          then (if e.key == k then some (policy_entry e) else Dict.get k s.policies_map)
          else Dict.get k s.policies_map))
        × (Dict.get k (put_step kind e s).bindings_map ≡ (
            if is_binding_kind kind
            then (if e.key == k then some (binding_entry e) else Dict.get k s.bindings_map)
            else Dict.get k s.bindings_map))
  unfolding put_step
  get-put_step policy_kind k e s = (get-set e.key k (policy_entry e) s.policies_map, refl)
  get-put_step binding_kind k e s = (refl, get-set e.key k (binding_entry e) s.bindings_map)
  get-put_step neither k e s = (refl, refl)

  pub get-del_step :
      (kind : KeyKind) (k key : Text) (s : Store)
      → IsCurrent s
      → (Dict.get k (del_step kind key s).policies_map ≡ (
          if is_policy_kind kind
          then (if key == k then none else Dict.get k s.policies_map)
          else Dict.get k s.policies_map))
        × (Dict.get k (del_step kind key s).bindings_map ≡ (
            if is_binding_kind kind
            then (if key == k then none else Dict.get k s.bindings_map)
            else Dict.get k s.bindings_map))
  unfolding del_step
  get-del_step policy_kind k key s c = (get-delete key k s.policies_map c.policy_keys, refl)
  get-del_step binding_kind k key s c = (refl, get-delete key k s.bindings_map c.binding_keys)
  get-del_step neither k key s c = (refl, refl)

  -- A test of the kind of the key that an event names can be made on the key that is looked up.
  pub same_kind :
      {A : Type 0} (p : KeyKind → Bool) (j k : Text) (x y : A) (b : Bool)
      → p (kind_of k) ≡ b
      → (if p (kind_of j) then (if j == k then x else y) else y)
        ≡ (if b then (if j == k then x else y) else y)
  same_kind p j k x y b h = elim (Bool-cases (j == k)) [
    | inl e ↦ rw (e, (eq_iff j k).0 e, h)
    | inr e ↦ rw e (both (p (kind_of j)) ∙ sym (both b))
  ]
    where
      both : (c : Bool) → (if c then y else y) ≡ y
      both true = refl
      both false = refl

  -- What the events leave of a key in the map of bindings.
  abbrev pub last_binding : Text → List (KvEvent V) → Option BindingEntry → Option BindingEntry
  last_binding k [] o = o
  last_binding k (put_event e ∷ es) o =
      last_binding k es (if e.key == k then some (binding_entry e) else o)
  last_binding k (del_event j r ∷ es) o = last_binding k es (if j == k then none else o)
