-- ===== src/PolicyStore/Loading.antt =====
-- The first load of the store.
use nauts.Base.{
  ◌≡◌, refl, ap, ◌∙◌, Bool, true, false, none, some, List, [], ◌∷◌, map, if◌then◌else◌,
}
use nauts.Base.Text.{Text, ◌==◌}
use nauts.Base.Dict
use nauts.Base.Dict.Laws.{get-set, set-HasDistinctKeys, HasDistinctKeys}
use nauts.Thrown.{ok}
use nauts.KvStore
use nauts.KvStore.{KvEntry, put_event}
use nauts.KvStore.Client.{KvClient, Codec}
use nauts.PolicyStore.{
  Store, empty, Casts, KeyKind, policy_kind, binding_kind, neither, kind_of, put_kind, handle_put,
  load, after_load, initialize, entries_listed, watch_begun, emit_policies, emit_bindings,
}
use nauts.PolicyStore.Tracking.{
  IsCurrent, is_policy_kind, is_binding_kind, same_kind, policy_entry, binding_entry, last_policy,
  last_binding,
}

module _ {V : Type 0} (casts : Casts V) where
  get-put_kind :
      (kind : KeyKind) (k : Text) (e : KvEntry V) (s : Store)
      → (Dict.get k (put_kind casts kind e.key e.value e.revision s).1.policies_map ≡ (
          if is_policy_kind kind
          then (if e.key == k then some (policy_entry casts e) else Dict.get k s.policies_map)
          else Dict.get k s.policies_map))
        × (Dict.get k (put_kind casts kind e.key e.value e.revision s).1.bindings_map ≡ (
            if is_binding_kind kind
            then (if e.key == k then some (binding_entry casts e) else Dict.get k s.bindings_map)
            else Dict.get k s.bindings_map))
  unfolding put_kind
  get-put_kind policy_kind k e s = (get-set e.key k (policy_entry casts e) s.policies_map, refl)
  get-put_kind binding_kind k e s = (refl, get-set e.key k (binding_entry casts e) s.bindings_map)
  get-put_kind neither k e s = (refl, refl)

  put_kind-distinct :
      (kind : KeyKind) (e : KvEntry V) (s : Store)
      → HasDistinctKeys s.policies_map × HasDistinctKeys s.bindings_map
      → HasDistinctKeys (put_kind casts kind e.key e.value e.revision s).1.policies_map
        × HasDistinctKeys (put_kind casts kind e.key e.value e.revision s).1.bindings_map
  unfolding put_kind
  put_kind-distinct policy_kind e s d = (set-HasDistinctKeys e.key _ s.policies_map d.0, d.1)
  put_kind-distinct binding_kind e s d = (d.0, set-HasDistinctKeys e.key _ s.bindings_map d.1)
  put_kind-distinct neither e s d = d

  load-distinct :
      (es : List (KvEntry V)) (s : Store)
      → HasDistinctKeys s.policies_map × HasDistinctKeys s.bindings_map
      → HasDistinctKeys (load casts es s).policies_map
        × HasDistinctKeys (load casts es s).bindings_map
  unfolding load handle_put
  load-distinct [] s d = d
  load-distinct (e ∷ es) s d = load-distinct es _ (put_kind-distinct (kind_of e.key) e s d)

  get-load_policies :
      (k : Text) (es : List (KvEntry V)) (s : Store) (b : Bool)
      → is_policy_kind (kind_of k) ≡ b
      → Dict.get k (load casts es s).policies_map ≡ (
          if b
          then last_policy casts k (map put_event es) (Dict.get k s.policies_map)
          else Dict.get k s.policies_map)
  unfolding load handle_put
  get-load_policies k [] s true h = refl
  get-load_policies k [] s false h = refl
  get-load_policies k (e ∷ es) s b h =
      get-load_policies k es _ b h
      ∙ more b (
          (get-put_kind (kind_of e.key) k e s).0
          ∙ same_kind casts is_policy_kind e.key k (some (policy_entry casts e))
              (Dict.get k s.policies_map) b h)
    where
      more :
          (d : Bool)
          → Dict.get k (put_kind casts (kind_of e.key) e.key e.value e.revision s).1.policies_map
            ≡ (if d
                then (if e.key == k then some (policy_entry casts e) else Dict.get k s.policies_map)
                else Dict.get k s.policies_map)
          → (if d
              then last_policy casts k (map put_event es) (
                  Dict.get k
                    (put_kind casts (kind_of e.key) e.key e.value e.revision s).1.policies_map)
              else Dict.get k
                  (put_kind casts (kind_of e.key) e.key e.value e.revision s).1.policies_map)
            ≡ (if d
                then last_policy casts k (map put_event (e ∷ es)) (Dict.get k s.policies_map)
                else Dict.get k s.policies_map)
      more true q = ap (last_policy casts k (map put_event es)) q
      more false q = q

  get-load_bindings :
      (k : Text) (es : List (KvEntry V)) (s : Store) (b : Bool)
      → is_binding_kind (kind_of k) ≡ b
      → Dict.get k (load casts es s).bindings_map ≡ (
          if b
          then last_binding casts k (map put_event es) (Dict.get k s.bindings_map)
          else Dict.get k s.bindings_map)
  unfolding load handle_put
  get-load_bindings k [] s true h = refl
  get-load_bindings k [] s false h = refl
  get-load_bindings k (e ∷ es) s b h =
      get-load_bindings k es _ b h
      ∙ more b (
          (get-put_kind (kind_of e.key) k e s).1
          ∙ same_kind casts is_binding_kind e.key k (some (binding_entry casts e))
              (Dict.get k s.bindings_map) b h)
    where
      more :
          (d : Bool)
          → Dict.get k (put_kind casts (kind_of e.key) e.key e.value e.revision s).1.bindings_map
            ≡ (if d
                then (if e.key == k
                    then some (binding_entry casts e)
                    else Dict.get k s.bindings_map)
                else Dict.get k s.bindings_map)
          → (if d
              then last_binding casts k (map put_event es) (
                  Dict.get k
                    (put_kind casts (kind_of e.key) e.key e.value e.revision s).1.bindings_map)
              else Dict.get k
                  (put_kind casts (kind_of e.key) e.key e.value e.revision s).1.bindings_map)
            ≡ (if d
                then last_binding casts k (map put_event (e ∷ es)) (Dict.get k s.bindings_map)
                else Dict.get k s.bindings_map)
      more true q = ap (last_binding casts k (map put_event es)) q
      more false q = q

  after_load-IsCurrent : (es : List (KvEntry V)) → IsCurrent (after_load casts es empty)
  unfolding after_load emit_policies emit_bindings
  after_load-IsCurrent es =
      let distinct = load-distinct es empty (tt, tt) in
      record {
        policy_keys = distinct.0;
        binding_keys = distinct.1;
        policies_told = refl;
        bindings_told = refl;
      }

  module _ {D B : Type 0} (json : Codec V D) (kv : KvClient D B) where
    initialize-begun :
        (es : List (KvEntry V)) (b c d : B)
        → KvStore.list_all json kv b ≡ (ok es, c)
        → KvStore.begin_watch kv c ≡ (ok tt, d)
        → initialize casts json kv empty b
          ≡ ((ok tt, record (after_load casts es empty) { watching = true; initialized = true }), d)
    unfolding initialize entries_listed watch_begun
    initialize-begun es b c d listed begun = rw listed (rw begun refl)

    initialize-again :
        (s : Store) (b : B) → s.initialized ≡ true → initialize casts json kv s b ≡ ((ok tt, s), b)
    unfolding initialize
    initialize-again s b h = rw h refl

    -- From an empty store, where the bucket is listed and the watch begins, `initialize` returns and
    -- leaves the store up to date and following the watch, with the last entry of each key, as a
    -- policy or as a binding by the kind of the key; and a second call changes nothing.
    pub initialize-loads :
        (k : Text) (es : List (KvEntry V)) (b c d again : B)
        → KvStore.list_all json kv b ≡ (ok es, c)
        → KvStore.begin_watch kv c ≡ (ok tt, d)
        → (t : Store) × (initialize casts json kv empty b ≡ ((ok tt, t), d))
          × IsCurrent t
          × (t.watching ≡ true)
          × (initialize casts json kv t again ≡ ((ok tt, t), again))
          × (Dict.get k t.policies_map ≡ (
              if is_policy_kind (kind_of k)
              then last_policy casts k (map put_event es) none
              else none))
          × (Dict.get k t.bindings_map ≡ (
              if is_binding_kind (kind_of k)
              then last_binding casts k (map put_event es) none
              else none))
    unfolding after_load emit_policies emit_bindings Dict.get
    initialize-loads k es b c d again listed begun =
        let current = after_load-IsCurrent es in
        let t : Store = record (after_load casts es empty) {
          watching = true;
          initialized = true;
        } in
        (
          t,
          initialize-begun es b c d listed begun,
          record {
            policy_keys = current.policy_keys;
            binding_keys = current.binding_keys;
            policies_told = current.policies_told;
            bindings_told = current.bindings_told;
          },
          refl,
          initialize-again t again refl,
          get-load_policies k es empty (is_policy_kind (kind_of k)) refl,
          get-load_bindings k es empty (is_binding_kind (kind_of k)) refl,
        )
