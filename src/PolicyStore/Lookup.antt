-- ===== src/PolicyStore/Lookup.antt =====
-- What the maps hold of a key after any events, and after any entries of a watch.
use nauts.Base.{◌≡◌, refl, ap, ◌∙◌, Bool, true, false, none, some, List, [], ◌∷◌, if◌then◌else◌}
use nauts.Base.Text.{Text}
use nauts.Base.Dict
use nauts.Thrown.{Outcome, ok, throw}
use nauts.KvStore
use nauts.KvStore.Client.{RawEntry, Codec}
use nauts.KvStore.{KvEvent, put_event, del_event}
use nauts.PolicyStore.{Store, Casts, kind_of, on_event}
use nauts.PolicyStore.Tracking.{
  IsCurrent, is_policy_kind, is_binding_kind, run, run-IsCurrent, on_event-put, on_event-del,
  on_event-IsCurrent, get-put_step, get-del_step, same_kind, policy_entry, binding_entry,
  last_policy, last_binding,
}

module _ {V D : Type 0} (json : Codec V D) where
  -- The events that a watch hands on: those up to the first entry that cannot be decoded.
  abbrev pub heard : List (RawEntry D) → List (KvEvent V)
  heard [] = []
  heard (e ∷ es) = elim (KvStore.event_of json e) [ throw err ↦ [] | ok event ↦ event ∷ heard es ]

module _ {V : Type 0} (casts : Casts V) where
  -- One event, at a key whose kind is known.
  policy_event :
      (k : Text) (event : KvEvent V) (s : Store) (b : Bool)
      → IsCurrent s
      → is_policy_kind (kind_of k) ≡ b
      → Dict.get k (on_event casts event s).policies_map ≡ (
          if b
          then last_policy casts k (event ∷ []) (Dict.get k s.policies_map)
          else Dict.get k s.policies_map)
  policy_event k (put_event e) s b c h =
      ap (λ t. Dict.get k t.policies_map) (on_event-put casts e s)
      ∙ (get-put_step casts (kind_of e.key) k e s).0
      ∙ same_kind casts is_policy_kind e.key k (some (policy_entry casts e))
          (Dict.get k s.policies_map) b h
  policy_event k (del_event j r) s b c h =
      ap (λ t. Dict.get k t.policies_map) (on_event-del casts j r s)
      ∙ (get-del_step casts (kind_of j) k j s c).0
      ∙ same_kind casts is_policy_kind j k none (Dict.get k s.policies_map) b h

  get-run_policies :
      (k : Text) (events : List (KvEvent V)) (s : Store) (b : Bool)
      → IsCurrent s
      → is_policy_kind (kind_of k) ≡ b
      → Dict.get k (run casts events s).policies_map ≡ (
          if b
          then last_policy casts k events (Dict.get k s.policies_map)
          else Dict.get k s.policies_map)
  unfolding run
  get-run_policies k [] s true c h = refl
  get-run_policies k [] s false c h = refl
  get-run_policies k (event ∷ events) s b c h =
      get-run_policies k events (on_event casts event s) b (on_event-IsCurrent casts event s c) h
      ∙ more b event (policy_event k event s b c h)
    where
      more :
          (d : Bool) (ev : KvEvent V)
          → Dict.get k (on_event casts event s).policies_map ≡ (
              if d
              then last_policy casts k (ev ∷ []) (Dict.get k s.policies_map)
              else Dict.get k s.policies_map)
          → (if d
              then last_policy casts k events (Dict.get k (on_event casts event s).policies_map)
              else Dict.get k (on_event casts event s).policies_map)
            ≡ (if d
                then last_policy casts k (ev ∷ events) (Dict.get k s.policies_map)
                else Dict.get k s.policies_map)
      more true (put_event e) q = ap (last_policy casts k events) q
      more true (del_event j r) q = ap (last_policy casts k events) q
      more false ev q = q

  binding_event :
      (k : Text) (event : KvEvent V) (s : Store) (b : Bool)
      → IsCurrent s
      → is_binding_kind (kind_of k) ≡ b
      → Dict.get k (on_event casts event s).bindings_map ≡ (
          if b
          then last_binding casts k (event ∷ []) (Dict.get k s.bindings_map)
          else Dict.get k s.bindings_map)
  binding_event k (put_event e) s b c h =
      ap (λ t. Dict.get k t.bindings_map) (on_event-put casts e s)
      ∙ (get-put_step casts (kind_of e.key) k e s).1
      ∙ same_kind casts is_binding_kind e.key k (some (binding_entry casts e))
          (Dict.get k s.bindings_map) b h
  binding_event k (del_event j r) s b c h =
      ap (λ t. Dict.get k t.bindings_map) (on_event-del casts j r s)
      ∙ (get-del_step casts (kind_of j) k j s c).1
      ∙ same_kind casts is_binding_kind j k none (Dict.get k s.bindings_map) b h

  get-run_bindings :
      (k : Text) (events : List (KvEvent V)) (s : Store) (b : Bool)
      → IsCurrent s
      → is_binding_kind (kind_of k) ≡ b
      → Dict.get k (run casts events s).bindings_map ≡ (
          if b
          then last_binding casts k events (Dict.get k s.bindings_map)
          else Dict.get k s.bindings_map)
  unfolding run
  get-run_bindings k [] s true c h = refl
  get-run_bindings k [] s false c h = refl
  get-run_bindings k (event ∷ events) s b c h =
      get-run_bindings k events (on_event casts event s) b (on_event-IsCurrent casts event s c) h
      ∙ more b event (binding_event k event s b c h)
    where
      more :
          (d : Bool) (ev : KvEvent V)
          → Dict.get k (on_event casts event s).bindings_map ≡ (
              if d
              then last_binding casts k (ev ∷ []) (Dict.get k s.bindings_map)
              else Dict.get k s.bindings_map)
          → (if d
              then last_binding casts k events (Dict.get k (on_event casts event s).bindings_map)
              else Dict.get k (on_event casts event s).bindings_map)
            ≡ (if d
                then last_binding casts k (ev ∷ events) (Dict.get k s.bindings_map)
                else Dict.get k s.bindings_map)
      more true (put_event e) q = ap (last_binding casts k events) q
      more true (del_event j r) q = ap (last_binding casts k events) q
      more false ev q = q

  get-run :
      (k : Text) (events : List (KvEvent V)) (s : Store)
      → IsCurrent s
      → IsCurrent (run casts events s)
        × (Dict.get k (run casts events s).policies_map ≡ (
            if is_policy_kind (kind_of k)
            then last_policy casts k events (Dict.get k s.policies_map)
            else Dict.get k s.policies_map))
        × (Dict.get k (run casts events s).bindings_map ≡ (
            if is_binding_kind (kind_of k)
            then last_binding casts k events (Dict.get k s.bindings_map)
            else Dict.get k s.bindings_map))
  get-run k events s c = (
    run-IsCurrent casts events s c,
    get-run_policies k events s (is_policy_kind (kind_of k)) c refl,
    get-run_bindings k events s (is_binding_kind (kind_of k)) c refl,
  )

  module _ {D : Type 0} (json : Codec V D) where
    watch-run :
        (es : List (RawEntry D)) (s : Store)
        → KvStore.watch json (on_event casts) es s ≡ run casts (heard json es) s
    unfolding KvStore.watch run
    watch-run [] s = refl
    watch-run (e ∷ es) s = by (KvStore.event_of json e) (λ t. watch-run es t)
      where
        by :
            (o : Outcome (KvEvent V))
            → ((t : Store) → KvStore.watch json (on_event casts) es t ≡ run casts (heard json es) t)
            → (elim o [
              | throw err ↦ s
              | ok event ↦ KvStore.watch json (on_event casts) es (on_event casts event s)
            ])
              ≡ run casts (elim o [ throw err ↦ [] | ok event ↦ event ∷ heard json es ]) s
        by (throw err) f = refl
        by (ok event) f = f (on_event casts event s)

    -- Over any entries that its watch delivers the store stays up to date, and of every key it then
    -- holds what the last entry about the key said, as a policy or as a binding by the kind of the
    -- key, and of a key that no entry names what it held before; the entries count up to the first
    -- that cannot be decoded, which ends the watch.
    pub get-watch :
        (k : Text) (es : List (RawEntry D)) (s : Store)
        → IsCurrent s
        → IsCurrent (KvStore.watch json (on_event casts) es s)
          × (Dict.get k (KvStore.watch json (on_event casts) es s).policies_map ≡ (
              if is_policy_kind (kind_of k)
              then last_policy casts k (heard json es) (Dict.get k s.policies_map)
              else Dict.get k s.policies_map))
          × (Dict.get k (KvStore.watch json (on_event casts) es s).bindings_map ≡ (
              if is_binding_kind (kind_of k)
              then last_binding casts k (heard json es) (Dict.get k s.bindings_map)
              else Dict.get k s.bindings_map))
    get-watch k es s c = rw (watch-run es s) (get-run k (heard json es) s c)
