-- ===== src/NatsService/Laws.antt =====
-- The states of the connection: what calls and events keep, and what they bring about.
use nauts.Base.{◌≡◌, refl, ◌∙◌, true, Option, none, some, is_some, Option-cases, inl, inr}
use nauts.Thrown.{Thrown, Outcome, ok, throw}
use nauts.NatsService.{
  connected, errored, ConnectParams, ConnectOptions, Connection, KvBucket, Nats, initial, Json,
  options_of, connect_end, connect_fresh, connect, disconnect, reconnect_with, reconnect,
  StatusEvent, reconnecting_event, reconnect_event, disconnect_event, other_event, on_status,
  target, open_answer, open_target, bucket_or_open, create_bucket, get_kv_bucket,
}

-- The bucket at hand, if there is one, is the target.
abbrev pub IsBound : Option KvBucket → Option KvBucket → Type 0
IsBound none t = Unit
IsBound (some b) t = t ≡ some b

-- A connection has its parameters, the bucket at hand is the one that they name, over that
-- connection, and no call is left waiting.
pub record IsConsistent (s : Nats) : Type 0 where
  pub known : is_some s.connection ≡ true → is_some s.current_params ≡ true
  pub bound : IsBound s.kv_bucket (target s.connection s.current_params)
  pub settled : s.connect_promise ≡ none

pub initial-IsConsistent : IsConsistent initial
initial-IsConsistent = record { known = λ h. cc; bound = tt; settled = refl }

unbound : (k : Option KvBucket) (p : Option ConnectParams) → IsBound k (target none p) → k ≡ none
unfolding target
unbound none p h = refl
unbound (some b) p h = absurd (cc h)

no_bucket : (s : Nats) → IsConsistent s → s.connection ≡ none → s.kv_bucket ≡ none
no_bucket s v e = unbound s.kv_bucket s.current_params (rw e at v.bound)

IsBound-none : (k t : Option KvBucket) → k ≡ none → IsBound k t
IsBound-none k t e = rw e tt

module _ (json : Json ConnectParams) (dial : ConnectOptions → Outcome Connection) where
  -- What a call that is not joined does, by the answer of the client library.
  pub connect_fresh-ok :
      (p : ConnectParams) (s : Nats) (c : Connection)
      → dial (options_of p) ≡ ok c
      → connect_fresh json dial p s ≡ (
        ok tt,
        record s {
          connection = some c;
          connect_promise = none;
          current_params = some p;
          connection_status = connected;
          session = some (json.stringify p);
        },
      )
  unfolding connect_fresh connect_end
  connect_fresh-ok p s c h = rw h

  pub connect_fresh-throw :
      (p : ConnectParams) (s : Nats) (e : Thrown)
      → dial (options_of p) ≡ throw e
      → connect_fresh json dial p s ≡ (
        throw e,
        record s { connect_promise = none; current_params = some p; connection_status = errored },
      )
  unfolding connect_fresh connect_end
  connect_fresh-throw p s e h = rw h

  connect_fresh-IsConsistent :
      (p : ConnectParams) (s : Nats)
      → IsConsistent s
      → s.connection ≡ none
      → IsConsistent (connect_fresh json dial p s).1
  connect_fresh-IsConsistent p s v e = by (dial (options_of p)) refl
    where
      by :
          (o : Outcome Connection)
          → dial (options_of p) ≡ o
          → IsConsistent (connect_fresh json dial p s).1
      by (ok c) h = rw (connect_fresh-ok p s c h) (record {
        known = λ q. refl;
        bound = IsBound-none s.kv_bucket _ (no_bucket s v e);
        settled = refl;
      })
      by (throw x) h = rw (connect_fresh-throw p s x h) (record {
        known = λ q. refl;
        bound = IsBound-none s.kv_bucket _ (no_bucket s v e);
        settled = refl;
      })

  pub connect-IsConsistent :
      (p : ConnectParams) (s : Nats) → IsConsistent s → IsConsistent (connect json dial p s).1
  unfolding connect
  connect-IsConsistent p s v = elim (Option-cases s.connection) [
    | inl e ↦ rw (e, v.settled) (connect_fresh-IsConsistent p s v e)
    | inr (c, e) ↦ simp e v
  ]

pub disconnect-IsConsistent : (s : Nats) → IsConsistent s → IsConsistent (disconnect s)
unfolding disconnect
disconnect-IsConsistent s v = elim (Option-cases s.connection) [
  | inl e ↦ rw e (record { known = λ h. cc; bound = tt; settled = v.settled })
  | inr (c, e) ↦ rw e (record { known = λ h. cc; bound = tt; settled = v.settled })
]

pub on_status-IsConsistent :
    (e : StatusEvent) (s : Nats) → IsConsistent s → IsConsistent (on_status e s)
unfolding on_status
on_status-IsConsistent reconnecting_event s v = record {
  known = v.known;
  bound = v.bound;
  settled = v.settled;
}
on_status-IsConsistent reconnect_event s v = record {
  known = v.known;
  bound = tt;
  settled = v.settled;
}
on_status-IsConsistent disconnect_event s v = record {
  known = v.known;
  bound = v.bound;
  settled = v.settled;
}
on_status-IsConsistent other_event s v = v

open_answer-IsConsistent :
    (b : KvBucket) (o : Outcome Unit) (s : Nats)
    → IsConsistent s
    → target s.connection s.current_params ≡ some b
    → IsConsistent (open_answer b o s).1
unfolding open_answer
open_answer-IsConsistent b (ok u) s v h = record { known = v.known; bound = h; settled = v.settled }
open_answer-IsConsistent b (throw x) s v h = v

module _ (open_bucket : KvBucket → Outcome Unit) where
  open_target-IsConsistent :
      (t : Option KvBucket) (s : Nats)
      → IsConsistent s
      → target s.connection s.current_params ≡ t
      → IsConsistent (open_target open_bucket t s).1
  unfolding open_target
  open_target-IsConsistent none s v h = v
  open_target-IsConsistent (some b) s v h = open_answer-IsConsistent b (open_bucket b) s v h

  pub create_bucket-IsConsistent :
      (s : Nats) → IsConsistent s → IsConsistent (create_bucket open_bucket s).1
  unfolding create_bucket
  create_bucket-IsConsistent s v =
      open_target-IsConsistent (target s.connection s.current_params) s v refl

  bucket_or_open-IsConsistent :
      (o : Option KvBucket) (s : Nats)
      → IsConsistent s
      → IsConsistent (bucket_or_open open_bucket o s).1
  unfolding bucket_or_open
  bucket_or_open-IsConsistent (some b) s v = v
  bucket_or_open-IsConsistent none s v =
      open_target-IsConsistent (target s.connection s.current_params) s v refl

  pub get_kv_bucket-IsConsistent :
      (s : Nats) → IsConsistent s → IsConsistent (get_kv_bucket open_bucket s).1
  unfolding get_kv_bucket
  get_kv_bucket-IsConsistent s v = bucket_or_open-IsConsistent s.kv_bucket s v

  open_answer-ok :
      (c b : KvBucket) (o : Outcome Unit) (s : Nats)
      → (open_answer c o s).0 ≡ ok b
      → some c ≡ some b
  unfolding open_answer
  open_answer-ok c b (ok u) s h = cc
  open_answer-ok c b (throw e) s h = cc

  bucket_or_open-target :
      (o : Option KvBucket) (s : Nats) (b : KvBucket)
      → IsBound o (target s.connection s.current_params)
      → (bucket_or_open open_bucket o s).0 ≡ ok b
      → target s.connection s.current_params ≡ some b
  unfolding bucket_or_open
  bucket_or_open-target (some c) s b e h = e ∙ cc
  bucket_or_open-target none s b e h = opened (target s.connection s.current_params) h
    where
      opened : (t : Option KvBucket) → (open_target open_bucket t s).0 ≡ ok b → t ≡ some b
      opened none g = unfold open_target in cc g
      opened (some c) g = unfold open_target in open_answer-ok c b (open_bucket c) s g

  -- In a consistent state the bucket that is handed out is the target: the one at hand or a new one.
  pub get_kv_bucket-target :
      (s : Nats) (b : KvBucket)
      → IsConsistent s
      → (get_kv_bucket open_bucket s).0 ≡ ok b
      → target s.connection s.current_params ≡ some b
  unfolding get_kv_bucket
  get_kv_bucket-target s b v h = bucket_or_open-target s.kv_bucket s b v.bound h

module _ (json : Json ConnectParams) (dial : ConnectOptions → Outcome Connection) where
  pub reconnect-IsConsistent : (s : Nats) → IsConsistent s → IsConsistent (reconnect json dial s).1
  unfolding reconnect
  reconnect-IsConsistent s v = by s.current_params
    where
      by : (o : Option ConnectParams) → IsConsistent (reconnect_with json dial o s).1
      by none = unfold reconnect_with in v
      by (some p) =
          unfold reconnect_with in
          connect-IsConsistent json dial p (disconnect s) (disconnect-IsConsistent s v)
