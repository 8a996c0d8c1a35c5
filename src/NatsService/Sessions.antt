-- ===== src/NatsService/Sessions.antt =====
-- What connecting, disconnecting and reconnecting bring about, and where they do nothing.
use nauts.Base.{
  if_both, ◌≡◌, refl, sym, ap, ◌∙◌, none, some, [], ◌∷◌, is_some, if◌then◌else◌, arith,
}
use nauts.Base.Text.{Text}
use nauts.Thrown.{Thrown, Outcome, ok, throw}
use nauts.NatsService.{
  disconnected, connected, errored, ConnectParams, ConnectOptions, Connection, Nats, Json,
  options_of, parse_saved, get_saved_params, connect_fresh, connect, disconnect, reconnect_with,
  reconnect, disconnect_event, on_status, reconnect_event, KvBucket, target, get_kv_bucket,
  bucket_or_open, open_target, open_answer, not_connected,
}
use nauts.NatsService.Laws.{connect_fresh-ok, connect_fresh-throw}

-- What is saved is found again.
module _ (json : Json ConnectParams) where
  parse_saved-stringify : (p : ConnectParams) → parse_saved json (some (json.stringify p)) ≡ some p
  parse_saved-stringify p = by (json.stringify p) refl
    where
      by : (t : Text) → json.stringify p ≡ t → parse_saved json (some t) ≡ some p
      by [] e = absurd (json.stringify-ne-nil p e)
      by (c ∷ t) e = unfold parse_saved in ap json.parse (sym e) ∙ json.parse-stringify p

  module _ (dial : ConnectOptions → Outcome Connection) where
    pub connect_idle :
        (p : ConnectParams) (s : Nats)
        → s.connection ≡ none
        → s.connect_promise ≡ none
        → connect json dial p s ≡ connect_fresh json dial p s
    unfolding connect
    connect_idle p s e h = simp (e, h)

    -- With no connection and no call waiting, a call whose connection comes up returns, has the
    -- connection, the status "connected" and the parameters, and saves the parameters.
    pub connect_up :
        (p : ConnectParams) (s : Nats) (c : Connection)
        → s.connection ≡ none
        → s.connect_promise ≡ none
        → dial (options_of p) ≡ ok c
        → ((connect json dial p s).0 ≡ ok tt)
          × ((connect json dial p s).1.connection ≡ some c)
          × ((connect json dial p s).1.connection_status ≡ connected)
          × ((connect json dial p s).1.current_params ≡ some p)
          × (get_saved_params json (connect json dial p s).1 ≡ some p)
    connect_up p s c e h d =
        rw (connect_idle p s e h ∙ connect_fresh-ok json dial p s c d)
          (refl, refl, refl, refl, unfold get_saved_params in parse_saved-stringify p)

    -- With no connection and no call waiting, a connection that fails is reported to the caller and
    -- in the status; nothing is saved, and the next call is not held up.
    connect_down :
        (p : ConnectParams) (s : Nats) (x : Thrown)
        → s.connection ≡ none
        → s.connect_promise ≡ none
        → dial (options_of p) ≡ throw x
        → ((connect json dial p s).0 ≡ throw x)
          × ((connect json dial p s).1.connection ≡ none)
          × ((connect json dial p s).1.connection_status ≡ errored)
          × ((connect json dial p s).1.session ≡ s.session)
          × ((connect json dial p s).1.connect_promise ≡ none)
    connect_down p s x e h d =
        rw (connect_idle p s e h ∙ connect_fresh-throw json dial p s x d)
          (refl, e, refl, refl, refl)

    disconnect_idle :
        (s : Nats)
        → ((disconnect s).connection ≡ none) × ((disconnect s).connect_promise ≡ s.connect_promise)
    unfolding disconnect
    disconnect_idle s = ground arith

    -- Reconnecting, where a connection was asked for before, comes up again and no call is waiting,
    -- ends connected with the same parameters, saved once more.
    reconnect_up :
        (p : ConnectParams) (s : Nats) (c : Connection)
        → s.current_params ≡ some p
        → s.connect_promise ≡ none
        → dial (options_of p) ≡ ok c
        → ((reconnect json dial s).0 ≡ ok tt)
          × ((reconnect json dial s).1.connection ≡ some c)
          × ((reconnect json dial s).1.connection_status ≡ connected)
          × ((reconnect json dial s).1.current_params ≡ some p)
          × (get_saved_params json (reconnect json dial s).1 ≡ some p)
    reconnect_up p s c e h d =
        let (gone, promise) = disconnect_idle s in
        let same : reconnect json dial s ≡ connect json dial p (disconnect s) =
          unfold reconnect reconnect_with in simp e in
        rw same (connect_up p (disconnect s) c gone (promise ∙ h) d)

  -- After a disconnect there is no connection, no bucket and no saved session; the status is
  -- "disconnected" if there was a connection, and stays as it was if there was none.
  pub disconnect_clears :
      (s : Nats)
      → ((disconnect s).connection ≡ none)
        × ((disconnect s).kv_bucket ≡ none)
        × (get_saved_params json (disconnect s) ≡ none)
        × ((disconnect s).connection_status
            ≡ (if is_some s.connection then disconnected else s.connection_status))
  unfolding disconnect get_saved_params parse_saved
  disconnect_clears s = ground arith

  -- Once the client library has reported that a connection is lost, `connect` returns without a
  -- call of the library and without taking the new parameters, and the status stays "disconnected".
  pub connect_after_drop :
      (dial : ConnectOptions → Outcome Connection) (p : ConnectParams) (s : Nats) (c : Connection)
      → s.connection ≡ some c
      → (connect json dial p (on_status disconnect_event s) ≡ (ok tt, on_status disconnect_event s))
        × ((on_status disconnect_event s).connection_status ≡ disconnected)
  unfolding connect on_status
  connect_after_drop dial p s c e = (simp e, refl)

module _ (open_bucket : KvBucket → Outcome Unit) where
  open_answer_lem :
      (b : KvBucket) (r : Outcome Unit) (s : Nats)
      → ((u : Unit) → r ≡ ok u → (open_answer b r s).0 ≡ ok b)
        × ((e : Thrown) → r ≡ throw e → (open_answer b r s).0 ≡ throw e)
  unfolding open_answer
  open_answer_lem b (ok v) s = (λ u h. refl, λ e h. cc)
  open_answer_lem b (throw x) s = (λ u h. cc, λ e h. cc)

  -- With a connection and parameters, whatever bucket is at hand, a `getKvBucket` after the client
  -- library has reported that it reconnected asks for the bucket of the parameters over the
  -- connection anew, and has the outcome of that; one after `disconnect` throws that there is no
  -- connection.
  pub reopened :
      (b : KvBucket) (s : Nats)
      → target s.connection s.current_params ≡ some b
      → ((u : Unit)
          → open_bucket b ≡ ok u
          → (get_kv_bucket open_bucket (on_status reconnect_event s)).0 ≡ ok b)
        × ((e : Thrown)
            → open_bucket b ≡ throw e
            → (get_kv_bucket open_bucket (on_status reconnect_event s)).0 ≡ throw e)
        × ((get_kv_bucket open_bucket (disconnect s)).0 ≡ throw not_connected)
  unfolding get_kv_bucket bucket_or_open on_status open_target
  reopened b s h = (
    λ u o. rw h ((open_answer_lem b (open_bucket b) _).0 u o),
    λ e o. rw h ((open_answer_lem b (open_bucket b) _).1 e o),
    unfold disconnect target in
        if_both (λ (t : Nats). (bucket_or_open open_bucket t.kv_bucket t).0 ≡ throw not_connected)
          (is_some s.connection) (λ q. refl) (λ q. refl),
  )
