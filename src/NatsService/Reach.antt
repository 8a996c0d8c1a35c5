-- ===== src/NatsService/Reach.antt =====
-- Every state that calls and connection events lead to is consistent. A call is one step: what it
-- awaits is answered before the next call or event comes.
use nauts.Base.{◌≡◌, some}
use nauts.Thrown.{Outcome, ok}
use nauts.NatsService.{
  ConnectParams, ConnectOptions, Connection, KvBucket, Nats, initial, Json, connect, disconnect,
  reconnect, StatusEvent, on_status, target, create_bucket, get_kv_bucket,
}
use nauts.NatsService.Laws.{
  IsConsistent, initial-IsConsistent, connect-IsConsistent, disconnect-IsConsistent,
  reconnect-IsConsistent, on_status-IsConsistent, create_bucket-IsConsistent,
  get_kv_bucket-IsConsistent, get_kv_bucket-target,
}

module _ (json : Json ConnectParams) where
  -- The answers of the client library are any, at each step.
  pub data Step : Nats → Nats → Type 0 where
    connecting :
        (dial : ConnectOptions → Outcome Connection) (p : ConnectParams) (s : Nats)
        → Step s (connect json dial p s).1
    reconnecting :
        (dial : ConnectOptions → Outcome Connection) (s : Nats) → Step s (reconnect json dial s).1
    disconnecting : (s : Nats) → Step s (disconnect s)
    notified : (e : StatusEvent) (s : Nats) → Step s (on_status e s)
    creating : (answer : KvBucket → Outcome Unit) (s : Nats) → Step s (create_bucket answer s).1
    getting : (answer : KvBucket → Outcome Unit) (s : Nats) → Step s (get_kv_bucket answer s).1

  pub data Reach (s : Nats) : Nats → Type 0 where
    here : Reach s s
    next : {t u : Nats} → Reach s t → Step t u → Reach s u

  Step-IsConsistent : {s t : Nats} → Step s t → IsConsistent s → IsConsistent t
  Step-IsConsistent (connecting dial p s) v = connect-IsConsistent json dial p s v
  Step-IsConsistent (reconnecting dial s) v = reconnect-IsConsistent json dial s v
  Step-IsConsistent (disconnecting s) v = disconnect-IsConsistent s v
  Step-IsConsistent (notified e s) v = on_status-IsConsistent e s v
  Step-IsConsistent (creating answer s) v = create_bucket-IsConsistent answer s v
  Step-IsConsistent (getting answer s) v = get_kv_bucket-IsConsistent answer s v

  Reach-IsConsistent : {s t : Nats} → Reach s t → IsConsistent s → IsConsistent t
  Reach-IsConsistent here v = v
  Reach-IsConsistent (next r st) v = Step-IsConsistent st (Reach-IsConsistent r v)

  -- After any calls and events, one after the other, a connection has its parameters, the bucket at
  -- hand is the one that they name over that connection, and so is a bucket that `getKvBucket` then
  -- hands out.
  Reach-bucket :
      (answer : KvBucket → Outcome Unit) {s : Nats} (b : KvBucket)
      → Reach initial s
      → (get_kv_bucket answer s).0 ≡ ok b
      → IsConsistent s × (target s.connection s.current_params ≡ some b)
  Reach-bucket answer {s} b r h =
      let v = Reach-IsConsistent r initial-IsConsistent in (v, get_kv_bucket-target answer s b v h)
