-- ===== src/NatsService.antt =====
-- The connection to NATS: ctrlp/src/app/services/nats.service.ts. The client library enters as the
-- answers of its calls: `dial` for `connect`, `probe` for binding to a bucket and asking its status,
-- `open` for binding to it or creating it. Session storage holds a text or nothing.
pub mod Errors
pub mod Laws
pub mod Overlap
pub mod Reach
pub mod Sessions
use nauts.Base.{
  ℕ, ◌≡◌, ◌≢◌, Bool, true, false, Option, none, some, List, [], ◌∷◌, if◌then◌else◌, is_some,
}
use nauts.Base.Text.{Text, codes}
use nauts.NatsService.Errors.{is_bucket_not_found}
use nauts.Thrown.{Thrown, error, Outcome, ok, throw, Exec, ◌>>=◌, pure, raise, attempt}

pub data ConnectionStatus : Type 0 where
  disconnected connecting connected reconnecting errored : ConnectionStatus

pub data AuthMethod : Type 0 where
  anonymous : AuthMethod
  token : Text → AuthMethod
  userpass : Text → Text → AuthMethod
  nkey : Text → AuthMethod
  creds : Text → AuthMethod

pub record ConnectParams : Type 0 where
  pub url : Text
  pub bucket : Text
  pub auth : AuthMethod

-- The authenticators that `doConnect` makes.
pub data Authenticator : Type 0 where
  nkey_authenticator : Text → Authenticator
  creds_authenticator : Text → Authenticator

pub record ConnectOptions : Type 0 where
  pub servers : Text
  pub timeout : ℕ
  pub max_reconnect_attempts : ℕ
  pub reconnect_time_wait : ℕ
  pub authenticator : Option Authenticator

-- A connection of the client library, by a number.
abbrev pub Connection : Type 0
Connection = ℕ

-- A bucket as it was bound: over which connection, and by what name.
pub record KvBucket : Type 0 where
  pub connection : Connection
  pub bucket : Text

pub record Nats : Type 0 where
  pub connection : Option Connection
  pub kv_bucket : Option KvBucket
  pub connect_promise : Option (Outcome Unit)
  pub current_params : Option ConnectParams
  pub connection_status : ConnectionStatus
  pub session : Option Text

abbrev pub initial : Nats
initial = record {
  connection = none;
  kv_bucket = none;
  connect_promise = none;
  current_params = none;
  connection_status = disconnected;
  session = none;
}

-- `JSON.stringify` and `JSON.parse` at one type: what is written is read back, and is not empty.
pub record Json (V : Type 0) : Type 0 where
  pub stringify : V → Text
  pub parse : Text → Option V
  pub parse-stringify : (v : V) → parse (stringify v) ≡ some v
  pub stringify-ne-nil : (v : V) → stringify v ≢ []

abbrev pub not_connected : Thrown
not_connected = error (codes "NATS not connected")

unfoldable pub authenticator_of : AuthMethod → Option Authenticator
authenticator_of (nkey seed) = some (nkey_authenticator seed)
authenticator_of (creds contents) = some (creds_authenticator contents)
authenticator_of _ = none

unfoldable pub options_of : ConnectParams → ConnectOptions
unfolding authenticator_of
options_of params = record {
  servers = params.url;
  timeout = 5000;
  max_reconnect_attempts = 10;
  reconnect_time_wait = 2000;
  authenticator = authenticator_of params.auth;
}

module _ (json : Json ConnectParams) where
  unfoldable pub parse_saved : Option Text → Option ConnectParams
  parse_saved none = none
  parse_saved (some []) = none
  parse_saved (some (c ∷ raw)) = json.parse (c ∷ raw)

  unfoldable pub get_saved_params : Nats → Option ConnectParams
  get_saved_params s = parse_saved s.session

-- `doConnect` up to its wait for the client library.
unfoldable pub do_connect_begin : ConnectParams → Nats → ConnectOptions × Nats
do_connect_begin params s = (options_of params, record s { connection_status = connecting })

-- `doConnect` from the answer of the client library on.
unfoldable pub do_connect_end : Outcome Connection → Nats → Outcome Unit × Nats
do_connect_end (ok c) s = (ok tt, record s { connection = some c; connection_status = connected })
do_connect_end (throw e) s = (throw e, record s { connection_status = errored })

module _ (json : Json ConnectParams) where
  -- `connect` after `doConnect`: the session is saved on success, and the promise is dropped.
  unfoldable pub connect_end : ConnectParams → Outcome Unit → Nats → Outcome Unit × Nats
  connect_end params (ok u) s =
      (ok u, record s { session = some (json.stringify params); connect_promise = none })
  connect_end params (throw e) s = (throw e, record s { connect_promise = none })

module _ (json : Json ConnectParams) (dial : ConnectOptions → Outcome Connection) where
  -- The promise that waiting callers share is that of `doConnect`.
  unfoldable pub connect_fresh : ConnectParams → Nats → Outcome Unit × Nats
  unfolding do_connect_begin do_connect_end
  connect_fresh params s =
      let (options, t) = do_connect_begin params (record s { current_params = some params }) in
      let settled = do_connect_end (dial options) in
      let waiting = record t { connect_promise = some (settled t).0 } in
      let (r, u) = settled waiting in connect_end json params r u

  -- A call that finds another one waiting has the outcome of that one, and changes nothing itself.
  unfoldable pub connect : ConnectParams → Nats → Outcome Unit × Nats
  connect params s =
      if is_some s.connection
      then (ok tt, s)
      else elim s.connect_promise [ some settled ↦ (settled, s) | none ↦ connect_fresh params s ]

-- Draining and closing the connection changes nothing here, and their errors are dropped.
unfoldable pub disconnect : Nats → Nats
disconnect s =
    let t = record s { connection = none; kv_bucket = none; session = none } in
    if is_some s.connection then record t { connection_status = disconnected } else t

module _ (json : Json ConnectParams) (dial : ConnectOptions → Outcome Connection) where
  unfoldable pub reconnect_with : Option ConnectParams → Nats → Outcome Unit × Nats
  reconnect_with none s = (throw (error (codes "No previous connection params")), s)
  reconnect_with (some params) s = connect json dial params (disconnect s)

  unfoldable pub reconnect : Nats → Outcome Unit × Nats
  unfolding reconnect_with
  reconnect s = reconnect_with s.current_params s

-- The events of `connection.status()`.
pub data StatusEvent : Type 0 where
  reconnecting_event reconnect_event disconnect_event other_event : StatusEvent

unfoldable pub on_status : StatusEvent → Nats → Nats
on_status reconnecting_event s = record s { connection_status = reconnecting }
on_status reconnect_event s = record s { connection_status = connected; kv_bucket = none }
on_status disconnect_event s = record s { connection_status = disconnected }
on_status other_event s = s

-- The connection and the parameters, where both are there.
unfoldable pub target : Option Connection → Option ConnectParams → Option KvBucket
target (some c) (some params) = some (record { connection = c; bucket = params.bucket })
target _ _ = none

unfoldable pub get_connection : Exec Nats Connection
get_connection s = elim s.connection [ none ↦ (throw not_connected, s) | some c ↦ (ok c, s) ]

-- What follows the binding to a bucket.
unfoldable pub open_answer : KvBucket → Outcome Unit → Exec Nats KvBucket
open_answer b (ok u) s = (ok b, record s { kv_bucket = some b })
open_answer b (throw e) s = (throw e, s)

module _ (open_bucket : KvBucket → Outcome Unit) where
  unfoldable pub open_target : Option KvBucket → Exec Nats KvBucket
  open_target none s = (throw not_connected, s)
  open_target (some b) s = open_answer b (open_bucket b) s

  unfoldable pub create_bucket : Exec Nats KvBucket
  create_bucket s = open_target (target s.connection s.current_params) s

  unfoldable pub bucket_or_open : Option KvBucket → Exec Nats KvBucket
  bucket_or_open (some b) s = (ok b, s)
  bucket_or_open none s = open_target (target s.connection s.current_params) s

  unfoldable pub get_kv_bucket : Exec Nats KvBucket
  get_kv_bucket s = bucket_or_open s.kv_bucket s

-- The answer of asking a bucket for its status: a failure that says "not found" is an answer, too.
module _ (to_lower : Text → Text) where
  unfoldable pub probe_answer : Outcome Unit → Outcome Bool
  probe_answer (ok u) = ok true
  probe_answer (throw e) = if is_bucket_not_found to_lower e then ok false else throw e

  module _ (probe : KvBucket → Outcome Unit) where
    unfoldable pub probe_target : Option KvBucket → Outcome Bool
    probe_target none = throw not_connected
    probe_target (some b) = probe_answer (probe b)

    -- `checkBucketExists` leaves the state as it is.
    unfoldable pub check_bucket_exists : Nats → Outcome Bool
    unfolding probe_target probe_answer
    check_bucket_exists s = probe_target (target s.connection s.current_params)
