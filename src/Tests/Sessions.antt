-- ===== src/Tests/Sessions.antt =====
-- The theorems on the connection and on the guard at concrete inputs.
use nauts.Base.{◌≡◌, refl, some}
use nauts.Base.Text.{Text, codes}
use nauts.Thrown.{Thrown, throw, Outcome, ok}
use nauts.NatsService.{
  connected, nkey, ConnectParams, ConnectOptions, Connection, KvBucket, Nats, initial, parse_saved,
  get_saved_params, connect, target, get_kv_bucket, on_status, reconnect_event, disconnect,
  not_connected, connect_fresh, connect_end,
}
use nauts.NatsService.Sessions.{reopened}
use nauts.Tests.Coder.{
  params_json, write_params, write_text, read_text, write_auth, read_auth, params_of, read_params,
}
use nauts.AuthGuard.{auth_guard, proceed, is_connected}
use nauts.AuthGuard.Decisions.{IsJustified, auth_guard-IsJustified, auth_guard_restores}

abbrev pub local : ConnectParams
local = record {
  url = codes "ws://localhost:8080";
  bucket = codes "nauts";
  auth = nkey (codes "SU");
}

abbrev pub dial_up : ConnectOptions → Outcome Connection
dial_up options = ok 1

abbrev pub open_all : KvBucket → Outcome Unit
open_all b = ok tt

abbrev live : Nats
live = record initial {
  connection = some 1;
  current_params = some local;
  connection_status = connected;
}

abbrev first : Nats
first = (connect params_json dial_up local initial).1

first_target :
    target first.connection first.current_params
    ≡ some (record { connection = 1; bucket = codes "nauts" })
unfolding connect connect_fresh connect_end target
first_target = refl

reopened_example :
    let b : KvBucket = record { connection = 1; bucket = codes "nauts" } in
    ((u : Unit {0})
      → open_all b ≡ ok u
      → (get_kv_bucket open_all (on_status reconnect_event first)).0 ≡ ok b)
    × ((e : Thrown)
        → open_all b ≡ throw e
        → (get_kv_bucket open_all (on_status reconnect_event first)).0 ≡ throw e)
    × ((get_kv_bucket open_all (disconnect first)).0 ≡ throw not_connected)
reopened_example =
    reopened open_all (record { connection = 1; bucket = codes "nauts" }) first first_target

abbrev pub lower : Text → Text
lower t = t

auth_guard-IsJustified_example :
    IsJustified params_json dial_up lower open_all
      (auth_guard params_json dial_up lower open_all live).0
      (auth_guard params_json dial_up lower open_all live).1
auth_guard-IsJustified_example = auth_guard-IsJustified params_json dial_up lower open_all live

abbrev saved : Nats
saved = record initial { session = some (write_params local) }

saved_params : get_saved_params params_json saved ≡ some local
unfolding get_saved_params parse_saved write_params write_text read_params read_text write_auth
    read_auth params_of
saved_params = refl

auth_guard_restores_example : (auth_guard params_json dial_up lower open_all saved).0 ≡ proceed
auth_guard_restores_example =
    auth_guard_restores params_json dial_up lower open_all saved local 1
      (unfold is_connected in refl) refl refl saved_params refl refl
