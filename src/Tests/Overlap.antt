-- ===== src/Tests/Overlap.antt =====
-- The theorems on overlapping calls of the connection at concrete inputs.
use nauts.Base.{◌≡◌, refl, none, some, [], ◌∷◌}
use nauts.Base.Text.{codes}
use nauts.Thrown.{ok}
use nauts.NatsService.{connected, ConnectParams, KvBucket, get_kv_bucket}
use nauts.NatsService.Overlap.{
  Shared, loaded, connect_started, dial_answered, disconnect_started, open_answered, here, next,
  starting, dialed, resuming, dropping, dialing, settled, Takes, first, drop_connection,
}
use nauts.NatsService.Overlap.Invariant.{IsTracked, Reach-IsTracked}
use nauts.NatsService.Overlap.Races.{comes_up, disconnect_undone, stale_bucket}
use nauts.Tests.Coder.{params_json, write_params}
use nauts.Tests.Sessions.{local, open_all}

abbrev start : Shared
start = loaded none

abbrev elsewhere : ConnectParams
elsewhere = record local { bucket = codes "other" }

abbrev local_bucket : KvBucket
local_bucket = record { connection = 1; bucket = codes "nauts" }

abbrev asked : Shared
asked = connect_started local start

-- A page that asks for a connection and leaves before it comes up.
abbrev left : Shared
left = comes_up params_json local 1 [] (disconnect_started asked)

asked_calls : Takes (dialing local) asked.calls []
unfolding connect_started
asked_calls = first

left_calls : Takes (dialing local) (disconnect_started asked).calls []
unfolding connect_started disconnect_started drop_connection
left_calls = first

left_settled :
    Takes
      (settled local (ok tt))
      (dial_answered local [] (ok 1) (disconnect_started asked)).calls
      []
unfolding dial_answered
left_settled = first

Reach-IsTracked_example : IsTracked left
Reach-IsTracked_example = Reach-IsTracked params_json none (
    next
      (next (next (next here (starting local start)) (dropping asked))
        (dialed local [] (ok 1) (disconnect_started asked) left_calls))
      (resuming local (ok tt) [] (dial_answered local [] (ok 1) (disconnect_started asked))
        left_settled))

disconnect_undone_example :
    Takes (dialing local) (disconnect_started asked).calls []
    × ((disconnect_started asked).nats.session ≡ none)
    × (left.nats.connection ≡ some 1)
    × (left.nats.connection_status ≡ connected)
    × (left.nats.session ≡ some (write_params local))
disconnect_undone_example =
    disconnect_undone params_json local 1 [] asked asked_calls (unfold connect_started in refl)

-- A connected page that asks for its bucket.
abbrev asking : Shared
asking = record start {
  nats = record start.nats {
    connection = some 1;
    current_params = some local;
    connection_status = connected;
  };
  opening = local_bucket ∷ [];
  made = 1 ∷ [];
}

stale_bucket_example :
    let late = open_answered local_bucket [] (ok tt) (disconnect_started asking) in
    let m = comes_up params_json elsewhere 2 [] (connect_started elsewhere late) in
    ((connect_started elsewhere late).calls ≡ dialing elsewhere ∷ [])
    × (m.nats.connection ≡ some 2)
    × (m.nats.current_params ≡ some elsewhere)
    × ((get_kv_bucket open_all m.nats).0 ≡ ok local_bucket)
stale_bucket_example = stale_bucket params_json elsewhere 2 local_bucket [] open_all asking refl
