-- ===== src/NatsService/Overlap/Races.antt =====
-- What particular interleavings of the calls of the connection come to.
use nauts.Base.{true, false, ◌≡◌, refl, ◌∙◌, ap, none, some, List, ◌∷◌}
use nauts.Thrown.{Outcome, ok}
use nauts.NatsService.{
  connected, connecting, ConnectParams, Connection, KvBucket, Json, connect_end, open_answer,
  get_kv_bucket, bucket_or_open,
}
use nauts.NatsService.Overlap.Tracked.{drop_connection-keeps}
use nauts.NatsService.Overlap.{
  Call, dialing, Takes, Shared, connect_started, dial_answered, connect_resumed, drop_connection,
  disconnect_started, open_answered,
}

-- A call that finds neither a connection nor a call waiting.
started_idle :
    (p : ConnectParams) (n : Shared)
    → n.promised ≡ false
    → n.nats.connection ≡ none
    → connect_started p n ≡ record n {
      nats = record n.nats { current_params = some p; connection_status = connecting };
      promised = true;
      calls = dialing p ∷ n.calls;
    }
unfolding connect_started
started_idle p n w k = simp (w, k)

module _ (json : Json ConnectParams) where
  -- A call whose `doConnect` is answered with a connection, and then goes on, the others waiting.
  abbrev pub comes_up : ConnectParams → Connection → List Call → Shared → Shared
  comes_up p c rest n = connect_resumed json p (ok tt) rest (dial_answered p rest (ok c) n)

  answered-ok :
      (p : ConnectParams) (c : Connection) (rest : List Call) (n : Shared)
      → comes_up p c rest n ≡ record n {
        nats = record n.nats {
          connection = some c;
          connect_promise = none;
          connection_status = connected;
          session = some (json.stringify p);
        };
        promised = false;
        calls = rest;
        made = c ∷ n.made;
      }
  unfolding connect_resumed dial_answered connect_end
  answered-ok p c rest n = refl

  -- Where neither a connection nor a call is there, a second call of `connect` with other
  -- parameters, made while the first waits, joins it: its own parameters are neither kept nor saved.
  second_call :
      (p q : ConnectParams) (c : Connection) (n : Shared)
      → n.promised ≡ false
      → n.nats.connection ≡ none
      → let m = comes_up p c n.calls (connect_started q (connect_started p n)) in
        ((connect_started q (connect_started p n)).calls ≡ dialing p ∷ n.calls)
        × (m.nats.connection ≡ some c)
        × (m.nats.current_params ≡ some p)
        × (m.nats.session ≡ some (json.stringify p))
  second_call p q c n w k =
      let m = record n {
        nats = record n.nats { current_params = some p; connection_status = connecting };
        promised = true;
        calls = dialing p ∷ n.calls;
      } in
      let joined : connect_started q m ≡ m = unfold connect_started in simp k in
      rw (started_idle p n w k)
        (rw joined (rw (answered-ok p c n.calls m) (refl, refl, refl, refl)))

  -- While the client library is asked to connect and there is no connection, a disconnect does not
  -- hold: the call waits on, and once the connection comes up the status is "connected", the
  -- connection is there, and the session that the disconnect removed is saved again.
  pub disconnect_undone :
      (p : ConnectParams) (c : Connection) (rest : List Call) (n : Shared)
      → Takes (dialing p) n.calls rest
      → n.nats.connection ≡ none
      → let m = comes_up p c rest (disconnect_started n) in
        Takes (dialing p) (disconnect_started n).calls rest
        × ((disconnect_started n).nats.session ≡ none)
        × (m.nats.connection ≡ some c)
        × (m.nats.connection_status ≡ connected)
        × (m.nats.session ≡ some (json.stringify p))
  unfolding disconnect_started drop_connection connect_resumed dial_answered connect_end
  disconnect_undone p c rest n w k = rw k (w, refl, refl, refl, refl)

  late_bucket :
      (b : KvBucket) (rest : List KvBucket) (n : Shared)
      → let m = open_answered b rest (ok tt) (disconnect_started n) in
        (m.promised ≡ n.promised)
        × (m.calls ≡ n.calls)
        × (m.nats.connection ≡ none)
        × (m.nats.kv_bucket ≡ some b)
  unfolding open_answered open_answer disconnect_started
  late_bucket b rest n =
      let gone = record n {
        nats = record n.nats { connection = none; kv_bucket = none; session = none };
      } in
      let (nats, promised, calls, opening, made) = drop_connection-keeps n.nats.connection gone in
      (promised, calls, ap (λ t. t.connection) nats, refl)

  -- A bucket for which `getKvBucket` waits while `disconnect` is called is kept all the same: where
  -- no call of `connect` waits, the next connection, with any parameters, comes up with that bucket
  -- at hand, and `getKvBucket` hands it out.
  pub stale_bucket :
      (p : ConnectParams) (c : Connection) (b : KvBucket) (rest : List KvBucket)
      (open_bucket : KvBucket → Outcome Unit) (n : Shared)
      → n.promised ≡ false
      → let late = open_answered b rest (ok tt) (disconnect_started n) in
        let m = comes_up p c n.calls (connect_started p late) in
        ((connect_started p late).calls ≡ dialing p ∷ n.calls)
        × (m.nats.connection ≡ some c)
        × (m.nats.current_params ≡ some p)
        × ((get_kv_bucket open_bucket m.nats).0 ≡ ok b)
  unfolding get_kv_bucket bucket_or_open
  stale_bucket p c b rest open_bucket n w =
      let late = open_answered b rest (ok tt) (disconnect_started n) in
      let (v, w2, k, at_hand) = late_bucket b rest n in
      let m = record late {
        nats = record late.nats { current_params = some p; connection_status = connecting };
        promised = true;
        calls = dialing p ∷ late.calls;
      } in
      rw (started_idle p late (v ∙ w) k)
        (rw (answered-ok p c n.calls m) (ap (λ cs. dialing p ∷ cs) w2, refl, refl, rw at_hand refl))
