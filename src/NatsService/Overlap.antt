-- ===== src/NatsService/Overlap.antt =====
-- Calls of ctrlp/src/app/services/nats.service.ts that overlap: each call is cut at its `await`s, and
-- between two cuts any other call or event may run. `promised` says that `connectPromise` is set;
-- `calls` are the calls of `connect` that wait, which the code is to keep to one. A connection is named by the client library; `made` and `dropped` list
-- the connections that it has handed out and those on which `drain` was called.
pub mod Invariant
pub mod Races
pub mod Tracked
use nauts.Base.{
  Option, none, some, Bool, true, false, List, [], ◌∷◌, ℕ, zero, suc, if◌then◌else◌, is_some,
}
use nauts.Thrown.{Outcome, ok, throw}
use nauts.Base.Text.{Text}
use nauts.NatsService.{
  initial, disconnected, ConnectParams, Connection, KvBucket, Nats, Json, do_connect_begin,
  do_connect_end, connect_end, target, open_answer, StatusEvent, on_status,
}

-- A call of `connect` with its parameters: the client library is asked, or has answered.
pub data Call : Type 0 where
  dialing : ConnectParams → Call
  settled : ConnectParams → Outcome Unit → Call

pub record Shared : Type 0 where
  pub nats : Nats
  pub promised : Bool
  pub calls : List Call
  pub opening : List KvBucket
  pub draining : ℕ
  pub made : List Connection
  pub dropped : List Connection

-- `connect` up to its wait: a call that finds another one waiting joins it.
unfoldable pub connect_started : ConnectParams → Shared → Shared
unfolding do_connect_begin
connect_started params n =
    if is_some n.nats.connection then n else if n.promised then n else record n {
      nats = (do_connect_begin params (record n.nats { current_params = some params })).1;
      promised = true;
      calls = dialing params ∷ n.calls;
    }

abbrev pub logged : Outcome Connection → List Connection → List Connection
logged (ok c) cs = c ∷ cs
logged (throw e) cs = cs

-- The client library answers the `doConnect` of a call, `rest` being the other calls that wait.
unfoldable pub dial_answered : ConnectParams → List Call → Outcome Connection → Shared → Shared
unfolding do_connect_end
dial_answered params rest answer n =
    let (r, t) = do_connect_end answer n.nats in
    record n { nats = t; calls = settled params r ∷ rest; made = logged answer n.made }

module _ (json : Json ConnectParams) where
  -- The call goes on: it saves the session on success, and drops the promise.
  unfoldable pub connect_resumed : ConnectParams → Outcome Unit → List Call → Shared → Shared
  connect_resumed params r rest n = record n {
    nats = (connect_end json params r n.nats).1;
    promised = false;
    calls = rest;
  }

-- `disconnect` up to its wait for the drain, of a connection where there is one.
unfoldable pub drop_connection : Option Connection → Shared → Shared
drop_connection none n = n
drop_connection (some c) n = record n { draining = suc n.draining; dropped = c ∷ n.dropped }

unfoldable pub disconnect_started : Shared → Shared
unfolding drop_connection
disconnect_started n =
    drop_connection n.nats.connection
      (record n { nats = record n.nats { connection = none; kv_bucket = none; session = none } })

-- A drain ends, well or not.
unfoldable pub drain_ended : ℕ → Shared → Shared
drain_ended zero n = n
drain_ended (suc k) n = record n {
  nats = record n.nats { connection_status = disconnected };
  draining = k;
}

unfoldable pub disconnect_resumed : Shared → Shared
unfolding drain_ended
disconnect_resumed n = drain_ended n.draining n

unfoldable pub status_told : StatusEvent → Shared → Shared
status_told e n = record n { nats = on_status e n.nats }

-- `createBucket` up to its wait, and `getKvBucket` where it finds no bucket at hand.
unfoldable pub open_started : Option KvBucket → Shared → Shared
open_started none n = n
open_started (some b) n = record n { opening = b ∷ n.opening }

unfoldable pub create_started : Shared → Shared
unfolding open_started
create_started n = open_started (target n.nats.connection n.nats.current_params) n

unfoldable pub get_started : Shared → Shared
unfolding create_started
get_started n = if is_some n.nats.kv_bucket then n else create_started n

-- One of the waiting calls for a bucket is answered, `rest` being the others that wait.
unfoldable pub open_answered : KvBucket → List KvBucket → Outcome Unit → Shared → Shared
unfolding open_answer
open_answered b rest answer n = record n { nats = (open_answer b answer n.nats).1; opening = rest }

-- `Takes b bs rest`: without one `b` the list `bs` is `rest`.
pub data Takes {A : Type 0} (b : A) : List A → List A → Type 0 where
  first : {bs : List A} → Takes b (b ∷ bs) bs
  behind : {bs rest : List A} (a : A) → Takes b bs rest → Takes b (a ∷ bs) (a ∷ rest)

module _ (json : Json ConnectParams) where
  pub data Step : Shared → Shared → Type 0 where
    starting : (p : ConnectParams) (n : Shared) → Step n (connect_started p n)
    dialed :
        (p : ConnectParams) (rest : List Call) (answer : Outcome Connection) (n : Shared)
        → Takes (dialing p) n.calls rest
        → Step n (dial_answered p rest answer n)
    resuming :
        (p : ConnectParams) (r : Outcome Unit) (rest : List Call) (n : Shared)
        → Takes (settled p r) n.calls rest
        → Step n (connect_resumed json p r rest n)
    dropping : (n : Shared) → Step n (disconnect_started n)
    drained : (n : Shared) → Step n (disconnect_resumed n)
    heard_status : (e : StatusEvent) (n : Shared) → Step n (status_told e n)
    creating : (n : Shared) → Step n (create_started n)
    getting : (n : Shared) → Step n (get_started n)
    bucket_opened :
        (b : KvBucket) (rest : List KvBucket) (answer : Outcome Unit) (n : Shared)
        → Takes b n.opening rest
        → Step n (open_answered b rest answer n)

  pub data Reach (n : Shared) : Shared → Type 0 where
    here : Reach n n
    next : {m o : Shared} → Reach n m → Step m o → Reach n o

-- A page that is just loaded, with a session saved or not.
abbrev pub loaded : Option Text → Shared
loaded session = record {
  nats = record initial { session = session };
  promised = false;
  calls = [];
  opening = [];
  draining = 0;
  made = [];
  dropped = [];
}
