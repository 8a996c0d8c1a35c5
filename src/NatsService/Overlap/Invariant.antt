-- ===== src/NatsService/Overlap/Invariant.antt =====
-- What holds in every interleaving of the calls of the connection.
use nauts.Base.{
  false, sym, [], ◌∷◌, ◌≡◌, refl, subst, true, Option, none, some, some-injective, List, In,
  is_some, is_some-false, if_both, ℕ, zero, suc,
}
use nauts.Base.Text.{Text}
use nauts.Thrown.{Outcome, ok, throw}
use nauts.NatsService.{
  ConnectParams, Connection, KvBucket, Json, connect_end, target, open_answer, StatusEvent,
  reconnecting_event, reconnect_event, disconnect_event, other_event, on_status,
}
use nauts.NatsService.Overlap.{
  Call, dialing, settled, Shared, connect_started, dial_answered, connect_resumed, drop_connection,
  disconnect_started, drain_ended, disconnect_resumed, status_told, open_started, create_started,
  get_started, open_answered, Takes, Step, starting, dialed, resuming, dropping, drained,
  heard_status, creating, getting, bucket_opened, Reach, here, next, loaded,
}
use nauts.NatsService.Overlap.Tracked.{
  Asked, Asked-idle, Asked-alone, Tracked, Bound, Bound-logged, Bound-target, Takes-In,
  Tracked-logged, Asked-none, Tracked-none, Tracked-dropped,
}

pub record IsTracked (n : Shared) : Type 0 where
  pub known : is_some n.nats.connection ≡ true → is_some n.nats.current_params ≡ true
  pub asked : Asked n.promised n.calls n.nats.connection n.nats.current_params
  pub tracked : Tracked n.nats.connection n.made n.dropped
  pub bound : Bound n.nats.kv_bucket n.opening n.made

loaded-IsTracked : (session : Option Text) → IsTracked (loaded session)
loaded-IsTracked session = record {
  known = λ h. cc;
  asked = refl;
  tracked = record { kept = λ k m. absurd m; held = λ k h. cc };
  bound = record { at_hand = λ k h. cc; asked_for = λ k m. absurd m };
}

connect_started-IsTracked :
    (p : ConnectParams) (n : Shared) → IsTracked n → IsTracked (connect_started p n)
unfolding connect_started
connect_started-IsTracked p n v =
    if_both IsTracked (is_some n.nats.connection) (λ h. v)
      (λ gone.
        if_both IsTracked n.promised (λ h. v)
          (λ alone.
            let none_waits =
              Asked-idle n.promised n.calls n.nats.connection n.nats.current_params alone v.asked in
            record {
              known = λ h. refl;
              asked =
                  subst (λ cs. Asked true (dialing p ∷ cs) n.nats.connection (some p))
                    (sym none_waits) (refl, is_some-false n.nats.connection gone, refl);
              tracked = v.tracked;
              bound = v.bound;
            }))

dial_answered-IsTracked :
    (p : ConnectParams) (rest : List Call) (answer : Outcome Connection) (n : Shared)
    → Takes (dialing p) n.calls rest
    → IsTracked n
    → IsTracked (dial_answered p rest answer n)
unfolding dial_answered
dial_answered-IsTracked p rest answer n t v =
    let (alone, (b, gone, params)) =
      Asked-alone n.promised n.nats.connection n.nats.current_params t v.asked in
    by answer alone b gone params
  where
    by :
        (answer : Outcome Connection)
        → rest ≡ []
        → n.promised ≡ true
        → n.nats.connection ≡ none
        → n.nats.current_params ≡ some p
        → IsTracked (dial_answered p rest answer n)
    by (ok k) alone b gone params = record {
      known = λ h. rw params refl;
      asked =
          subst (λ cs. Asked n.promised (settled p (ok tt) ∷ cs) (some k) n.nats.current_params)
            (sym alone) (b, params);
      tracked = Tracked-logged (ok k) n.nats.connection n.made n.dropped gone v.tracked;
      bound = Bound-logged n.nats.kv_bucket n.opening n.made (ok k) v.bound;
    }
    by (throw x) alone b gone params = record {
      known = v.known;
      asked =
          subst
            (λ cs.
              Asked n.promised (settled p (throw x) ∷ cs) n.nats.connection n.nats.current_params)
            (sym alone) (b, params);
      tracked = v.tracked;
      bound = v.bound;
    }

connect_resumed-IsTracked :
    (json : Json ConnectParams) (p : ConnectParams) (r : Outcome Unit) (rest : List Call)
    (n : Shared)
    → Takes (settled p r) n.calls rest
    → IsTracked n
    → IsTracked (connect_resumed json p r rest n)
unfolding connect_resumed connect_end
connect_resumed-IsTracked json p r rest n t v =
    let (alone, asked) = Asked-alone n.promised n.nats.connection n.nats.current_params t v.asked in
    by r (subst (λ cs. Asked false cs n.nats.connection n.nats.current_params) (sym alone) refl)
  where
    by :
        (r : Outcome Unit)
        → Asked false rest n.nats.connection n.nats.current_params
        → IsTracked (connect_resumed json p r rest n)
    by (ok u) a = record { known = v.known; asked = a; tracked = v.tracked; bound = v.bound }
    by (throw x) a = record { known = v.known; asked = a; tracked = v.tracked; bound = v.bound }

disconnect_started-IsTracked : (n : Shared) → IsTracked n → IsTracked (disconnect_started n)
unfolding disconnect_started
disconnect_started-IsTracked n v = by n.nats.connection refl
  where
    at_hand : (k : KvBucket) → ◌≡◌ {A = Option KvBucket} none (some k) → In k.connection n.made
    at_hand k h = cc

    by :
        (o : Option Connection)
        → n.nats.connection ≡ o
        → IsTracked (
            drop_connection o (record n {
              nats = record n.nats { connection = none; kv_bucket = none; session = none };
            }))
    by none e =
        unfold drop_connection in
        record {
          known = λ h. cc;
          asked = Asked-none n.promised n.calls n.nats.connection n.nats.current_params v.asked;
          tracked = Tracked-none n.nats.connection n.made n.dropped e v.tracked;
          bound = record { at_hand = at_hand; asked_for = v.bound.asked_for };
        }
    by (some c) e =
        unfold drop_connection in
        record {
          known = λ h. cc;
          asked = Asked-none n.promised n.calls n.nats.connection n.nats.current_params v.asked;
          tracked = Tracked-dropped c n.nats.connection n.made n.dropped e v.tracked;
          bound = record { at_hand = at_hand; asked_for = v.bound.asked_for };
        }

disconnect_resumed-IsTracked : (n : Shared) → IsTracked n → IsTracked (disconnect_resumed n)
unfolding disconnect_resumed
disconnect_resumed-IsTracked n v = by n.draining
  where
    by : (k : ℕ) → IsTracked (drain_ended k n)
    by zero = unfold drain_ended in v
    by (suc k) =
        unfold drain_ended in
        record { known = v.known; asked = v.asked; tracked = v.tracked; bound = v.bound }

status_told-IsTracked : (e : StatusEvent) (n : Shared) → IsTracked n → IsTracked (status_told e n)
unfolding status_told on_status
status_told-IsTracked reconnecting_event n v = record {
  known = v.known;
  asked = v.asked;
  tracked = v.tracked;
  bound = v.bound;
}
status_told-IsTracked disconnect_event n v = record {
  known = v.known;
  asked = v.asked;
  tracked = v.tracked;
  bound = v.bound;
}
status_told-IsTracked other_event n v = v
status_told-IsTracked reconnect_event n v = record {
  known = v.known;
  asked = v.asked;
  tracked = v.tracked;
  bound = record { at_hand = λ k h. cc; asked_for = v.bound.asked_for };
}

create_started-IsTracked : (n : Shared) → IsTracked n → IsTracked (create_started n)
unfolding create_started
create_started-IsTracked n v = by (target n.nats.connection n.nats.current_params) refl
  where
    by :
        (o : Option KvBucket)
        → target n.nats.connection n.nats.current_params ≡ o
        → IsTracked (open_started o n)
    by none e = unfold open_started in v
    by (some k) e =
        unfold open_started in
        record {
          known = v.known;
          asked = v.asked;
          tracked = v.tracked;
          bound =
              Bound-target n.nats.kv_bucket n.opening n.made n.dropped n.nats.connection
                n.nats.current_params v.tracked v.bound k e;
        }

get_started-IsTracked : (n : Shared) → IsTracked n → IsTracked (get_started n)
unfolding get_started
get_started-IsTracked n v =
    if_both IsTracked (is_some n.nats.kv_bucket) (λ h. v) (λ h. create_started-IsTracked n v)

open_answered-IsTracked :
    (b : KvBucket) (rest : List KvBucket) (answer : Outcome Unit) (n : Shared)
    → Takes b n.opening rest
    → IsTracked n
    → IsTracked (open_answered b rest answer n)
unfolding open_answered open_answer
open_answered-IsTracked b rest (ok u) n t v =
    let (m, more) = Takes-In t in
    record {
      known = v.known;
      asked = v.asked;
      tracked = v.tracked;
      bound = record {
        at_hand = λ k h. rw⁻¹ (some-injective b k h) (v.bound.asked_for b m);
        asked_for = λ k i. v.bound.asked_for k (more k i);
      };
    }
open_answered-IsTracked b rest (throw e) n t v =
    let (m, more) = Takes-In t in
    record {
      known = v.known;
      asked = v.asked;
      tracked = v.tracked;
      bound = record {
        at_hand = v.bound.at_hand;
        asked_for = λ k i. v.bound.asked_for k (more k i);
      };
    }

module _ (json : Json ConnectParams) where
  Step-IsTracked : {n m : Shared} → Step json n m → IsTracked n → IsTracked m
  Step-IsTracked (starting p n) v = connect_started-IsTracked p n v
  Step-IsTracked (dialed p rest answer n t) v = dial_answered-IsTracked p rest answer n t v
  Step-IsTracked (resuming p r rest n t) v = connect_resumed-IsTracked json p r rest n t v
  Step-IsTracked (dropping n) v = disconnect_started-IsTracked n v
  Step-IsTracked (drained n) v = disconnect_resumed-IsTracked n v
  Step-IsTracked (heard_status e n) v = status_told-IsTracked e n v
  Step-IsTracked (creating n) v = create_started-IsTracked n v
  Step-IsTracked (getting n) v = get_started-IsTracked n v
  Step-IsTracked (bucket_opened b rest answer n t) v = open_answered-IsTracked b rest answer n t v

  -- In every interleaving of the calls of the connection and its events, from a page just loaded: at
  -- most one call of `connect` waits, and the promise is set exactly while one does; a connection has
  -- its parameters, there is none while the client library is asked for one, each
  -- connection that was made is the one at hand or was dropped, the one at hand was made, and the
  -- buckets at hand and asked for are over connections that were made.
  pub Reach-IsTracked :
      (session : Option Text) {n : Shared} → Reach json (loaded session) n → IsTracked n
  Reach-IsTracked session here = loaded-IsTracked session
  Reach-IsTracked session (next r st) = Step-IsTracked st (Reach-IsTracked session r)
