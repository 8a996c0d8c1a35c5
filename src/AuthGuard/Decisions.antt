-- ===== src/AuthGuard/Decisions.antt =====
-- What the guard has seen where it lets a route be entered, or says that the bucket is missing.
use nauts.Base.{◌≡◌, refl, true, false, Option, none, some, Bool-cases, inl, inr}
use nauts.Base.Text.{Text}
use nauts.Thrown.{Thrown, Outcome, ok, throw}
use nauts.NatsService.{
  ConnectParams, ConnectOptions, Connection, KvBucket, Nats, Json, get_saved_params, connect,
  options_of, check_bucket_exists, probe_target, probe_answer, target,
}
use nauts.NatsService.Errors.{is_bucket_not_found}
use nauts.NatsService.Sessions.{connect_up}
use nauts.AuthGuard.{
  Decision, proceed, to_login, to_login_bucket_missing, is_connected, bucket_decision,
  verify_bucket, after_connect, restore_session, auth_guard,
}

module _ (json : Json ConnectParams) (dial : ConnectOptions → Outcome Connection)
    (to_lower : Text → Text) (probe : KvBucket → Outcome Unit) where
  -- The bucket of the state has been asked for, and the answer bears the decision out.
  abbrev pub IsJustified : Decision → Nats → Type 0
  IsJustified proceed s =
      (b : KvBucket) × (target s.connection s.current_params ≡ some b) × (probe b ≡ ok tt)
  IsJustified to_login_bucket_missing s =
      (b : KvBucket) × (e : Thrown) × (target s.connection s.current_params ≡ some b)
      × (probe b ≡ throw e)
      × (is_bucket_not_found to_lower e ≡ true)
  IsJustified to_login s = Unit

  answer-IsJustified :
      (b : KvBucket) (s : Nats) (o : Outcome Unit)
      → target s.connection s.current_params ≡ some b
      → probe b ≡ o
      → IsJustified (bucket_decision (probe_answer to_lower o)) s
  answer-IsJustified b s (ok u) t h = unfold bucket_decision probe_answer in (b, t, h)
  answer-IsJustified b s (throw e) t h = elim (Bool-cases (is_bucket_not_found to_lower e)) [
    | inl m ↦ unfold bucket_decision probe_answer in rw m (b, e, t, h, m)
    | inr m ↦ unfold bucket_decision probe_answer in rw m tt
  ]

  target-IsJustified :
      (t : Option KvBucket) (s : Nats)
      → target s.connection s.current_params ≡ t
      → IsJustified (bucket_decision (probe_target to_lower probe t)) s
  target-IsJustified none s h = unfold bucket_decision probe_target in tt
  target-IsJustified (some b) s h = unfold probe_target in answer-IsJustified b s (probe b) h refl

  verify-IsJustified :
      (s : Nats)
      → IsJustified
          (verify_bucket json dial to_lower probe s).0
          (verify_bucket json dial to_lower probe s).1
  unfolding verify_bucket check_bucket_exists
  verify-IsJustified s = target-IsJustified (target s.connection s.current_params) s refl

  after_connect-IsJustified :
      (r : Outcome Unit) (s : Nats)
      → IsJustified
          (after_connect json dial to_lower probe r s).0
          (after_connect json dial to_lower probe r s).1
  unfolding after_connect
  after_connect-IsJustified (ok u) s = verify-IsJustified s
  after_connect-IsJustified (throw e) s = tt

  restore-IsJustified :
      (o : Option ConnectParams) (s : Nats)
      → IsJustified
          (restore_session json dial to_lower probe o s).0
          (restore_session json dial to_lower probe o s).1
  unfolding restore_session
  restore-IsJustified none s = tt
  restore-IsJustified (some p) s =
      after_connect-IsJustified (connect json dial p s).0 (connect json dial p s).1

  -- A route is entered only where the bucket that the state after the guard names was asked for and
  -- answered, and the page for a missing bucket is shown only where that bucket was not found.
  pub auth_guard-IsJustified :
      (s : Nats)
      → IsJustified
          (auth_guard json dial to_lower probe s).0
          (auth_guard json dial to_lower probe s).1
  unfolding auth_guard
  auth_guard-IsJustified s = elim (Bool-cases (is_connected s.connection_status)) [
    | inl e ↦ rw e (verify-IsJustified s)
    | inr e ↦ rw e (restore-IsJustified (get_saved_params json s) s)
  ]

  -- Without a connection, a call that waits or a status "connected", a saved session that comes up
  -- and whose bucket answers lets the route be entered.
  pub auth_guard_restores :
      (s : Nats) (p : ConnectParams) (c : Connection)
      → is_connected s.connection_status ≡ false
      → s.connection ≡ none
      → s.connect_promise ≡ none
      → get_saved_params json s ≡ some p
      → dial (options_of p) ≡ ok c
      → probe (record { connection = c; bucket = p.bucket }) ≡ ok tt
      → (auth_guard json dial to_lower probe s).0 ≡ proceed
  auth_guard_restores s p c n e h g d b =
      let up = connect_up json dial p s c e h d in
      unfold auth_guard restore_session after_connect verify_bucket check_bucket_exists in
      simp (n, g, up.0, up.1, up.3)
        (unfold target probe_target in simp b (unfold probe_answer bucket_decision in refl))
