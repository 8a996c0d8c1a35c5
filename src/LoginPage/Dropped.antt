-- ===== src/LoginPage/Dropped.antt =====
-- Logging in again after the connection was lost.
use nauts.Base.{◌≡◌, refl, ap, ◌∙◌, true, some}
use nauts.Base.Text.{Text}
use nauts.Thrown.{Outcome, ok}
use nauts.NatsService.{
  ConnectParams, ConnectOptions, Connection, KvBucket, Nats, Json, disconnect_event, on_status,
  check_bucket_exists, probe_answer,
}
use nauts.NatsService.Sessions.{connect_after_drop}
use nauts.LoginPage.{LoginPage, params_of, started, bucket_checked, connection_tried, on_connect}
use nauts.LoginPage.Flow.{check_bucket_exists-target}

module _ (json : Json ConnectParams) (dial : ConnectOptions → Outcome Connection)
    (to_lower : Text → Text) (probe : KvBucket → Outcome Unit) where
  on_connect-dropped :
      (p : LoginPage) (n : Nats) (c : Connection)
      → n.connection ≡ some c
      → on_connect json dial to_lower probe p (on_status disconnect_event n)
        ≡ connection_tried json dial to_lower probe
            (ok tt)
            (started p)
            (on_status disconnect_event n)
  unfolding on_connect
  on_connect-dropped p n c e =
      ap (λ a. connection_tried json dial to_lower probe a.0 (started p) a.1)
        (connect_after_drop json dial (params_of (started p)) n c e).0

  -- Where the client library has reported that the connection is lost and its bucket answers all the
  -- same, logging in with any form enters over the old connection and parameters: the state of the
  -- connection, with its status "disconnected", stays as it was.
  pub login_after_drop :
      (p : LoginPage) (n : Nats) (c : Connection) (old : ConnectParams)
      → n.connection ≡ some c
      → n.current_params ≡ some old
      → probe (record { connection = c; bucket = old.bucket }) ≡ ok tt
      → ((on_connect json dial to_lower probe p (on_status disconnect_event n)).0.entered ≡ true)
        × ((on_connect json dial to_lower probe p (on_status disconnect_event n)).1
            ≡ on_status disconnect_event n)
  login_after_drop p n c old e h answered =
      let dropped = on_status disconnect_event n in
      let known : check_bucket_exists to_lower probe dropped ≡ ok true =
        check_bucket_exists-target json dial to_lower probe dropped c old (unfold on_status in e)
          (unfold on_status in h)
        ∙ ap (probe_answer to_lower) answered
        ∙ unfold probe_answer in refl in
      rw (on_connect-dropped p n c e)
        (unfold connection_tried bucket_checked in rw known (refl, refl))
