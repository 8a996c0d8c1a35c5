-- ===== src/AuthGuard.antt =====
-- The guard of the protected routes: ctrlp/src/app/guards/auth.guard.ts. It answers with going on
-- or with a redirection to the login page.
pub mod Decisions
use nauts.Base.{◌≡◌, Bool, true, false, Option, none, some, List, [], ◌∷◌, if◌then◌else◌}
use nauts.Base.Text.{Text}
use nauts.Thrown.{Thrown, Outcome, ok, throw}
use nauts.NatsService.{
  ConnectionStatus, connected, ConnectParams, ConnectOptions, Connection, KvBucket, Nats, Json,
  get_saved_params, connect, check_bucket_exists,
}

pub data Decision : Type 0 where
  proceed : Decision
  to_login : Decision
  to_login_bucket_missing : Decision

unfoldable pub is_connected : ConnectionStatus → Bool
is_connected connected = true
is_connected _ = false

-- The answer of `checkBucketExists`, which the guard asks for in any case.
unfoldable pub bucket_decision : Outcome Bool → Decision
bucket_decision (ok true) = proceed
bucket_decision (ok false) = to_login_bucket_missing
bucket_decision (throw e) = to_login

module _ (json : Json ConnectParams) (dial : ConnectOptions → Outcome Connection)
    (to_lower : Text → Text) (probe : KvBucket → Outcome Unit) where
  unfoldable pub verify_bucket : Nats → Decision × Nats
  verify_bucket s = (bucket_decision (check_bucket_exists to_lower probe s), s)

  unfoldable pub after_connect : Outcome Unit → Nats → Decision × Nats
  after_connect (ok u) s = verify_bucket s
  after_connect (throw e) s = (to_login, s)

  unfoldable pub restore_session : Option ConnectParams → Nats → Decision × Nats
  restore_session none s = (to_login, s)
  restore_session (some saved) s = let (r, t) = connect json dial saved s in after_connect r t

  unfoldable pub auth_guard : Nats → Decision × Nats
  auth_guard s =
      if is_connected s.connection_status
      then verify_bucket s
      else restore_session (get_saved_params json s) s
