-- ===== src/Frame/Leaving.antt =====
-- What leaving the application leaves behind.
use nauts.Base.{◌≡◌, refl, none, [], ◌∷◌, Bool-cases, inl, inr}
use nauts.Base.Text.{Text, codes}
use nauts.Thrown.{Outcome}
use nauts.NatsService.{
  ConnectParams, ConnectOptions, Connection, KvBucket, Nats, Json, disconnect, target,
  check_bucket_exists, probe_target,
}
use nauts.NatsService.Sessions.{disconnect_clears}
use nauts.AuthGuard.{
  to_login, is_connected, verify_bucket, restore_session, bucket_decision, auth_guard,
}
use nauts.Frame.{Frame, logout}

module _ (json : Json ConnectParams) (dial : ConnectOptions → Outcome Connection)
    (to_lower : Text → Text) (probe : KvBucket → Outcome Unit) where
  unbound :
      (n : Nats) → n.connection ≡ none → verify_bucket json dial to_lower probe n ≡ (to_login, n)
  unfolding verify_bucket check_bucket_exists target probe_target bucket_decision
  unbound n h = rw h refl

  -- After logging out, whatever the state before, the frame goes to the login page and the guard of every
  -- other route sends there, without asking the client library for a connection: the state of the
  -- connection stays as the logout left it.
  pub logout_guarded :
      (n : Nats) (f : Frame)
      → ((logout n f).1.route ≡ codes "/login" ∷ [])
        × (auth_guard json dial to_lower probe (logout n f).0 ≡ (to_login, (logout n f).0))
  unfolding logout auth_guard
  logout_guarded n f =
      let (gone, cleared, forgotten, status) = disconnect_clears json n in
      (
        refl,
        elim (Bool-cases (is_connected (disconnect n).connection_status)) [
          | inl e ↦ rw e (unbound (disconnect n) gone)
          | inr e ↦ rw (e, forgotten) (unfold restore_session in refl)
        ],
      )
