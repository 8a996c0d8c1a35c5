-- ===== src/LoginPage/Flow.antt =====
-- Logging in, from the form to the policies or back to the form.
use nauts.Base.{
  ◌≡◌, ◌⊎◌, inl, inr, refl, ap, ap₂, ◌∙◌, true, false, Option, none, some, [], Bool-cases,
}
use nauts.Base.Text.{Text}
use nauts.Thrown.{Thrown, Outcome, ok, throw}
use nauts.NatsService.{
  AuthMethod, nkey, creds, ConnectParams, ConnectOptions, Connection, KvBucket, Nats, Json,
  options_of, get_saved_params, connect, disconnect, create_bucket, open_target, open_answer,
  target, check_bucket_exists, probe_target, probe_answer,
}
use nauts.NatsService.Errors.{is_bucket_not_found, describe_nats_error}
use nauts.NatsService.Sessions.{connect_up, disconnect_clears}
use nauts.LoginPage.{
  LoginPage, failed, blank, construct, show_saved, show_auth, says_true, params_of,
  build_auth_method, started, bucket_checked, connection_tried, on_connect, bucket_created,
  on_initialize,
}

abbrev pub IsKeyed : AuthMethod → Type 0
IsKeyed a = ((seed : Text) × (a ≡ nkey seed)) ⊎ ((contents : Text) × (a ≡ creds contents))

shown_auth : (a : AuthMethod) (p : LoginPage) → IsKeyed a → build_auth_method (show_auth a p) ≡ a
unfolding build_auth_method show_auth
shown_auth a p (inl (seed, e)) = rw e refl
shown_auth a p (inr (contents, e)) = rw e refl

shown_saved :
    (saved : ConnectParams) (p : LoginPage)
    → IsKeyed saved.auth
    → params_of (show_saved (some saved) p) ≡ saved
unfolding params_of show_saved
shown_saved saved p (inl (seed, e)) = unfold show_auth build_auth_method in rw e refl
shown_saved saved p (inr (contents, e)) = unfold show_auth build_auth_method in rw e refl

-- The form that a saved session with a seed or with credentials fills in connects with just that
-- session.
params_of-construct :
    (url bucket : Text) (saved : ConnectParams) (q : Option Text)
    → IsKeyed saved.auth
    → params_of (construct url bucket (some saved) q) ≡ saved
unfolding construct params_of build_auth_method
params_of-construct url bucket saved q k = elim (Bool-cases (says_true q)) [
  | inl e ↦ rw e (shown_saved saved (blank url bucket) k)
  | inr e ↦ rw e (shown_saved saved (blank url bucket) k)
]

module _ (json : Json ConnectParams) (dial : ConnectOptions → Outcome Connection)
    (to_lower : Text → Text) (probe : KvBucket → Outcome Unit) where
  pub check_bucket_exists-target :
      (m : Nats) (c : Connection) (params : ConnectParams)
      → m.connection ≡ some c
      → m.current_params ≡ some params
      → check_bucket_exists to_lower probe m
        ≡ probe_answer to_lower (probe (record { connection = c; bucket = params.bucket }))
  unfolding check_bucket_exists target probe_target
  check_bucket_exists-target m c params a b = rw (a, b) refl

  on_initialize-ok :
      (open_bucket : KvBucket → Outcome Unit) (q : LoginPage) (m : Nats) (b : KvBucket)
      → target m.connection m.current_params ≡ some b
      → open_bucket b ≡ ok tt
      → on_initialize open_bucket q m
        ≡ (record (started q) { entered = true; busy = false }, record m { kv_bucket = some b })
  unfolding on_initialize create_bucket open_target open_answer bucket_created
  on_initialize-ok open_bucket q m b t o = rw t (rw o refl)

  module _ (p : LoginPage) (n : Nats) (c : Connection) (e : n.connection ≡ none)
      (h : n.connect_promise ≡ none) (d : dial (options_of (params_of p)) ≡ ok c) where
    abbrev bucket_of : KvBucket
    bucket_of = record { connection = c; bucket = p.bucket }

    abbrev after : Nats
    after = (connect json dial (params_of p) n).1

    -- Once the connection is up, the answer about the bucket decides.
    on_connect-up :
        on_connect json dial to_lower probe p n
        ≡ bucket_checked (probe_answer to_lower (probe bucket_of)) (started p) after
    unfolding params_of
    on_connect-up =
        let up = connect_up json dial (params_of p) n c e h d in
        unfold on_connect in
        ap (λ r. connection_tried json dial to_lower probe r (started p) after) up.0
        ∙ ap (λ o. bucket_checked o (started p) after)
            (check_bucket_exists-target after c (params_of p) up.1 up.3)

    -- With no connection and no call waiting, a connection that comes up and a bucket that answers
    -- lead to the policies; the session of the form is saved.
    pub login_enters :
        probe bucket_of ≡ ok tt
        → ((on_connect json dial to_lower probe p n).0.entered ≡ true)
          × ((on_connect json dial to_lower probe p n).0.busy ≡ false)
          × ((on_connect json dial to_lower probe p n).0.error_message ≡ [])
          × (get_saved_params json (on_connect json dial to_lower probe p n).1 ≡ some (params_of p))
    login_enters b =
        let up = connect_up json dial (params_of p) n c e h d in
        rw on_connect-up (rw b (unfold probe_answer bucket_checked in (refl, refl, refl, up.4)))

    on_connect-missing :
        (x : Thrown)
        → probe bucket_of ≡ throw x
        → is_bucket_not_found to_lower x ≡ true
        → on_connect json dial to_lower probe p n
          ≡ (record (started p) { bucket_missing = true; busy = false }, after)
    on_connect-missing x b missing =
        on_connect-up
        ∙ ap (λ o. bucket_checked (probe_answer to_lower o) (started p) after) b
        ∙ unfold probe_answer in rw missing (unfold bucket_checked in refl)

    -- With no connection and no call waiting, if the connection comes up and the bucket is not
    -- found, the page offers to create it and keeps the connection; when it is then created, the
    -- page goes to the policies and the bucket is open.
    pub login_creates_bucket :
        (x : Thrown) (open_bucket : KvBucket → Outcome Unit)
        → probe bucket_of ≡ throw x
        → is_bucket_not_found to_lower x ≡ true
        → open_bucket bucket_of ≡ ok tt
        → let (q, m) = on_connect json dial to_lower probe p n in
          (q.bucket_missing ≡ true)
          × (q.busy ≡ false)
          × (m.connection ≡ some c)
          × ((on_initialize open_bucket q m).0.entered ≡ true)
          × ((on_initialize open_bucket q m).0.busy ≡ false)
          × ((on_initialize open_bucket q m).1.kv_bucket ≡ some bucket_of)
    login_creates_bucket x open_bucket b missing o =
        let up = connect_up json dial (params_of p) n c e h d in
        let opened =
          on_initialize-ok open_bucket (record (started p) { bucket_missing = true; busy = false })
            after bucket_of (ap₂ target up.1 up.3 ∙ unfold target params_of in refl) o in
        rw (on_connect-missing x b missing) (rw opened (refl, refl, up.1, refl, refl, refl))

    on_connect-refused :
        (x : Thrown)
        → probe bucket_of ≡ throw x
        → is_bucket_not_found to_lower x ≡ false
        → on_connect json dial to_lower probe p n ≡ (failed x (started p), disconnect after)
    on_connect-refused x b other =
        on_connect-up
        ∙ ap (λ o. bucket_checked (probe_answer to_lower o) (started p) after) b
        ∙ unfold probe_answer in rw other (unfold bucket_checked in refl)

    -- With no connection and no call waiting, if the connection comes up and asking for the bucket
    -- fails with another error than that it is not found, the page says why, and the connection and
    -- the saved session are gone.
    login_refused :
        (x : Thrown)
        → probe bucket_of ≡ throw x
        → is_bucket_not_found to_lower x ≡ false
        → ((on_connect json dial to_lower probe p n).0.error_message ≡ describe_nats_error x)
          × ((on_connect json dial to_lower probe p n).0.busy ≡ false)
          × ((on_connect json dial to_lower probe p n).0.entered ≡ p.entered)
          × ((on_connect json dial to_lower probe p n).1.connection ≡ none)
          × (get_saved_params json (on_connect json dial to_lower probe p n).1 ≡ none)
    login_refused x b other =
        let gone = disconnect_clears json after in
        rw (on_connect-refused x b other) (refl, refl, refl, gone.0, gone.2)
