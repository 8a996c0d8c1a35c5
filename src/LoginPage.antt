-- ===== src/LoginPage.antt =====
-- The login page: ctrlp/src/app/pages/login/login.component.ts. A handler takes the page and the
-- connection service to their next states; `entered` says that the router was told to show the
-- policies. The configuration is the URL and the bucket that it names.
pub mod Flow
pub mod Dropped
use nauts.Base.{
  ℕ, zero, suc, ◌≡◌, Bool, true, false, Option, none, some, List, [], ◌∷◌, if◌then◌else◌,
}
use nauts.Base.Text.{Text, codes, ◌==◌}
use nauts.Thrown.{Thrown, Outcome, ok, throw}
use nauts.NatsService.{
  AuthMethod, anonymous, token, userpass, nkey, creds, ConnectParams, ConnectOptions, Connection,
  KvBucket, Nats, Json, connect, disconnect, create_bucket, check_bucket_exists,
}
use nauts.NatsService.Errors.{describe_nats_error}

pub record LoginPage : Type 0 where
  pub url : Text
  pub bucket : Text
  pub auth_tab_index : ℕ
  pub token : Text
  pub username : Text
  pub password : Text
  pub nkey_seed : Text
  pub creds_contents : Text
  pub busy : Bool
  pub error_message : Text
  pub bucket_missing : Bool
  pub entered : Bool

abbrev pub blank : Text → Text → LoginPage
blank url bucket = record {
  url = url;
  bucket = bucket;
  auth_tab_index = 0;
  token = [];
  username = [];
  password = [];
  nkey_seed = [];
  creds_contents = [];
  busy = false;
  error_message = [];
  bucket_missing = false;
  entered = false;
}

-- The `switch` of the constructor.
unfoldable pub show_auth : AuthMethod → LoginPage → LoginPage
show_auth (nkey seed) p = record p { auth_tab_index = 0; nkey_seed = seed }
show_auth (creds contents) p = record p { auth_tab_index = 1; creds_contents = contents }
show_auth _ p = p

unfoldable pub show_saved : Option ConnectParams → LoginPage → LoginPage
unfolding show_auth
show_saved none p = p
show_saved (some saved) p =
    show_auth saved.auth (record p { url = saved.url; bucket = saved.bucket })

abbrev pub says_true : Option Text → Bool
says_true none = false
says_true (some t) = t == codes "true"

-- The constructor, from the configuration, the saved session and the parameter of the route.
unfoldable pub construct : Text → Text → Option ConnectParams → Option Text → LoginPage
unfolding show_saved
construct url bucket saved bucket_missing_param =
    let p = show_saved saved (blank url bucket) in
    if says_true bucket_missing_param then record p { bucket_missing = true } else p

unfoldable pub build_auth_method : LoginPage → AuthMethod
build_auth_method p = elim p.auth_tab_index [
  | zero ↦ nkey p.nkey_seed
  | suc n ↦ elim n [ zero ↦ creds p.creds_contents | suc m ↦ anonymous ]
]

unfoldable pub params_of : LoginPage → ConnectParams
unfolding build_auth_method
params_of p = record { url = p.url; bucket = p.bucket; auth = build_auth_method p }

-- `busy = true` and `errorMessage = ''`, with which the handlers begin.
abbrev pub started : LoginPage → LoginPage
started p = record p { busy = true; error_message = [] }

abbrev pub failed : Thrown → LoginPage → LoginPage
failed err p = record p { error_message = describe_nats_error err; busy = false }

-- `onConnect` from the answer about the bucket on.
unfoldable pub bucket_checked : Outcome Bool → LoginPage → Nats → LoginPage × Nats
bucket_checked (ok true) p n = (record p { entered = true; busy = false }, n)
bucket_checked (ok false) p n = (record p { bucket_missing = true; busy = false }, n)
bucket_checked (throw err) p n = (failed err p, disconnect n)

module _ (json : Json ConnectParams) (dial : ConnectOptions → Outcome Connection)
    (to_lower : Text → Text) (probe : KvBucket → Outcome Unit) where
  -- `onConnect` from the outcome of the connection on.
  unfoldable pub connection_tried : Outcome Unit → LoginPage → Nats → LoginPage × Nats
  unfolding bucket_checked
  connection_tried (ok u) p n = bucket_checked (check_bucket_exists to_lower probe n) p n
  connection_tried (throw err) p n = (failed err p, n)

  unfoldable pub on_connect : LoginPage → Nats → LoginPage × Nats
  unfolding connection_tried
  on_connect p n =
      let q = started p in let (r, m) = connect json dial (params_of q) n in connection_tried r q m

unfoldable pub bucket_created : Outcome KvBucket → LoginPage → LoginPage
bucket_created (ok b) p = record p { entered = true; busy = false }
bucket_created (throw err) p = failed err p

module _ (open_bucket : KvBucket → Outcome Unit) where
  unfoldable pub on_initialize : LoginPage → Nats → LoginPage × Nats
  unfolding bucket_created
  on_initialize p n = let (r, m) = create_bucket open_bucket n in (bucket_created r (started p), m)

unfoldable pub on_back : LoginPage → Nats → LoginPage × Nats
on_back p n = (record p { bucket_missing = false; error_message = [] }, disconnect n)

-- `onCredsFileSelected`, once the file is read; without a file nothing changes.
unfoldable pub creds_file_read : Option Text → LoginPage → LoginPage
creds_file_read none p = p
creds_file_read (some contents) p = record p { creds_contents = contents }
