-- ===== src/Tests/Login.antt =====
-- The theorems on the login page at concrete inputs.
use nauts.Base.{◌≡◌, refl, true, false, none, some}
use nauts.Base.Text.{codes}
use nauts.Thrown.{Thrown, nats_error, num, throw, Outcome, as_nats_error}
use nauts.NatsService.{initial, KvBucket}
use nauts.NatsService.Errors.{is_bucket_not_found, nats_not_found, is_404}
use nauts.LoginPage.{LoginPage, blank, on_connect, on_initialize}
use nauts.LoginPage.Flow.{login_creates_bucket}
use nauts.Tests.Coder.{params_json}
use nauts.Tests.Sessions.{dial_up, open_all, lower}

abbrev form : LoginPage
form = record (blank (codes "ws://localhost:8080") (codes "nauts")) { nkey_seed = codes "SU" }

abbrev missing : Thrown
missing = nats_error (record { message = codes "404"; code = num 404; api_error = none })

abbrev no_bucket : KvBucket → Outcome Unit
no_bucket b = throw missing

abbrev the_bucket : KvBucket
the_bucket = record { connection = 1; bucket = codes "nauts" }

missing-IsMissing : is_bucket_not_found lower missing ≡ true
unfolding is_bucket_not_found nats_not_found as_nats_error is_404
missing-IsMissing = refl

login_creates_bucket_example :
    let (q, m) = on_connect params_json dial_up lower no_bucket form initial in
    (q.bucket_missing ≡ true)
    × (q.busy ≡ false)
    × (m.connection ≡ some 1)
    × ((on_initialize open_all q m).0.entered ≡ true)
    × ((on_initialize open_all q m).0.busy ≡ false)
    × ((on_initialize open_all q m).1.kv_bucket ≡ some the_bucket)
login_creates_bucket_example =
    login_creates_bucket params_json dial_up lower no_bucket form initial 1 refl refl refl missing
      open_all refl missing-IsMissing refl
