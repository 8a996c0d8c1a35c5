-- ===== src/Tests/Coder.antt =====
-- Texts that stand for records, and the records read back from them.
use nauts.Base.{zero, suc, ◌≡◌, ◌≢◌, refl, Option, none, some, [], ◌∷◌}
use nauts.Base.Text.{Text}
use nauts.NatsService.{AuthMethod, anonymous, token, userpass, nkey, creds, ConnectParams, Json}

-- A text, each character one up, and a zero.
unfoldable pub write_text : Text → Text → Text
write_text [] rest = 0 ∷ rest
write_text (c ∷ t) rest = suc c ∷ write_text t rest

-- The text at the head, and the rest.
unfoldable pub read_text : Text → Text × Text
read_text [] = ([], [])
read_text (zero ∷ rest) = ([], rest)
read_text (suc c ∷ rest) = let (t, u) = read_text rest in (c ∷ t, u)

read_text-write_text : (t rest : Text) → read_text (write_text t rest) ≡ (t, rest)
unfolding read_text write_text
read_text-write_text [] rest = refl
read_text-write_text (c ∷ t) rest = rw (read_text-write_text t rest) refl

unfoldable pub write_auth : AuthMethod → Text
unfolding write_text
write_auth anonymous = 0 ∷ []
write_auth (token t) = 1 ∷ write_text t []
write_auth (userpass u w) = 2 ∷ write_text u (write_text w [])
write_auth (nkey t) = 3 ∷ write_text t []
write_auth (creds t) = 4 ∷ write_text t []

unfoldable pub read_auth : Text → Option AuthMethod
unfolding read_text
read_auth (zero ∷ rest) = some anonymous
read_auth (suc zero ∷ rest) = some (token (read_text rest).0)
read_auth (suc (suc zero) ∷ rest) =
    let (u, more) = read_text rest in some (userpass u (read_text more).0)
read_auth (suc (suc (suc zero)) ∷ rest) = some (nkey (read_text rest).0)
read_auth (suc (suc (suc (suc zero))) ∷ rest) = some (creds (read_text rest).0)
read_auth _ = none

read_auth-write_auth : (a : AuthMethod) → read_auth (write_auth a) ≡ some a
unfolding read_auth write_auth
read_auth-write_auth anonymous = refl
read_auth-write_auth (token t) = rw (read_text-write_text t []) refl
read_auth-write_auth (userpass u w) =
    rw (read_text-write_text u (write_text w [])) (rw (read_text-write_text w []) refl)
read_auth-write_auth (nkey t) = rw (read_text-write_text t []) refl
read_auth-write_auth (creds t) = rw (read_text-write_text t []) refl

unfoldable pub write_params : ConnectParams → Text
unfolding write_auth
write_params p = write_text p.url (write_text p.bucket (write_auth p.auth))

unfoldable pub params_of : Text → Text → Option AuthMethod → Option ConnectParams
params_of url bucket none = none
params_of url bucket (some a) = some (record { url = url; bucket = bucket; auth = a })

unfoldable pub read_params : Text → Option ConnectParams
unfolding params_of read_auth
read_params t =
    let (url, rest) = read_text t in
    let (bucket, more) = read_text rest in params_of url bucket (read_auth more)

pub read_params-write_params : (p : ConnectParams) → read_params (write_params p) ≡ some p
unfolding read_params write_params params_of
read_params-write_params p =
    rw (read_text-write_text p.url (write_text p.bucket (write_auth p.auth))) (
      rw (read_text-write_text p.bucket (write_auth p.auth))
        (rw (read_auth-write_auth p.auth) refl))

pub write_text-ne-nil : (t rest : Text) → write_text t rest ≢ []
unfolding write_text
write_text-ne-nil [] rest e = cc
write_text-ne-nil (c ∷ t) rest e = cc

pub write_params-ne-nil : (p : ConnectParams) → write_params p ≢ []
unfolding write_params
write_params-ne-nil p = write_text-ne-nil p.url (write_text p.bucket (write_auth p.auth))

abbrev pub params_json : Json ConnectParams
params_json = record {
  stringify = write_params;
  parse = read_params;
  parse-stringify = read_params-write_params;
  stringify-ne-nil = write_params-ne-nil;
}
