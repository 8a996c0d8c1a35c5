-- ===== src/NatsService/Errors.antt =====
-- Reading the errors of the NATS client: `isBucketNotFound` and `describeNatsError` of
-- ctrlp/src/app/services/nats.service.ts. `toLowerCase` is an argument: its tables are those of
-- Unicode.
use nauts.Base.{ℕ, Bool, false, ◌||◌, Option, none, some, [], ◌∷◌, if◌then◌else◌, nat_eq}
use nauts.Base.Text.{Text, codes, ◌==◌, includes}
use nauts.Thrown.{ErrorCode, num, str, ApiError, NatsError, Thrown, message_of, as_nats_error}

-- `code === 404 || code === '404'`
unfoldable pub is_404 : ErrorCode → Bool
is_404 (num n) = nat_eq n 404
is_404 (str s) = s == codes "404"

unfoldable pub is_404_err_code : Option ℕ → Bool
is_404_err_code none = false
is_404_err_code (some n) = nat_eq n 404 || nat_eq n 10059

module _ (to_lower : Text → Text) where
  unfoldable pub api_not_found : Option ApiError → Bool
  unfolding is_404 is_404_err_code
  api_not_found none = false
  api_not_found (some a) =
      is_404 a.code
      || (is_404_err_code a.err_code
          || includes (to_lower a.description) (codes "stream not found"))

  unfoldable pub nats_not_found : Option NatsError → Bool
  unfolding api_not_found
  nats_not_found none = false
  nats_not_found (some e) = is_404 e.code || api_not_found e.api_error

  unfoldable pub is_bucket_not_found : Thrown → Bool
  unfolding nats_not_found as_nats_error
  is_bucket_not_found err = nats_not_found (as_nats_error err)

abbrev pub text_503 : Text
text_503 =
    codes
      "Could not reach JetStream. Ensure JetStream is enabled on the server and the credentials have permission to access it."

abbrev pub text_401 : Text
text_401 = codes "Authentication failed. Check your credentials."

abbrev pub text_403 : Text
text_403 = codes "Authorization denied. The current user lacks the required permissions."

abbrev pub text_408 : Text
text_408 = codes "Request timed out. The NATS server did not respond in time."

-- The `switch` compares with texts, so a numeric code has no case.
unfoldable pub describe_code : ErrorCode → Option Text
describe_code (num n) = none
describe_code (str s) =
    if s == codes "503"
    then some text_503
    else if s == codes "401"
    then some text_401
    else if s == codes "403"
    then some text_403
    else if s == codes "408"
    then some text_408
    else none

-- `err.api_error?.description`, where it is not empty
unfoldable pub api_description : Option ApiError → Option Text
api_description none = none
api_description (some a) = elim a.description [ [] ↦ none | c ∷ s ↦ some (c ∷ s) ]

unfoldable pub describe_message : Option Text → Text
describe_message none = codes "An unknown error occurred"
describe_message (some m) = m

abbrev pub first_given : Option Text → Option Text → Option Text
first_given none o = o
first_given (some m) o = some m

unfoldable pub describe_nats_part : Option NatsError → Option Text
unfolding describe_code api_description
describe_nats_part none = none
describe_nats_part (some e) = first_given (describe_code e.code) (api_description e.api_error)

unfoldable pub describe_nats_error : Thrown → Text
unfolding describe_nats_part describe_message as_nats_error message_of
describe_nats_error err =
    describe_message (first_given (describe_nats_part (as_nats_error err)) (message_of err))
