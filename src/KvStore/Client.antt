-- ===== src/KvStore/Client.antt =====
-- What the KV client library offers to ctrlp/src/app/services/kv-store.service.ts: a bucket keeps
-- entries with revisions, and a write may name the revision that it replaces.
use nauts.Base.{ℕ, ◌≡◌, Bool, true, false, Option, some, List}
use nauts.Base.Text.{Text}
use nauts.Thrown.{Exec}

pub data Operation : Type 0 where
  put del purge : Operation

-- `value` is the bytes of the entry, of a type of their own.
pub record RawEntry (D : Type 0) : Type 0 where
  pub key : Text
  pub value : D
  pub operation : Operation
  pub revision : ℕ

-- The entries that a new watch delivers first; `early` where it had none and was ready at once.
pub record InitialWatch (D : Type 0) : Type 0 where
  pub early : Bool
  pub entries : List (RawEntry D)

pub record KvClient (D S : Type 0) : Type 0 where
  pub get_kv_bucket : Exec S Unit
  pub get : Text → Exec S (Option (RawEntry D))
  pub keys : Text → Exec S (List Text)
  pub watch_initial : Exec S (InitialWatch D)
  pub watch_start : Exec S Unit
  pub put : Text → D → Option ℕ → Exec S ℕ
  pub create : Text → D → Exec S ℕ
  pub delete : Text → ℕ → Exec S Unit

unfoldable pub is_put : Operation → Bool
is_put put = true
is_put _ = false

-- `JSON.stringify` with `TextEncoder`, and `TextDecoder` with `JSON.parse`, at one type of values: what
-- is written is read back.
pub record Codec (V D : Type 0) : Type 0 where
  pub encode : V → D
  pub decode : D → Option V
  pub decode-encode : (v : V) → decode (encode v) ≡ some v
