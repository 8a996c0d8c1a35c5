-- ===== src/Thrown.antt =====
-- What the code can throw, and calls that may throw. An error of the NATS client carries a `code`
-- and may carry the error of the JetStream API (`NatsError` of ctrlp/src/app/services/
-- nats.service.ts); `ConflictError` and `NotFoundError` are those of kv-store.service.ts.
pub mod Laws
use nauts.Base.{ℕ, Option, none, some, Bool, true, false, ◌++◌}
use nauts.Base.Text.{Text, codes}

-- `code: string | number`
pub data ErrorCode : Type 0 where
  num : ℕ → ErrorCode
  str : Text → ErrorCode

pub record ApiError : Type 0 where
  pub code : ErrorCode
  pub description : Text
  pub err_code : Option ℕ

pub record NatsError : Type 0 where
  pub message : Text
  pub code : ErrorCode
  pub api_error : Option ApiError

-- `other` is a thrown value that is no `Error`.
pub data Thrown : Type 0 where
  error : Text → Thrown
  nats_error : NatsError → Thrown
  conflict : Text → Thrown
  not_found : Text → Thrown
  other : Thrown

pub data Outcome (A : Type 0) : Type 0 where
  ok : A → Outcome A
  throw : Thrown → Outcome A

-- `err.message`, of an `Error`
unfoldable pub message_of : Thrown → Option Text
message_of (error m) = some m
message_of (nats_error e) = some e.message
message_of (conflict key) = some (codes "Conflict updating key: " ++ key)
message_of (not_found key) = some (codes "Key not found: " ++ key)
message_of other = none

-- `isNatsError`
unfoldable pub as_nats_error : Thrown → Option NatsError
as_nats_error (nats_error e) = some e
as_nats_error _ = none

-- A call in a state of type `S`, which it may change also where it throws.
abbrev pub Exec : Type 0 → Type 0 → Type 0
Exec S A = S → Outcome A × S

module _ {S A B : Type 0} where
  infixl 5 ◌>>=◌
  abbrev pub ◌>>=◌ : Exec S A → (A → Exec S B) → Exec S B
  ◌>>=◌ m f s = let (r, t) = m s in elim r [ ok a ↦ f a t | throw e ↦ (throw e, t) ]

module _ {S B : Type 0} where
  infixl 5 ◌>>◌
  abbrev pub ◌>>◌ : Exec S Unit → Exec S B → Exec S B
  m >> k = m >>= λ _. k

module _ {S A : Type 0} where
  abbrev pub pure : A → Exec S A
  pure a s = (ok a, s)

  abbrev pub raise : Thrown → Exec S A
  raise e s = (throw e, s)

  abbrev pub lift : Outcome A → Exec S A
  lift r s = (r, s)

  -- `try { m } catch (err) { handler }`
  abbrev pub attempt : Exec S A → (Thrown → Exec S A) → Exec S A
  attempt m handler s = let (r, t) = m s in elim r [ ok a ↦ (ok a, t) | throw e ↦ handler e t ]
