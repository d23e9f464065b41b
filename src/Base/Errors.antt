-- ===== src/Base/Errors.antt =====
-- core/errors/app-error.ts: the error that a use case throws, and a computation that may throw it.
use Prim.Native.String.{String, ◌++◌}
use mathlib.Core.Path.{◌≡◌, refl}
use mathlib.Core.Bool.{Bool, true, false}
use mathlib.Core.Option.{Option, none}

pub data AppErrorCode : Type 0 where
  account_inactive account_password_setup_required account_suspended conflict_code : AppErrorCode
  conversion_not_supported_code email_delivery_unavailable : AppErrorCode
  external_service_unavailable_code forbidden_code invalid_credentials : AppErrorCode
  invalid_password_change_token invalid_refresh_token license_unavailable_code : AppErrorCode
  not_found_code quote_conversation_closed support_email_delivery_failed : AppErrorCode
  unsupported_file_format_code validation_error_code : AppErrorCode

-- `details` is kept where a constructor below fills it: the field of a conflict.
pub record AppError : Type 0 where
  pub code : AppErrorCode
  pub message : String
  pub field : Option String

abbrev pub conflict : String → Option String → AppError
conflict message field = record { code = conflict_code; message = message; field = field }

abbrev pub forbidden : String → AppError
forbidden message = record { code = forbidden_code; message = message; field = none }

abbrev pub not_found : String → AppError
not_found resource = record {
  code = not_found_code;
  message = resource ++ " não encontrado.";
  field = none;
}

abbrev pub validation_error : String → AppError
validation_error message = record { code = validation_error_code; message = message; field = none }

-- What a function returns, or throws.
pub data Result {κ} (X : Type κ) : Type κ where
  err : AppError → Result X
  ok : X → Result X

-- `if (bad) throw e`.
abbrev pub throw_if : Bool → AppError → Result (Unit {0})
throw_if false error = ok tt
throw_if true error = err error

module _ {κ μ} {X : Type κ} {Y : Type μ} where
  infixl 5 ◌>>=◌
  -- The value of the first statement is bound in the ones that follow.
  abbrev pub ◌>>=◌ : Result X → (X → Result Y) → Result Y
  err error >>= next = err error
  ok x >>= next = next x

  pub >>=-eq-ok :
      (first : Result X) (next : X → Result Y) {y : Y}
      → first >>= next ≡ ok y
      → (x : X) × (first ≡ ok x) × (next x ≡ ok y)
  >>=-eq-ok (err error) next h = cc
  >>=-eq-ok (ok x) next h = (x, refl, h)

-- A statement that is only executed for what it may throw.
infixl 5 ◌>>◌
abbrev pub ◌>>◌ {μ} : {Y : Type μ} → Result (Unit {0}) → Result Y → Result Y
check >> rest = check >>= λ done. rest

pub ok-injective {κ} : {X : Type κ} (x y : X) → ok x ≡ ok y → x ≡ y
ok-injective x y h = cc
