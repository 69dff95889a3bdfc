-- ===== src/Sdk/Errors.antt =====
-- packages/sdk/src/errors.ts.
use firemig.Prelude.{ℕ, String, Option, none, some, leb}
use firemig.Platform.Decimal.{decimal}
use firemig.Common.Errors.{ErrorCode, fenced, idempotency_key_conflict, other_code, FiremigError}
use firemig.Common.Json.{Json, envelope_body}
use Prim.Native.String.{◌++◌}

pub data ApiErrorClass : Type 0 where
  api_error fenced_error idempotency_conflict_error : ApiErrorClass
  migration_failed_error : String → ApiErrorClass

pub record ApiError : Type 0 where
  pub class_name : ApiErrorClass
  pub body : FiremigError

-- The class is chosen by the code.
abbrev class_of : ErrorCode → ApiErrorClass
class_of fenced = fenced_error
class_of idempotency_key_conflict = idempotency_conflict_error
class_of _ = api_error

unfoldable pub error_of_body : FiremigError → ApiError
error_of_body body = record { class_name = class_of body.code; body = body }

-- `decoded` is what `response.json()` gives, and `none` where it throws.
unfoldable pub response_body : ℕ → Option Json → Option FiremigError
unfolding envelope_body
response_body status none = none
response_body status (some value) = envelope_body value (some status)

unfoldable pub error_from_response : ℕ → Option Json → ApiError
unfolding error_of_body response_body
error_from_response status decoded = elim (response_body status decoded) [
  | some body ↦ error_of_body body
  | none ↦ error_of_body (record {
    code = other_code ("HTTP_" ++ decimal status);
    retryable = leb 500 status;
    status = some status;
  })
]
