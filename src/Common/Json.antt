-- ===== src/Common/Json.antt =====
-- What `JSON.parse` gives, and the tests on it in packages/common/src/protocol/errors.ts.
use firemig.Prelude.{ℕ, String, Bool, Option, none, some, ◌===◌, if◌then◌else◌}
use firemig.Prelude.Integers.{ℤ}
use firemig.Common.Errors.{
  ErrorCode, bad_request, not_found, internal, firecracker_api, guest_agent, fenced,
  migration_barrier, migration_in_progress, idempotency_key_conflict, incompatible_destination,
  no_capacity, transfer_interrupted, artifact_hash_mismatch, artifact_range_invalid,
  snapshot_consumed, destination_unavailable, timeout, other_code, FiremigError,
}

-- A number that is no integer is kept by its text.
pub data Number : Type 0 where
  integer : ℤ → Number
  fraction : String → Number

mutual
  pub data Json : Type 0 where
    null : Json
    boolean : Bool → Json
    number : Number → Json
    text : String → Json
    array : Items → Json
    object : Fields → Json

  pub data Items : Type 0 where
    nil : Items
    cons : Json → Items → Items

  pub data Fields : Type 0 where
    end : Fields
    field : String → Json → Fields → Fields

abbrev field_of : String → Fields → Option Json
field_of key end = none
field_of key (field name value rest) = if name === key then some value else field_of key rest

-- `value.key` behind the tests that `value` is an object; `none` is undefined.
abbrev pub member : String → Json → Option Json
member key (object fields) = field_of key fields
member key _ = none

-- `typeof value === "string"` and the string, and so on for the other types.
abbrev pub as_text : Option Json → Option String
as_text (some (text s)) = some s
as_text _ = none

abbrev pub as_boolean : Option Json → Option Bool
as_boolean (some (boolean b)) = some b
as_boolean _ = none

abbrev pub as_number : Option Json → Option Number
as_number (some (number n)) = some n
as_number _ = none

-- The code that a text of `ErrorCode` stands for.
unfoldable pub error_code_of : String → ErrorCode
error_code_of s =
    if s === "BAD_REQUEST"
    then bad_request
    else if s === "NOT_FOUND"
    then not_found
    else if s === "INTERNAL"
    then internal
    else if s === "FIRECRACKER_API_ERROR"
    then firecracker_api
    else if s === "GUEST_AGENT_ERROR"
    then guest_agent
    else if s === "FENCED"
    then fenced
    else if s === "MIGRATION_BARRIER"
    then migration_barrier
    else if s === "MIGRATION_IN_PROGRESS"
    then migration_in_progress
    else if s === "IDEMPOTENCY_KEY_CONFLICT"
    then idempotency_key_conflict
    else if s === "INCOMPATIBLE_DESTINATION"
    then incompatible_destination
    else if s === "NO_CAPACITY"
    then no_capacity
    else if s === "TRANSFER_INTERRUPTED"
    then transfer_interrupted
    else if s === "ARTIFACT_HASH_MISMATCH"
    then artifact_hash_mismatch
    else if s === "ARTIFACT_RANGE_INVALID"
    then artifact_range_invalid
    else if s === "SNAPSHOT_CONSUMED"
    then snapshot_consumed
    else if s === "DESTINATION_UNAVAILABLE"
    then destination_unavailable
    else if s === "TIMEOUT"
    then timeout
    else other_code s

-- `isErrorBody`: a code, a message and a flag. The message is left out of the body.
abbrev typed_body : Option String → Option String → Option Bool → Option ℕ → Option FiremigError
typed_body (some code) (some message) (some retryable) status =
    some (record { code = error_code_of code; retryable = retryable; status = status })
typed_body _ _ _ _ = none

unfoldable pub error_body : Json → Option ℕ → Option FiremigError
error_body value =
    typed_body (as_text (member "code" value)) (as_text (member "message" value))
      (as_boolean (member "retryable" value))

-- `isErrorEnvelope(value)` and `value.error`.
unfoldable pub envelope_body : Json → Option ℕ → Option FiremigError
unfolding error_body
envelope_body value status = elim (member "error" value) [
  | none ↦ none
  | some error ↦ error_body error status
]
