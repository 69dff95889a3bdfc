-- ===== src/Common/Errors.antt =====
-- packages/common/src/protocol/errors.ts.
use firemig.Prelude.{ℕ, String, Bool, Option}

pub data ErrorCode : Type 0 where
  bad_request not_found internal firecracker_api guest_agent fenced migration_barrier : ErrorCode
  migration_in_progress idempotency_key_conflict incompatible_destination no_capacity : ErrorCode
  transfer_interrupted artifact_hash_mismatch artifact_range_invalid snapshot_consumed : ErrorCode
  destination_unavailable timeout : ErrorCode
  other_code : String → ErrorCode

-- The texts of messages and the `details` object are left out: no code branches on them.
pub record FiremigError : Type 0 where
  pub code : ErrorCode
  pub retryable : Bool
  pub status : Option ℕ

-- What the operating system, a socket or a child process reports: only these codes are told apart.
pub data Fault : Type 0 where
  enoent eexist other_fault : Fault

-- A thrown value: the program's error class, a plain `Error` with its text, or a fault from outside.
pub data Thrown : Type 0 where
  failure : FiremigError → Thrown
  plain : String → Thrown
  outside : Fault → Thrown

-- `new FiremigError({ code, message, retryable }, status)`.
abbrev pub firemig_error : ErrorCode → Bool → Option ℕ → Thrown
firemig_error code retryable status =
    failure (record { code = code; retryable = retryable; status = status })
