-- ===== src/Sdk/Progress.antt =====
-- packages/sdk/src/client/migration-progress.ts: the progress that an event or a status holds.
use firemig.Prelude.{String, Bool, false, Option, none, some, ◌===◌, if◌then◌else◌}
use firemig.Prelude.Integers.{pos}
use firemig.Common.Errors.{FiremigError, bad_request}
use firemig.Common.Phases.{
  MigrationPhase, preparing, reserving, prestaging, probing, precopying, pausing, snapshotting,
  transferring, loading, resuming, verifying, cutover, cleanup, completed, rolling_back_source,
  rolled_back, failed_phase, orphaned_ambiguous, is_terminal_phase, is_failure,
}
use firemig.Common.Json.{Json, null, Number, integer, member, as_text, as_number, error_body}
use firemig.Sdk.Errors.{ApiError, api_error}
use firemig.Sdk.Sse.{Text}

-- A phase that the enumeration does not have is kept by its text.
pub data Phase : Type 0 where
  known : MigrationPhase → Phase
  unknown : String → Phase

unfoldable pub phase_of : String → Phase
phase_of s =
    if s === "PREPARING"
    then known preparing
    else if s === "RESERVING"
    then known reserving
    else if s === "PRESTAGING"
    then known prestaging
    else if s === "PROBING"
    then known probing
    else if s === "PRECOPYING"
    then known precopying
    else if s === "PAUSING"
    then known pausing
    else if s === "SNAPSHOTTING"
    then known snapshotting
    else if s === "TRANSFERRING"
    then known transferring
    else if s === "LOADING"
    then known loading
    else if s === "RESUMING"
    then known resuming
    else if s === "VERIFYING"
    then known verifying
    else if s === "CUTOVER"
    then known cutover
    else if s === "CLEANUP"
    then known cleanup
    else if s === "DONE"
    then known completed
    else if s === "ROLLING_BACK_SOURCE"
    then known rolling_back_source
    else if s === "ROLLED_BACK"
    then known rolled_back
    else if s === "FAILED"
    then known failed_phase
    else if s === "ORPHANED_AMBIGUOUS"
    then known orphaned_ambiguous
    else unknown s

abbrev pub terminal : Phase → Bool
terminal (known p) = is_terminal_phase p
terminal (unknown s) = false

abbrev pub failing : Phase → Bool
failing (known p) = is_failure p
failing (unknown s) = false

-- `ts`, which nothing reads, is left out.
pub record Progress : Type 0 where
  pub phase : Phase
  pub phase_text : String
  pub bytes_transferred : Number
  pub bytes_total : Number
  pub id : Option Text
  pub error : Option FiremigError

pub data WatchError : Type 0 where
  api_failed : ApiError → WatchError
  syntax_error request_failed interrupted stream_broken : WatchError

abbrev invalid_progress : WatchError
invalid_progress = api_failed (record {
  class_name = api_error;
  body = record { code = bad_request; retryable = false; status = none };
})

abbrev number_or_zero : Option Number → Number
number_or_zero none = integer (pos 0)
number_or_zero (some n) = n

abbrev error_at : Option Json → Option FiremigError
error_at none = none
error_at (some value) = error_body value none

-- `parseProgress`: the progress, or what it throws. A text that is `null` has no `phase` to read.
pub data Parsed : Type 0 where
  parsed : Progress → Parsed
  refused : WatchError → Parsed

abbrev progress_of : Option String → Option Number → Json → Option Text → Parsed
progress_of (some phase) (some transferred) value id = parsed (record {
  phase = phase_of phase;
  phase_text = phase;
  bytes_transferred = transferred;
  bytes_total = number_or_zero (as_number (member "bytesTotal" value));
  id = id;
  error = error_at (member "error" value);
})
progress_of _ _ value id = refused invalid_progress

abbrev pub progress_in : Option Json → Option Text → Parsed
progress_in none id = refused syntax_error
progress_in (some null) id = refused syntax_error
progress_in (some value) id =
    progress_of (as_text (member "phase" value)) (as_number (member "bytesTransferred" value)) value
      id
