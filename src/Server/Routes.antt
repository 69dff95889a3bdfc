-- ===== src/Server/Routes.antt =====
-- packages/agent/src/server: server.ts, and what the handlers of the routes do and send.
pub mod Calls
pub mod Fencing
use Prim.Native.Char.{code}
use Prim.Native.String
use Prim.Native.String.{◌++◌}
use firemig.Prelude.{
  ℕ, String, Bool, true, false, not, ◌&&◌, ◌||◌, Option, none, some, List, map, ◌==◌, ◌===◌,
  if◌then◌else◌,
}
use firemig.Common.Errors.{
  Thrown, failure, plain, outside, ErrorCode, bad_request, internal, FiremigError,
}
use firemig.Common.Json.{Json, member}
use firemig.Common.Types.{
  ArtifactKind, ArtifactDescriptor, CompatibilityManifest, RunCommandRequest, WriteFileRequest,
}
use firemig.Exec.{Settled, fulfilled, rejected, Exec, pure, gets, lift, done, ◌>>=◌, ◌>>◌}
use firemig.Artifacts.Pull.{pull_artifact, run_abortable_operations}
use firemig.Artifacts.Range.{open_artifact_range}
use firemig.Worker.Types.{
  CreateWorkerSandboxRequest, SnapshotRequest, TransferMigrationRequest, WorkerCore, artifact_kinds,
}
use firemig.Worker.Core.{on_host, record_of, write_record}
use firemig.Worker.Manifest.{validate_manifest, artifact_path, read_artifact}
use firemig.Worker.Transfer.{with_artifact, kind_text}
use firemig.Worker.Service.{
  Request, create, get, command, write_file, expose_port, pause, resume, fence, probe, precopy,
  pause_phase, resume_phase, snapshot, snapshot_phase, load, quarantine, verify, fence_cleanup,
  prepare, transfer, rollback, serve,
}
use firemig.Server.Requests.{
  epoch_of_header, required_string, migration_id_of, normalize_prepare_request,
}
use firemig.Server.Routes.Calls.{
  Route, healthz, create_sandbox, run_command, expose_ports, pull_artifacts, read_artifact_range,
  request_of,
}

-- Of an answer, the status and the code of an error.
pub record Response : Type 0 where
  pub status : ℕ
  pub code : Option ErrorCode

abbrev answer : ℕ → Response
answer status = record { status = status; code = none }

abbrev accepted_status : Option Bool → ℕ
accepted_status (some true) = 202
accepted_status _ = 200

-- The status of a success.
abbrev pub success_status : Route → ℕ
success_status (create_sandbox body) = 201
success_status (expose_ports id guest_port) = 201
success_status (run_command id body) = accepted_status body.background
success_status _ = 200

-- `.replace(/\/$/, "")`
unfoldable pub strip_slash : String → String
strip_slash String.[] = String.[]
strip_slash (String.◌∷◌ c String.[]) = if code c == b'/' then String.[] else String.◌∷◌ c String.[]
strip_slash (String.◌∷◌ c (String.◌∷◌ d rest)) = String.◌∷◌ c (strip_slash (String.◌∷◌ d rest))

-- One artifact of `artifacts/pull`.
unfoldable pub pull_and_register :
    String → CompatibilityManifest → String → ArtifactKind → Exec WorkerCore (Unit {0})
pull_and_register id manifest base kind = do
  let descriptor = manifest.artifacts kind
  r ← record_of id
  on_host (
      pull_artifact (base ++ "/internal/sandboxes/" ++ id ++ "/artifacts/" ++ kind_text kind)
        (artifact_path r kind) descriptor)
  record_of id
  write_record id (with_artifact descriptor)

unfoldable pub pull_all : String → CompatibilityManifest → String → Exec WorkerCore (Unit {0})
pull_all id manifest base = do
  validate_manifest manifest
  run_abortable_operations (map (pull_and_register id manifest (strip_slash base)) artifact_kinds)
  done

unfoldable pub send_artifact : String → ArtifactKind → Option String → Exec WorkerCore ℕ
send_artifact id kind range = do
  artifact ← read_artifact id kind
  result ← on_host (open_artifact_range artifact.path artifact.descriptor range)
  pure result.status

abbrev pub serve_settled : Settled Request → Exec WorkerCore (Unit {0})
serve_settled (fulfilled request) = serve request
serve_settled (rejected t) = lift (rejected t)

abbrev pub with_status : ℕ → Exec WorkerCore (Unit {0}) → Exec WorkerCore ℕ
with_status status m = m >>= λ _. pure status

abbrev pub handle_other : Route → Exec WorkerCore ℕ
handle_other (pull_artifacts id manifest base) = with_status 200 (pull_all id manifest base)
handle_other (read_artifact_range id kind range) = send_artifact id kind range
handle_other route = pure 200

abbrev pub handle_made : Route → ℕ → Option (Settled Request) → Exec WorkerCore ℕ
handle_made route status none = handle_other route
handle_made route status (some request) = with_status status (serve_settled request)

-- A handler: the status of what it sends, or what it throws.
unfoldable pub handle : Route → Option String → Exec WorkerCore ℕ
handle route header = handle_made route (success_status route) (request_of route header)

abbrev status_or_500 : Option ℕ → ℕ
status_or_500 none = 500
status_or_500 (some status) = status

-- `setErrorHandler`
unfoldable pub error_response : Thrown → Response
error_response (failure e) = record { status = status_or_500 e.status; code = some e.code }
error_response (plain s) = record { status = 500; code = some internal }
error_response (outside f) = record { status = 500; code = some internal }

abbrev pub response_of : Settled ℕ × WorkerCore → Response × WorkerCore
response_of (fulfilled status, core) = (answer status, core)
response_of (rejected t, core) = (error_response t, core)

pub record HttpRequest : Type 0 where
  pub route : Route
  pub authorization : Option String
  pub epoch_header : Option String

abbrev is_health_check : Route → Bool
is_health_check healthz = true
is_health_check _ = false

abbrev or_empty : Option String → String
or_empty none = ""
or_empty (some s) = s

-- The hook `onRequest`: no token is configured, or the health check, or the token of the request.
unfoldable pub is_authorized : Option String → HttpRequest → Bool
is_authorized none request = true
is_authorized (some token) request =
    is_health_check request.route || or_empty request.authorization === "Bearer " ++ token

unfoldable pub respond : Option String → HttpRequest → WorkerCore → Response × WorkerCore
respond auth_token request core =
    if is_authorized auth_token request
    then response_of (handle request.route request.epoch_header core)
    else (record { status = 401; code = some bad_request }, core)
