-- ===== src/Server/Routes/Calls.antt =====
-- packages/agent/src/server: what each route asks of the worker.
use firemig.Prelude.{ℕ, String, Bool, true, Option, none, some}
use firemig.Common.Json.{Json, member}
use firemig.Common.Types.{ArtifactKind, CompatibilityManifest, RunCommandRequest, WriteFileRequest}
use firemig.Exec.{Settled, fulfilled, rejected}
use firemig.Worker.Types.{CreateWorkerSandboxRequest}
use firemig.Worker.Service.{
  Request, create, get, command, write_file, expose_port, pause, resume, fence, probe, precopy,
  pause_phase, resume_phase, snapshot, snapshot_phase, load, quarantine, verify, fence_cleanup,
  prepare, transfer, rollback,
}
use firemig.Server.Requests.{
  epoch_of_header, required_string, migration_id_of, normalize_prepare_request,
}

-- A route with its parameters and its body, whose type Fastify does not check: a body of which the
-- route reads single fields is a JSON value.
pub data Route : Type 0 where
  healthz : Route
  create_sandbox : CreateWorkerSandboxRequest → Route
  get_sandbox pause_sandbox resume_sandbox fence_sandbox : String → Route
  probe_migration precopy_migration pause_migration resume_migration : String → Route
  run_command : String → RunCommandRequest → Route
  write_files : String → WriteFileRequest → Route
  expose_ports : String → ℕ → Route
  prepare_migration : String → String → Json → Route
  snapshot_migration verify_migration fence_and_cleanup : String → Json → Route
  transfer_migration : String → Json → CompatibilityManifest → Route
  load_migration load_sandbox : String → CompatibilityManifest → Route
  rollback_migration : String → Option Bool → Route
  snapshot_sandbox quarantine_sandbox : String → String → Route
  pull_artifacts : String → CompatibilityManifest → String → Route
  read_artifact_range : String → ArtifactKind → Option String → Route

abbrev pub settled_then : {A : Type 0} → Settled A → (A → Settled Request) → Settled Request
settled_then (fulfilled a) f = f a
settled_then (rejected t) f = rejected t

-- `epoch(request)`, and the request of the worker with it.
abbrev pub with_epoch : Option String → (ℕ → Settled Request) → Settled Request
with_epoch header f = settled_then (epoch_of_header header) f

abbrev or_true : Option Bool → Bool
or_true none = true
or_true (some b) = b

-- The request of the worker that a route of routes-sandbox.ts makes, or why it makes none.
unfoldable pub sandbox_request : Route → Option String → Option (Settled Request)
sandbox_request (create_sandbox body) header = some (fulfilled (create body))
sandbox_request (get_sandbox id) header = some (fulfilled (get id))
sandbox_request (run_command id body) header =
    some (with_epoch header λ epoch. fulfilled (command id epoch body))
sandbox_request (write_files id body) header =
    some (with_epoch header λ epoch. fulfilled (write_file id epoch body))
sandbox_request (expose_ports id guest_port) header =
    some (with_epoch header λ epoch. fulfilled (expose_port id epoch guest_port))
sandbox_request route header = none

-- The same of routes-migration.ts.
unfoldable pub migration_request : Route → Option String → Option (Settled Request)
migration_request (prepare_migration id migration_id body) header = some (
    with_epoch header λ epoch.
      settled_then (normalize_prepare_request id migration_id body)
        λ request. fulfilled (prepare id epoch request))
migration_request (probe_migration id) header =
    some (with_epoch header λ epoch. fulfilled (probe id epoch))
migration_request (precopy_migration id) header =
    some (with_epoch header λ epoch. fulfilled (precopy id epoch))
migration_request (pause_migration id) header =
    some (with_epoch header λ epoch. fulfilled (pause_phase id epoch))
migration_request (snapshot_migration id body) header = some (
    settled_then (migration_id_of body) λ migration_id. with_epoch header λ epoch.
      fulfilled (snapshot_phase id (record { migration_id = migration_id; epoch = epoch })))
migration_request (transfer_migration id body manifest) header = some (
    with_epoch header λ epoch. settled_then (migration_id_of body) λ migration_id.
      settled_then (required_string (member "source" body)) λ source. fulfilled (
        transfer id epoch
          (record { migration_id = migration_id; source = source; manifest = manifest })))
migration_request (load_migration id manifest) header =
    some (with_epoch header λ epoch. fulfilled (load id epoch manifest))
migration_request (resume_migration id) header =
    some (with_epoch header λ epoch. fulfilled (resume_phase id epoch))
migration_request (verify_migration id body) header = some (
    with_epoch header λ epoch.
      settled_then (migration_id_of body) λ migration_id. fulfilled (verify id epoch migration_id))
migration_request (rollback_migration id repair_clock) header =
    some (with_epoch header λ epoch. fulfilled (rollback id epoch (or_true repair_clock)))
migration_request (fence_and_cleanup id body) header = some (
    with_epoch header λ epoch.
      settled_then (migration_id_of body)
        λ migration_id. fulfilled (fence_cleanup id epoch migration_id))
migration_request route header = none

-- The same of routes-artifacts.ts. The two routes that send artifacts do more than one thing.
unfoldable pub artifact_request : Route → Option String → Option (Settled Request)
artifact_request (pause_sandbox id) header =
    some (with_epoch header λ epoch. fulfilled (pause id epoch))
artifact_request (snapshot_sandbox id migration_id) header = some (
    with_epoch header
      λ epoch. fulfilled (snapshot id (record { migration_id = migration_id; epoch = epoch })))
artifact_request (load_sandbox id manifest) header =
    some (with_epoch header λ epoch. fulfilled (load id epoch manifest))
artifact_request (resume_sandbox id) header =
    some (with_epoch header λ epoch. fulfilled (resume id epoch))
artifact_request (fence_sandbox id) header =
    some (with_epoch header λ epoch. fulfilled (fence id epoch))
artifact_request (quarantine_sandbox id migration_id) header =
    some (with_epoch header λ epoch. fulfilled (quarantine id epoch migration_id))
artifact_request route header = none

abbrev or_next : Option (Settled Request) → Option (Settled Request) → Option (Settled Request)
or_next none later = later
or_next (some request) later = some request

-- The health check, and the two routes that send artifacts, make none.
unfoldable pub request_of : Route → Option String → Option (Settled Request)
unfolding sandbox_request migration_request artifact_request
request_of route header =
    or_next (sandbox_request route header)
      (or_next (migration_request route header) (artifact_request route header))
