-- ===== src/Worker/Service/Stale.antt =====
-- The requests of packages/agent/src/worker/index.ts that carry an epoch behind the accepted one.
pub mod Operations
use firemig.Prelude.{ℕ, ◌≡◌, refl, String, Option, none, some, subst, sym}
use firemig.Common.Types.{CompatibilityManifest, FilePath, RunCommandRequest, WriteFileRequest}
use firemig.Exec.{Exec}
use firemig.Exec.Keeps.{
  Keeps, Rejects, keeps_rules, Rejects-bind, Keeps-Rejects, Keeps-gets, Keeps-bind, Keeps-refuse,
  Keeps-lift,
}
use firemig.Common.Phases.{SandboxState}
use firemig.Platform.Epochs.{accept}
use firemig.Worker.Types.{
  SandboxRecord, WorkerCore, TransferMigrationRequest, CreateWorkerSandboxRequest,
}
use firemig.Worker.Core.{on_epochs, record_of, mutable_record}
use firemig.Worker.Core.Fencing.{IsStale, accept-Rejects, mutable_record-Rejects}
use firemig.Worker.Manifest.{validate_manifest}
use firemig.Worker.Lifecycle.{
  pause_sandbox, load_machine, load_verified, load_snapshot, resume_sandbox, fence_sandbox,
  quarantine_live, quarantine_sandbox, or_else_do,
}
use firemig.Worker.Snapshot.{create_snapshot}
use firemig.Worker.GuestOps.{run_guest_command, write_guest_file, expose_guest_port}
use firemig.Worker.Create.{create_sandbox}
use firemig.Worker.Phases.{
  probe_migration, precopy_migration, pause_migration, cached_snapshot, new_snapshot,
  snapshot_migration, snapshot_by, resume_migration,
}
use firemig.Worker.Transfer.{transfer_migration}
use firemig.Worker.Verify.{verify_migration, fence_and_cleanup}
use firemig.Worker.Service.{
  Request, create, get, command, write_file, expose_port, pause, resume, fence, probe, precopy,
  pause_phase, resume_phase, snapshot, snapshot_phase, load, quarantine, verify, fence_cleanup,
  artifact, register_artifact, validate, prepare, transfer, rollback, serve,
}
use firemig.Worker.Service.Stale.Operations.{
  Unmoved, pause_sandbox_stale, resume_sandbox_stale, load_snapshot_stale, fence_sandbox_stale,
  quarantine_sandbox_stale, create_snapshot_stale, run_guest_command_stale, write_guest_file_stale,
  expose_guest_port_stale, probe_migration_stale, precopy_migration_stale, pause_migration_stale,
  resume_migration_stale, verify_migration_stale, fence_and_cleanup_stale, transfer_migration_stale,
  snapshot_migration_stale, create_sandbox_stale,
}

-- The sandbox and the epoch that a request is fenced by. A preparation is checked against its
-- reservation only, and the rollback of a running source against nothing.
abbrev pub fenced_by : Request → Option (String × ℕ)
fenced_by (create request) = some (request.id, request.epoch)
fenced_by (command id epoch request) = some (id, epoch)
fenced_by (write_file id epoch request) = some (id, epoch)
fenced_by (expose_port id epoch guest_port) = some (id, epoch)
fenced_by (pause id epoch) = some (id, epoch)
fenced_by (resume id epoch) = some (id, epoch)
fenced_by (fence id epoch) = some (id, epoch)
fenced_by (probe id epoch) = some (id, epoch)
fenced_by (precopy id epoch) = some (id, epoch)
fenced_by (pause_phase id epoch) = some (id, epoch)
fenced_by (resume_phase id epoch) = some (id, epoch)
fenced_by (snapshot id request) = some (id, request.epoch)
fenced_by (snapshot_phase id request) = some (id, request.epoch)
fenced_by (load id epoch manifest) = some (id, epoch)
fenced_by (quarantine id epoch migration_id) = some (id, epoch)
fenced_by (verify id epoch migration_id) = some (id, epoch)
fenced_by (fence_cleanup id epoch migration_id) = some (id, epoch)
fenced_by (transfer id epoch request) = some (id, epoch)
fenced_by (get id) = none
fenced_by (artifact id kind) = none
fenced_by (register_artifact id descriptor) = none
fenced_by (validate manifest) = none
fenced_by (prepare id epoch request) = none
fenced_by (rollback id epoch repair_clock) = none

-- The epoch of a fenced request is behind.
abbrev StaleFor : WorkerCore → Option (String × ℕ) → Type 0
StaleFor core none = ⊥
StaleFor core (some (id, epoch)) = IsStale core id epoch

serve_stale :
    (q : Request) (core : WorkerCore) → StaleFor core (fenced_by q) → Keeps (Unmoved core) (serve q)
unfolding serve
serve_stale (create request) core h = search (keeps_rules, create_sandbox_stale core request h)
serve_stale (command id epoch request) core h = run_guest_command_stale core id epoch h request
serve_stale (write_file id epoch request) core h = write_guest_file_stale core id epoch h request
serve_stale (expose_port id epoch guest_port) core h =
    search (keeps_rules, expose_guest_port_stale core id epoch h guest_port)
serve_stale (pause id epoch) core h = pause_sandbox_stale core id epoch h
serve_stale (resume id epoch) core h = resume_sandbox_stale core id epoch h
serve_stale (fence id epoch) core h = fence_sandbox_stale core id epoch h
serve_stale (probe id epoch) core h = search (keeps_rules, probe_migration_stale core id epoch h)
serve_stale (precopy id epoch) core h = precopy_migration_stale core id epoch h
serve_stale (pause_phase id epoch) core h = pause_migration_stale core id epoch h
serve_stale (resume_phase id epoch) core h = resume_migration_stale core id epoch h
serve_stale (snapshot id request) core h =
    search (
      keeps_rules,
      Keeps-Rejects,
      create_snapshot_stale core id request.epoch h request.migration_id,
    )
serve_stale (snapshot_phase id request) core h =
    search (keeps_rules, snapshot_migration_stale core id request.epoch h request.migration_id)
serve_stale (load id epoch manifest) core h = load_snapshot_stale core id epoch h manifest
serve_stale (quarantine id epoch migration_id) core h =
    search (keeps_rules, quarantine_sandbox_stale core id epoch h migration_id)
serve_stale (verify id epoch migration_id) core h =
    search (keeps_rules, verify_migration_stale core id epoch h migration_id)
serve_stale (fence_cleanup id epoch migration_id) core h =
    search (keeps_rules, fence_and_cleanup_stale core id epoch h migration_id)
serve_stale (transfer id epoch request) core h =
    search (keeps_rules, transfer_migration_stale core id epoch h request)
serve_stale (get id) core h = absurd h
serve_stale (artifact id kind) core h = absurd h
serve_stale (register_artifact id descriptor) core h = absurd h
serve_stale (validate manifest) core h = absurd h
serve_stale (prepare id epoch request) core h = absurd h
serve_stale (rollback id epoch repair_clock) core h = absurd h

-- A request that carries an epoch, and is neither a preparation nor a rollback, changes nothing if
-- the epoch is behind the one that the worker has accepted for its sandbox: not the state, and no
-- call goes out to the host, the guest or Firecracker.
pub stale_changes_nothing :
    (q : Request) (id : String) (epoch : ℕ) (core : WorkerCore)
    → fenced_by q ≡ some (id, epoch)
    → IsStale core id epoch
    → (serve q core).1 ≡ core
stale_changes_nothing q id epoch core named stale =
    (serve_stale q core (subst (StaleFor core) (sym named) stale)).at core refl
