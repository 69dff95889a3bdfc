-- ===== src/Worker/Service.antt =====
-- packages/agent/src/worker/index.ts and migration/worker-facade.ts: every request that the HTTP
-- routes hand to WorkerService, and a run of the worker as the sequence of the requests it serves.
pub mod Stale
pub mod EpochBound
pub mod Consumed
pub mod SingleResume
pub mod Fenced
use firemig.Prelude.{ℕ, String, Bool, List, [], ◌∷◌}
use firemig.Common.Types.{
  ArtifactKind, ArtifactDescriptor, CompatibilityManifest, RunCommandRequest, WriteFileRequest,
}
use firemig.Exec.{Exec, done, ◌>>=◌, ◌>>◌}
use firemig.Worker.Types.{
  CreateWorkerSandboxRequest, SnapshotRequest, PrepareMigrationRequest, TransferMigrationRequest,
  WorkerCore,
}
use firemig.Worker.Core.{record_of, write_record}
use firemig.Worker.Manifest.{read_artifact, validate_manifest}
use firemig.Worker.Lifecycle.{
  pause_sandbox, load_snapshot, resume_sandbox, fence_sandbox, quarantine_sandbox,
}
use firemig.Worker.Snapshot.{create_snapshot}
use firemig.Worker.GuestOps.{run_guest_command, write_guest_file, expose_guest_port}
use firemig.Worker.Create.{create_sandbox}
use firemig.Worker.Phases.{
  probe_migration, precopy_migration, pause_migration, snapshot_migration, resume_migration,
}
use firemig.Worker.Migration.{prepare_migration}
use firemig.Worker.Transfer.{transfer_migration, with_artifact}
use firemig.Worker.Verify.{verify_migration, rollback_migration, fence_and_cleanup}

pub data Request : Type 0 where
  create : CreateWorkerSandboxRequest → Request
  get : String → Request
  command : String → ℕ → RunCommandRequest → Request
  write_file : String → ℕ → WriteFileRequest → Request
  expose_port : String → ℕ → ℕ → Request
  pause resume fence probe precopy pause_phase resume_phase : String → ℕ → Request
  snapshot snapshot_phase : String → SnapshotRequest → Request
  load : String → ℕ → CompatibilityManifest → Request
  quarantine verify fence_cleanup : String → ℕ → String → Request
  artifact : String → ArtifactKind → Request
  register_artifact : String → ArtifactDescriptor → Request
  validate : CompatibilityManifest → Request
  prepare : String → ℕ → PrepareMigrationRequest → Request
  transfer : String → ℕ → TransferMigrationRequest → Request
  rollback : String → ℕ → Bool → Request

abbrev drop_result : {A : Type 0} → Exec WorkerCore A → Exec WorkerCore (Unit {0})
drop_result m = m >>= λ _. done

-- What a request does to the worker, and whether it is rejected.
unfoldable pub serve : Request → Exec WorkerCore (Unit {0})
serve (create request) = drop_result (create_sandbox request)
serve (get id) = drop_result (record_of id)
serve (command id epoch request) = run_guest_command id epoch request
serve (write_file id epoch request) = write_guest_file id epoch request
serve (expose_port id epoch guest_port) = drop_result (expose_guest_port id epoch guest_port)
serve (pause id epoch) = pause_sandbox id epoch
serve (resume id epoch) = resume_sandbox id epoch
serve (fence id epoch) = fence_sandbox id epoch
serve (probe id epoch) = drop_result (probe_migration id epoch)
serve (precopy id epoch) = precopy_migration id epoch
serve (pause_phase id epoch) = pause_migration id epoch
serve (resume_phase id epoch) = resume_migration id epoch
serve (snapshot id request) = drop_result (create_snapshot id request)
serve (snapshot_phase id request) = drop_result (snapshot_migration id request)
serve (load id epoch manifest) = load_snapshot id epoch manifest
serve (quarantine id epoch migration_id) = drop_result (quarantine_sandbox id epoch migration_id)
serve (verify id epoch migration_id) = drop_result (verify_migration id epoch migration_id)
serve (fence_cleanup id epoch migration_id) = drop_result (fence_and_cleanup id epoch migration_id)
serve (artifact id kind) = drop_result (read_artifact id kind)
serve (register_artifact id descriptor) = do
  record_of id
  write_record id (with_artifact descriptor)
serve (validate manifest) = validate_manifest manifest
serve (prepare id epoch request) = drop_result (prepare_migration id epoch request)
serve (transfer id epoch request) = drop_result (transfer_migration id epoch request)
serve (rollback id epoch repair_clock) = rollback_migration id epoch repair_clock

-- A rejected request leaves what it had written, and the worker serves the next one.
unfoldable pub serve_all : List Request → WorkerCore → WorkerCore
serve_all [] core = core
serve_all (q ∷ qs) core = serve_all qs (serve q core).1
