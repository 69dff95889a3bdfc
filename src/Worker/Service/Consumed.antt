-- ===== src/Worker/Service/Consumed.antt =====
-- The set of consumed snapshots through the requests of packages/agent/src/worker/index.ts.
pub mod Operations
use firemig.Prelude.{
  ℕ, ◌≡◌, refl, String, Bool, true, false, Option, none, some, List, [], ◌∷◌, All, arith, ◌===◌,
  if◌then◌else◌, delete,
}
use firemig.Common.Errors.{Thrown}
use firemig.Common.Phases.{SandboxState}
use firemig.Common.Types.{
  ArtifactKind, ArtifactDescriptor, CompatibilityManifest, FilePath, PortExposure,
}
use firemig.Exec.{Settled, fulfilled, rejected, Exec, ◌>>=◌, modify, within}
use firemig.Exec.Keeps.{
  Keeps, keeps_rules, Keeps-bind, Keeps-gets, Keeps-settle, Keeps-catch, Keeps-throw, Keeps-refuse,
  Keeps-modify,
}
use firemig.Platform.Paths.{SandboxPaths}
use firemig.Platform.Epochs.{EpochStore}
use firemig.Network.{NetworkIdentity}
use firemig.Artifacts.Pull.Tasks.{run_abortable_operations-Keeps}
use firemig.Worker.Types.{
  SandboxRecord, WorkerCore, CreateWorkerSandboxRequest, SnapshotRequest, PrepareMigrationRequest,
}
use firemig.Worker.Core.{on_epochs, write_record, fence_quietly, admit, mutable_record}
use firemig.Worker.Core.Frame.{
  On, Ledger, frame_laws, write_record-On, stop_processes-On, on_allocator-On, on_host-On,
  run_cleanup_plans-On,
}
use firemig.Worker.Manifest.{validate_manifest, read_artifact}
use firemig.Worker.Lifecycle.{
  pause_sandbox, load_verified, load_snapshot, consume_snapshot, resume_sandbox, pause_if_running,
  fence_sandbox, quarantine_live, quarantine_sandbox, or_else_do,
}
use firemig.Worker.Snapshot.{create_snapshot}
use firemig.Worker.GuestOps.{
  run_guest_command, write_guest_file, expose_new_port, existing_or, expose_guest_port,
}
use firemig.Worker.Create.{
  create_sandbox, set_up, bring_up, undo_create, start_sandbox, then_bring_up, then_set_up,
}
use firemig.Worker.Create.Boot.{register_record, boot_guest, claim_physical_directory}
use firemig.Worker.Phases.{
  probe_migration, precopy_migration, pause_migration, cached_snapshot, new_snapshot, snapshot_by,
  snapshot_migration, resume_migration,
}
use firemig.Worker.Migration.{ensure_by, ensure_destination_reservation, prepare_migration}
use firemig.Worker.Transfer.{transfer_artifact, fetch_and_register, transfer_migration}
use firemig.Worker.Verify.{
  verify_migration, roll_back_running, rollback_migration, fence_and_cleanup,
}
use firemig.Worker.Service.{
  Request, create, get, command, write_file, expose_port, pause, resume, fence, probe, precopy,
  pause_phase, resume_phase, snapshot, snapshot_phase, load, quarantine, verify, fence_cleanup,
  artifact, register_artifact, validate, prepare, transfer, rollback, serve, serve_all,
}
use firemig.Worker.Service.Consumed.Operations.{Consumed, KeepsConsumed, operation_rules}

serve-Consumed : (m : String) (q : Request) → KeepsConsumed m (serve q)
unfolding serve run_guest_command write_guest_file probe_migration precopy_migration
    snapshot_migration read_artifact transfer_migration verify_migration
serve-Consumed m (create request) = search operation_rules
serve-Consumed m (get id) = search operation_rules
serve-Consumed m (command id epoch request) = search operation_rules
serve-Consumed m (write_file id epoch request) = search operation_rules depth 12
serve-Consumed m (expose_port id epoch guest_port) = search operation_rules
serve-Consumed m (pause id epoch) = search operation_rules
serve-Consumed m (resume id epoch) = search operation_rules
serve-Consumed m (fence id epoch) = search operation_rules
serve-Consumed m (probe id epoch) = search operation_rules depth 12
serve-Consumed m (precopy id epoch) = search operation_rules
serve-Consumed m (pause_phase id epoch) = search operation_rules
serve-Consumed m (resume_phase id epoch) = search operation_rules
serve-Consumed m (snapshot id request) = search operation_rules
serve-Consumed m (snapshot_phase id request) = search operation_rules depth 12
serve-Consumed m (load id epoch manifest) = search operation_rules
serve-Consumed m (quarantine id epoch migration_id) = search operation_rules
serve-Consumed m (verify id epoch migration_id) = search operation_rules depth 20
serve-Consumed m (fence_cleanup id epoch migration_id) = search operation_rules
serve-Consumed m (artifact id kind) = search operation_rules depth 12
serve-Consumed m (register_artifact id descriptor) = search operation_rules
serve-Consumed m (validate manifest) = search operation_rules
serve-Consumed m (prepare id epoch request) = search operation_rules
serve-Consumed m (transfer id epoch request) = search operation_rules depth 40
serve-Consumed m (rollback id epoch repair_clock) = search operation_rules

-- A migration id that was consumed stays consumed through every sequence of requests.
pub consumed_forever :
    (m : String) (qs : List Request) (core : WorkerCore)
    → core.consumed_snapshots m ≡ true
    → (serve_all qs core).consumed_snapshots m ≡ true
unfolding serve_all
consumed_forever m [] core h = h
consumed_forever m (q ∷ qs) core h =
    consumed_forever m qs _ ((serve-Consumed m q).at core (record { holds = h })).holds
