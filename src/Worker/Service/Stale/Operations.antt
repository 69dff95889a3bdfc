-- ===== src/Worker/Service/Stale/Operations.antt =====
-- The operations of packages/agent/src/worker at an epoch behind the accepted one.
use firemig.Prelude.{ℕ, ◌≡◌, String, Option, none, some, subst, sym}
use firemig.Common.Types.{CompatibilityManifest, FilePath, RunCommandRequest, WriteFileRequest}
use firemig.Exec.{Exec}
use firemig.Exec.Keeps.{
  Keeps, Rejects, keeps_rules, Rejects-bind, Keeps-Rejects, Keeps-gets, Keeps-bind, Keeps-refuse,
  Keeps-lift,
}
use firemig.Common.Phases.{SandboxState}
use firemig.Platform.Epochs.{accept}
use firemig.Worker.Types.{
  SandboxRecord, WorkerCore, TransferMigrationRequest, CreateWorkerSandboxRequest,
}
use firemig.Worker.Core.{on_epochs, record_of, mutable_record}
use firemig.Worker.Core.Fencing.{IsStale, accept-Rejects, mutable_record-Rejects}
use firemig.Worker.Manifest.{validate_manifest}
use firemig.Worker.Lifecycle.{
  pause_sandbox, load_machine, load_verified, load_snapshot, resume_sandbox, fence_sandbox,
  quarantine_live, quarantine_sandbox, or_else_do,
}
use firemig.Worker.Snapshot.{create_snapshot}
use firemig.Worker.GuestOps.{run_guest_command, write_guest_file, expose_guest_port}
use firemig.Worker.Create.{create_sandbox}
use firemig.Worker.Phases.{
  probe_migration, precopy_migration, pause_migration, cached_snapshot, new_snapshot,
  snapshot_migration, snapshot_by, resume_migration,
}
use firemig.Worker.Transfer.{transfer_migration}
use firemig.Worker.Verify.{verify_migration, fence_and_cleanup}

abbrev pub Unmoved : WorkerCore → WorkerCore → Type 0
Unmoved core s = s ≡ core

record_of-Keeps : (P : WorkerCore → Type 0) (id : String) → Keeps P (record_of id)
unfolding record_of
record_of-Keeps P id = record { at = λ s h. h }

validate_manifest-Keeps :
    (P : WorkerCore → Type 0) (manifest : CompatibilityManifest)
    → Keeps P (validate_manifest manifest)
unfolding validate_manifest
validate_manifest-Keeps P manifest = search keeps_rules depth 12

or_else_do-Keeps :
    (P : WorkerCore → Type 0) (o : Option FilePath) (m : Exec WorkerCore FilePath)
    → Keeps P m
    → Keeps P (or_else_do o m)
or_else_do-Keeps P none m k = k
or_else_do-Keeps P (some path) m k = search keeps_rules

module _ (core : WorkerCore) (id : String) (epoch : ℕ) (stale : IsStale core id epoch) where
  accept_stale : Rejects (Unmoved core) (on_epochs (accept id epoch))
  accept_stale = record {
    at =
        λ s same. (accept-Rejects id epoch).at s (subst (λ c. IsStale c id epoch) (sym same) stale);
  }

  mutable_stale :
      (expected : Option SandboxState) → Rejects (Unmoved core) (mutable_record id epoch expected)
  mutable_stale expected = record {
    at = λ s same.
        (mutable_record-Rejects id epoch expected).at s
          (subst (λ c. IsStale c id epoch) (sym same) stale);
  }

  ruleset stale_rules = (
    keeps_rules, Keeps-Rejects, Rejects-bind, accept_stale, mutable_stale, record_of-Keeps,
    validate_manifest-Keeps, or_else_do-Keeps,
  )

  pub pause_sandbox_stale : Keeps (Unmoved core) (pause_sandbox id epoch)
  unfolding pause_sandbox
  pause_sandbox_stale = search stale_rules

  pub resume_sandbox_stale : Keeps (Unmoved core) (resume_sandbox id epoch)
  unfolding resume_sandbox
  resume_sandbox_stale = search stale_rules

  pub load_snapshot_stale :
      (manifest : CompatibilityManifest) → Keeps (Unmoved core) (load_snapshot id epoch manifest)
  unfolding load_snapshot load_verified load_machine
  load_snapshot_stale manifest = search stale_rules depth 24

  pub fence_sandbox_stale : Keeps (Unmoved core) (fence_sandbox id epoch)
  unfolding fence_sandbox
  fence_sandbox_stale = search stale_rules depth 12

  quarantine_live_stale :
      (r : SandboxRecord) (migration_id : String)
      → Keeps (Unmoved core) (quarantine_live r id epoch migration_id)
  unfolding quarantine_live
  quarantine_live_stale r migration_id = search stale_rules depth 20

  pub quarantine_sandbox_stale :
      (migration_id : String) → Keeps (Unmoved core) (quarantine_sandbox id epoch migration_id)
  unfolding quarantine_sandbox
  quarantine_sandbox_stale migration_id = search (stale_rules, quarantine_live_stale) depth 20

  pub create_snapshot_stale :
      (migration_id : String)
      → Rejects
          (Unmoved core)
          (create_snapshot id (record { migration_id = migration_id; epoch = epoch }))
  unfolding create_snapshot
  create_snapshot_stale migration_id = search stale_rules depth 20

  pub run_guest_command_stale :
      (request : RunCommandRequest) → Keeps (Unmoved core) (run_guest_command id epoch request)
  unfolding run_guest_command
  run_guest_command_stale request = search stale_rules depth 20

  pub write_guest_file_stale :
      (request : WriteFileRequest) → Keeps (Unmoved core) (write_guest_file id epoch request)
  unfolding write_guest_file
  write_guest_file_stale request = search stale_rules depth 20

  pub expose_guest_port_stale :
      (guest_port : ℕ) → Keeps (Unmoved core) (expose_guest_port id epoch guest_port)
  unfolding expose_guest_port
  expose_guest_port_stale guest_port = search stale_rules depth 20

  pub probe_migration_stale : Keeps (Unmoved core) (probe_migration id epoch)
  unfolding probe_migration
  probe_migration_stale = search stale_rules depth 20

  pub precopy_migration_stale : Keeps (Unmoved core) (precopy_migration id epoch)
  unfolding precopy_migration
  precopy_migration_stale = search stale_rules depth 20

  pub pause_migration_stale : Keeps (Unmoved core) (pause_migration id epoch)
  unfolding pause_migration
  pause_migration_stale = search (stale_rules, pause_sandbox_stale) depth 20

  pub resume_migration_stale : Keeps (Unmoved core) (resume_migration id epoch)
  unfolding resume_migration
  resume_migration_stale = search (stale_rules, resume_sandbox_stale) depth 20

  pub verify_migration_stale :
      (migration_id : String) → Keeps (Unmoved core) (verify_migration id epoch migration_id)
  unfolding verify_migration
  verify_migration_stale migration_id = search stale_rules depth 20

  pub fence_and_cleanup_stale :
      (migration_id : String) → Keeps (Unmoved core) (fence_and_cleanup id epoch migration_id)
  unfolding fence_and_cleanup
  fence_and_cleanup_stale migration_id =
      search (stale_rules, fence_sandbox_stale, quarantine_sandbox_stale) depth 20

  pub transfer_migration_stale :
      (request : TransferMigrationRequest)
      → Keeps (Unmoved core) (transfer_migration id epoch request)
  unfolding transfer_migration
  transfer_migration_stale request = search stale_rules depth 20

  snapshot_by_stale :
      (o : Option CompatibilityManifest) (migration_id : String)
      → Keeps
          (Unmoved core)
          (snapshot_by o id (record { migration_id = migration_id; epoch = epoch }))
  unfolding new_snapshot cached_snapshot
  snapshot_by_stale none migration_id = search (stale_rules, create_snapshot_stale) depth 20
  snapshot_by_stale (some cached) migration_id = search stale_rules depth 20

  pub snapshot_migration_stale :
      (migration_id : String)
      → Keeps
          (Unmoved core)
          (snapshot_migration id (record { migration_id = migration_id; epoch = epoch }))
  unfolding snapshot_migration
  snapshot_migration_stale migration_id =
      Keeps-bind _ _ (Keeps-gets _) (λ o. snapshot_by_stale o migration_id)

pub create_sandbox_stale :
    (core : WorkerCore) (request : CreateWorkerSandboxRequest)
    → IsStale core request.id request.epoch
    → Keeps (Unmoved core) (create_sandbox request)
unfolding create_sandbox
create_sandbox_stale core request stale = Keeps-bind _ _ (Keeps-gets _) λ existing.
    Keeps-bind _ _ (Keeps-refuse _ _) λ _.
      Keeps-bind _ _ (Keeps-lift _)
        λ _. Keeps-Rejects _ (Rejects-bind _ _ (accept_stale core request.id request.epoch stale))
