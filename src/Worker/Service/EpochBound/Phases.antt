-- ===== src/Worker/Service/EpochBound/Phases.antt =====
-- The epochs through the phases of a migration.
use firemig.Prelude.{ℕ, String, Bool, Option, none, some}
use firemig.Common.Types.{ArtifactKind, ArtifactDescriptor, CompatibilityManifest}
use firemig.Exec.Keeps.{Keeps, Keeps-bind, Keeps-gets, Keeps-refuse}
use firemig.Artifacts.Pull.Tasks.{run_abortable_operations-Keeps}
use firemig.Worker.Types.{SandboxRecord, PrepareMigrationRequest, TransferMigrationRequest}
use firemig.Worker.Core.Frame.{On}
use firemig.Worker.Core.Epochs.{Floor, raise, mutable_bind}
use firemig.Worker.Phases.{
  probe_migration, precopy_migration, pause_migration, cached_snapshot, new_snapshot, snapshot_by,
  snapshot_migration, resume_migration,
}
use firemig.Worker.Migration.{ensure_by, ensure_destination_reservation, prepare_migration}
use firemig.Worker.Transfer.{transfer_artifact, fetch_and_register, transfer_migration}
use firemig.Worker.Verify.{
  verify_migration, roll_back_running, rollback_migration, fence_and_cleanup,
}
use firemig.Worker.Service.EpochBound.Operations.{
  or_else_do-On, epoch_rules, pause_sandbox-Floor, resume_sandbox-Floor, fence_sandbox-Floor,
  quarantine_sandbox-Floor, create_snapshot-Floor, expose_guest_port-Floor,
}
use firemig.Worker.Service.EpochBound.Creation.{create_sandbox-Floor}

module _ (floor : String → ℕ) (id : String) (epoch : ℕ) where
  pub probe_migration-Floor : Keeps (On (Floor floor)) (probe_migration id epoch)
  unfolding probe_migration
  probe_migration-Floor = mutable_bind floor id epoch _ _ λ r. search epoch_rules

  pub precopy_migration-Floor : Keeps (On (Floor floor)) (precopy_migration id epoch)
  unfolding precopy_migration
  precopy_migration-Floor = mutable_bind floor id epoch _ _ λ r. search epoch_rules

  pub pause_migration-Floor : Keeps (On (Floor floor)) (pause_migration id epoch)
  unfolding pause_migration
  pause_migration-Floor = search (epoch_rules, pause_sandbox-Floor) depth 12

  pub resume_migration-Floor : Keeps (On (Floor floor)) (resume_migration id epoch)
  unfolding resume_migration
  resume_migration-Floor = search (epoch_rules, resume_sandbox-Floor) depth 12

  snapshot_by-Floor :
      (o : Option CompatibilityManifest) (migration_id : String)
      → Keeps
          (On (Floor floor))
          (snapshot_by o id (record { migration_id = migration_id; epoch = epoch }))
  unfolding new_snapshot cached_snapshot
  snapshot_by-Floor none migration_id = search (epoch_rules, create_snapshot-Floor) depth 20
  snapshot_by-Floor (some cached) migration_id = search epoch_rules depth 20

  pub snapshot_migration-Floor :
      (migration_id : String)
      → Keeps
          (On (Floor floor))
          (snapshot_migration id (record { migration_id = migration_id; epoch = epoch }))
  unfolding snapshot_migration
  snapshot_migration-Floor migration_id =
      Keeps-bind _ _ (Keeps-gets _) λ o. snapshot_by-Floor o migration_id

  pub verify_migration-Floor :
      (migration_id : String) → Keeps (On (Floor floor)) (verify_migration id epoch migration_id)
  unfolding verify_migration
  verify_migration-Floor migration_id =
      mutable_bind floor id epoch _ _ λ r. search epoch_rules depth 12

  roll_back_running-Floor :
      (r : SandboxRecord) (repair_clock : Bool)
      → Keeps (On (Floor floor)) (roll_back_running r repair_clock)
  unfolding roll_back_running
  roll_back_running-Floor r repair_clock = search epoch_rules depth 12

  pub rollback_migration-Floor :
      (repair_clock : Bool) → Keeps (On (Floor floor)) (rollback_migration id epoch repair_clock)
  unfolding rollback_migration
  rollback_migration-Floor repair_clock =
      search (epoch_rules, resume_sandbox-Floor, roll_back_running-Floor) depth 12

  pub fence_and_cleanup-Floor :
      (migration_id : String) → Keeps (On (Floor floor)) (fence_and_cleanup id epoch migration_id)
  unfolding fence_and_cleanup
  fence_and_cleanup-Floor migration_id =
      search (epoch_rules, or_else_do-On, fence_sandbox-Floor, quarantine_sandbox-Floor) depth 12

  ensure_by-Floor :
      (o : Option SandboxRecord) (request : PrepareMigrationRequest)
      → Keeps (On (Floor floor)) (ensure_by o id epoch request)
  ensure_by-Floor none request = search (epoch_rules, create_sandbox-Floor) depth 12
  ensure_by-Floor (some existing) request = Keeps-refuse _ _

  ensure-Floor :
      (request : PrepareMigrationRequest)
      → Keeps (On (Floor floor)) (ensure_destination_reservation id epoch request)
  unfolding ensure_destination_reservation
  ensure-Floor request = Keeps-bind _ _ (Keeps-gets _) λ o. ensure_by-Floor o request

  pub prepare_migration-Floor :
      (request : PrepareMigrationRequest)
      → Keeps (On (Floor floor)) (prepare_migration id epoch request)
  unfolding prepare_migration
  prepare_migration-Floor request = search (epoch_rules, ensure-Floor) depth 30

fetch_and_register-Floor :
    (floor : String → ℕ) (id source url : String) (descriptor : ArtifactDescriptor)
    → Keeps (On (Floor floor)) (fetch_and_register id source url descriptor)
unfolding fetch_and_register transfer_artifact
fetch_and_register-Floor floor id source url descriptor = search epoch_rules depth 20

pub transfer_migration-Floor :
    (floor : String → ℕ) (id : String) (epoch : ℕ) (request : TransferMigrationRequest)
    → Keeps (On (Floor floor)) (transfer_migration id epoch request)
unfolding transfer_migration
transfer_migration-Floor floor id epoch request = Keeps-bind _ _ (search epoch_rules) λ _.
    Keeps-bind _ _ (search epoch_rules) λ _. mutable_bind floor id epoch _ _ λ r.
      let fetch = λ (url : String) (kind : ArtifactKind).
        fetch_and_register-Floor (raise floor id epoch) id request.source url
          (request.manifest.artifacts kind) in
      search (epoch_rules, run_abortable_operations-Keeps, fetch, expose_guest_port-Floor) depth 30
