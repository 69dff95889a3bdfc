-- ===== src/Worker/Service/Fenced/Phases.antt =====
-- A fenced sandbox through the phases of migrations.
use firemig.Prelude.{ℕ, String, Bool, Option, none, some}
use firemig.Common.Types.{ArtifactDescriptor, CompatibilityManifest}
use firemig.Exec.Keeps.{Keeps-bind, Keeps-refuse}
use firemig.Worker.Types.{SandboxRecord, PrepareMigrationRequest, TransferMigrationRequest}
use firemig.Worker.Core.{write_record}
use firemig.Worker.Phases.{
  pause_migration, cached_snapshot, new_snapshot, snapshot_by, resume_migration, probe_migration,
  precopy_migration,
}
use firemig.Worker.Migration.{ensure_by, ensure_destination_reservation, prepare_migration}
use firemig.Worker.Transfer.{
  transfer_artifact, fetch_and_register, with_artifact, transfer_migration,
}
use firemig.Worker.Verify.{roll_back_running, rollback_migration, verify_migration}
use firemig.Worker.Service.Fenced.Rules.{KeepsFenced, write_fenced, mutable_bind}
use firemig.Worker.Service.Fenced.Operations.{
  rules, pause_sandbox-Fenced, resume_sandbox-Fenced, create_snapshot-Fenced,
  expose_guest_port-Fenced,
}
use firemig.Worker.Service.Fenced.Creation.{create_sandbox-Fenced}

module _ (id : String) where
  pub probe_migration-Fenced : (j : String) (epoch : ℕ) → KeepsFenced id (probe_migration j epoch)
  unfolding probe_migration
  probe_migration-Fenced j epoch = mutable_bind id j epoch _ _ λ other r. search rules depth 12

  pub precopy_migration-Fenced :
      (j : String) (epoch : ℕ) → KeepsFenced id (precopy_migration j epoch)
  unfolding precopy_migration
  precopy_migration-Fenced j epoch = mutable_bind id j epoch _ _ λ other r. search rules

  pub pause_migration-Fenced : (j : String) (epoch : ℕ) → KeepsFenced id (pause_migration j epoch)
  unfolding pause_migration
  pause_migration-Fenced j epoch = search (rules, pause_sandbox-Fenced) depth 12

  pub resume_migration-Fenced : (j : String) (epoch : ℕ) → KeepsFenced id (resume_migration j epoch)
  unfolding resume_migration
  resume_migration-Fenced j epoch = search (rules, resume_sandbox-Fenced) depth 12

  pub snapshot_by-Fenced :
      (o : Option CompatibilityManifest) (j migration_id : String) (epoch : ℕ)
      → KeepsFenced id (snapshot_by o j (record { migration_id = migration_id; epoch = epoch }))
  unfolding new_snapshot cached_snapshot
  snapshot_by-Fenced none j migration_id epoch = search (rules, create_snapshot-Fenced) depth 20
  snapshot_by-Fenced (some cached) j migration_id epoch = search rules depth 20

  pub verify_migration-Fenced :
      (j : String) (epoch : ℕ) (migration_id : String)
      → KeepsFenced id (verify_migration j epoch migration_id)
  unfolding verify_migration
  verify_migration-Fenced j epoch migration_id =
      mutable_bind id j epoch _ _ λ other r. search rules depth 12

  pub rollback_migration-Fenced :
      (j : String) (epoch : ℕ) (repair_clock : Bool)
      → KeepsFenced id (rollback_migration j epoch repair_clock)
  unfolding rollback_migration roll_back_running
  rollback_migration-Fenced j epoch repair_clock = search (rules, resume_sandbox-Fenced) depth 20

  ensure_by-Fenced :
      (o : Option SandboxRecord) (j : String) (epoch : ℕ) (request : PrepareMigrationRequest)
      → KeepsFenced id (ensure_by o j epoch request)
  ensure_by-Fenced none j epoch request = search (rules, create_sandbox-Fenced) depth 12
  ensure_by-Fenced (some existing) j epoch request = Keeps-refuse _ _

  pub prepare_migration-Fenced :
      (j : String) (epoch : ℕ) (request : PrepareMigrationRequest)
      → KeepsFenced id (prepare_migration j epoch request)
  unfolding prepare_migration ensure_destination_reservation
  prepare_migration-Fenced j epoch request = search (rules, ensure_by-Fenced) depth 40

  pub register-Fenced :
      (j : String) (d : ArtifactDescriptor) → KeepsFenced id (write_record j (with_artifact d))
  register-Fenced j d = write_fenced id j (with_artifact d) λ r h. h

  fetch_and_register-Fenced :
      (j source url : String) (d : ArtifactDescriptor)
      → KeepsFenced id (fetch_and_register j source url d)
  unfolding fetch_and_register transfer_artifact
  fetch_and_register-Fenced j source url d = search (rules, register-Fenced) depth 20

  pub transfer_migration-Fenced :
      (j : String) (epoch : ℕ) (request : TransferMigrationRequest)
      → KeepsFenced id (transfer_migration j epoch request)
  unfolding transfer_migration
  transfer_migration-Fenced j epoch request = Keeps-bind _ _ (search rules) λ _.
      Keeps-bind _ _ (search rules) λ _.
        mutable_bind id j epoch _ _
          λ other r. search (rules, fetch_and_register-Fenced, expose_guest_port-Fenced) depth 40
