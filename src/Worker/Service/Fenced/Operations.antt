-- ===== src/Worker/Service/Fenced/Operations.antt =====
-- A fenced sandbox through the operations of WorkerService, and through those on other sandboxes.
use firemig.Prelude.{ℕ, ◌≢◌, String}
use firemig.Common.Types.{CompatibilityManifest, RunCommandRequest, WriteFileRequest}
use firemig.Artifacts.Pull.Tasks.{run_abortable_operations-Keeps}
use firemig.Worker.Types.{SandboxRecord}
use firemig.Worker.Core.Frame.{
  On, Ledger, frame_laws, stop_processes-On, on_allocator-On, on_host-On, run_cleanup_plans-On,
  record_of-On,
}
use firemig.Worker.Lifecycle.{
  pause_sandbox, load_machine, load_verified, load_snapshot, resume_machine, resume_sandbox,
  fence_machine, fence_sandbox, quarantine_live, quarantine_sandbox,
}
use firemig.Worker.Snapshot.{create_snapshot}
use firemig.Worker.GuestOps.{
  expose_new_port, expose_guest_port, run_guest_command, write_guest_file,
}
use firemig.Worker.Verify.{fence_and_cleanup}
use firemig.Worker.Service.EpochBound.Operations.{
  or_else_do-On, existing_or-On, validate_manifest-On, pause_if_running-On,
}
use firemig.Worker.Service.Fenced.Rules.{
  HeldFenced, Fenced, KeepsFenced, on_epochs-Fenced, consume-Fenced, write_other, write_fenced,
  fence_write, mutable_bind,
}

module _ (id : String) where
  pub ruleset rules = (
    frame_laws, on_epochs-Fenced, consume-Fenced, validate_manifest-On, pause_if_running-On,
    or_else_do-On, existing_or-On, run_abortable_operations-Keeps, fence_write, write_other,
  )

  pub pause_sandbox-Fenced : (j : String) (epoch : ℕ) → KeepsFenced id (pause_sandbox j epoch)
  unfolding pause_sandbox
  pause_sandbox-Fenced j epoch = mutable_bind id j epoch _ _ λ other r. search rules depth 20

  pub resume_sandbox-Fenced : (j : String) (epoch : ℕ) → KeepsFenced id (resume_sandbox j epoch)
  unfolding resume_sandbox resume_machine
  resume_sandbox-Fenced j epoch = mutable_bind id j epoch _ _ λ other r. search rules depth 30

  load_verified-Fenced :
      (j : String) (epoch : ℕ) (manifest : CompatibilityManifest)
      → KeepsFenced id (load_verified j epoch manifest)
  unfolding load_verified load_machine
  load_verified-Fenced j epoch manifest =
      mutable_bind id j epoch _ _ λ other r. search rules depth 30

  pub load_snapshot-Fenced :
      (j : String) (epoch : ℕ) (manifest : CompatibilityManifest)
      → KeepsFenced id (load_snapshot j epoch manifest)
  unfolding load_snapshot
  load_snapshot-Fenced j epoch manifest = search (rules, load_verified-Fenced) depth 30

  pub fence_sandbox-Fenced : (j : String) (epoch : ℕ) → KeepsFenced id (fence_sandbox j epoch)
  unfolding fence_sandbox fence_machine
  fence_sandbox-Fenced j epoch = search rules depth 30

  quarantine_live-Fenced :
      (r : SandboxRecord) (j : String) (epoch : ℕ) (migration_id : String)
      → j ≢ id
      → KeepsFenced id (quarantine_live r j epoch migration_id)
  unfolding quarantine_live
  quarantine_live-Fenced r j epoch migration_id other = search rules depth 40

  pub quarantine_sandbox-Fenced :
      (j : String) (epoch : ℕ) (migration_id : String)
      → j ≢ id
      → KeepsFenced id (quarantine_sandbox j epoch migration_id)
  unfolding quarantine_sandbox
  quarantine_sandbox-Fenced j epoch migration_id other =
      search (rules, quarantine_live-Fenced) depth 20

  pub fence_and_cleanup-Fenced :
      (j : String) (epoch : ℕ) (migration_id : String)
      → j ≢ id
      → KeepsFenced id (fence_and_cleanup j epoch migration_id)
  unfolding fence_and_cleanup
  fence_and_cleanup-Fenced j epoch migration_id other =
      search (rules, fence_sandbox-Fenced, quarantine_sandbox-Fenced) depth 20

  pub create_snapshot-Fenced :
      (j migration_id : String) (epoch : ℕ)
      → KeepsFenced id (create_snapshot j (record { migration_id = migration_id; epoch = epoch }))
  unfolding create_snapshot
  create_snapshot-Fenced j migration_id epoch =
      mutable_bind id j epoch _ _ λ other r. search rules depth 40

  pub run_guest_command-Fenced :
      (j : String) (epoch : ℕ) (request : RunCommandRequest)
      → KeepsFenced id (run_guest_command j epoch request)
  unfolding run_guest_command
  run_guest_command-Fenced j epoch request = mutable_bind id j epoch _ _ λ other r. search rules

  pub write_guest_file-Fenced :
      (j : String) (epoch : ℕ) (request : WriteFileRequest)
      → KeepsFenced id (write_guest_file j epoch request)
  unfolding write_guest_file
  write_guest_file-Fenced j epoch request =
      mutable_bind id j epoch _ _ λ other r. search rules depth 12

  expose_new_port-Fenced :
      (r : SandboxRecord) (j : String) (port : ℕ)
      → j ≢ id
      → KeepsFenced id (expose_new_port r j port)
  unfolding expose_new_port
  expose_new_port-Fenced r j port other = search rules depth 40

  pub expose_guest_port-Fenced :
      (j : String) (epoch port : ℕ) → KeepsFenced id (expose_guest_port j epoch port)
  unfolding expose_guest_port
  expose_guest_port-Fenced j epoch port =
      mutable_bind id j epoch _ _ λ other r. search (rules, expose_new_port-Fenced) depth 20
