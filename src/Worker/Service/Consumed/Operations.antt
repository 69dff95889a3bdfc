-- ===== src/Worker/Service/Consumed/Operations.antt =====
-- The set of consumed snapshots through the operations of packages/agent/src/worker.
use firemig.Prelude.{ℕ, ◌≡◌, String, Bool, true, Option, none, some, arith, delete}
use firemig.Common.Errors.{Thrown}
use firemig.Common.Phases.{SandboxState}
use firemig.Common.Types.{ArtifactDescriptor, CompatibilityManifest}
use firemig.Exec.{Settled, fulfilled, rejected, Exec, modify, within}
use firemig.Exec.Keeps.{
  Keeps, keeps_rules, Keeps-bind, Keeps-gets, Keeps-settle, Keeps-catch, Keeps-throw, Keeps-refuse,
}
use firemig.Platform.Paths.{SandboxPaths}
use firemig.Platform.Epochs.{EpochStore}
use firemig.Network.{NetworkIdentity}
use firemig.Artifacts.Pull.Tasks.{run_abortable_operations-Keeps}
use firemig.Worker.Types.{
  SandboxRecord, WorkerCore, CreateWorkerSandboxRequest, SnapshotRequest, PrepareMigrationRequest,
}
use firemig.Worker.Core.{on_epochs, write_record, fence_quietly, admit, mutable_record}
use firemig.Worker.Core.Frame.{
  On, Ledger, frame_laws, write_record-On, stop_processes-On, on_allocator-On, on_host-On,
  run_cleanup_plans-On,
}
use firemig.Worker.Lifecycle.{
  pause_sandbox, load_machine, load_verified, load_snapshot, consume_snapshot, resume_machine,
  resume_sandbox, fence_machine, fence_sandbox, quarantine_live, quarantine_sandbox,
}
use firemig.Worker.Snapshot.{create_snapshot}
use firemig.Worker.GuestOps.{expose_new_port, expose_guest_port}
use firemig.Worker.Create.{
  create_sandbox, set_up, bring_up, undo_create, start_sandbox, then_bring_up, then_set_up,
}
use firemig.Worker.Create.Boot.{register_record, boot_guest, claim_physical_directory}
use firemig.Worker.Phases.{
  pause_migration, cached_snapshot, new_snapshot, snapshot_by, resume_migration,
}
use firemig.Worker.Migration.{ensure_by, ensure_destination_reservation, prepare_migration}
use firemig.Worker.Transfer.{transfer_artifact, fetch_and_register}
use firemig.Worker.Verify.{roll_back_running, rollback_migration, fence_and_cleanup}
use firemig.Worker.Service.EpochBound.Operations.{
  or_else_do-On, existing_or-On, validate_manifest-On, pause_if_running-On,
}

module _ (m : String) where
  abbrev pub Consumed : Ledger → Type 0
  Consumed l = l.consumed_snapshots m ≡ true

  abbrev pub KeepsConsumed : {A : Type 0} → Exec WorkerCore A → Type 0
  KeepsConsumed = Keeps (On Consumed)

  pub on_epochs-Consumed :
      {A : Type 0} (action : Exec EpochStore A) → KeepsConsumed (on_epochs action)
  unfolding on_epochs within
  on_epochs-Consumed action = record { at = λ s h. record { holds = h.holds } }

  pub write_record-Consumed :
      (id : String) (f : SandboxRecord → SandboxRecord) → KeepsConsumed (write_record id f)
  write_record-Consumed id f = write_record-On Consumed id f λ l h. h

  pub consume-Consumed : (o : Option String) → KeepsConsumed (consume_snapshot o)
  unfolding consume_snapshot modify
  consume-Consumed none = search keeps_rules
  consume-Consumed (some migration_id) = Keeps-bind _ _ (Keeps-gets _) λ _.
      Keeps-bind _ _ (search keeps_rules)
        λ _. record { at = λ s h. record { holds = ground (arith, h.holds) } }

  pub ruleset core_rules = (
    frame_laws, on_epochs-Consumed, write_record-Consumed, consume-Consumed, validate_manifest-On,
    pause_if_running-On, or_else_do-On, existing_or-On, run_abortable_operations-Keeps,
  )

  pub fence_quietly-Consumed :
      (r : SandboxRecord) (id : String) (epoch : ℕ) → KeepsConsumed (fence_quietly r id epoch)
  unfolding fence_quietly
  fence_quietly-Consumed r id epoch = search core_rules depth 20

  pub mutable_record-Consumed :
      (id : String) (epoch : ℕ) (expected : Option SandboxState)
      → KeepsConsumed (mutable_record id epoch expected)
  unfolding mutable_record admit
  mutable_record-Consumed id epoch expected = search (core_rules, fence_quietly-Consumed) depth 30

  pub ruleset rules = (core_rules, mutable_record-Consumed)

  pub pause_sandbox-Consumed : (id : String) (epoch : ℕ) → KeepsConsumed (pause_sandbox id epoch)
  unfolding pause_sandbox
  pause_sandbox-Consumed id epoch = search rules depth 20

  pub resume_machine-Consumed :
      (r : SandboxRecord) (id : String) (epoch : ℕ) → KeepsConsumed (resume_machine r id epoch)
  unfolding resume_machine
  resume_machine-Consumed r id epoch = search rules depth 30

  pub resume_sandbox-Consumed : (id : String) (epoch : ℕ) → KeepsConsumed (resume_sandbox id epoch)
  unfolding resume_sandbox
  resume_sandbox-Consumed id epoch = search (rules, resume_machine-Consumed) depth 20

  pub load_snapshot-Consumed :
      (id : String) (epoch : ℕ) (manifest : CompatibilityManifest)
      → KeepsConsumed (load_snapshot id epoch manifest)
  unfolding load_snapshot load_verified load_machine
  load_snapshot-Consumed id epoch manifest = search rules depth 40

  pub fence_sandbox-Consumed : (id : String) (epoch : ℕ) → KeepsConsumed (fence_sandbox id epoch)
  unfolding fence_sandbox fence_machine
  fence_sandbox-Consumed id epoch = search rules depth 30

  pub quarantine_live-Consumed :
      (r : SandboxRecord) (id : String) (epoch : ℕ) (migration_id : String)
      → KeepsConsumed (quarantine_live r id epoch migration_id)
  unfolding quarantine_live
  quarantine_live-Consumed r id epoch migration_id = search rules depth 40

  pub quarantine_sandbox-Consumed :
      (id : String) (epoch : ℕ) (migration_id : String)
      → KeepsConsumed (quarantine_sandbox id epoch migration_id)
  unfolding quarantine_sandbox
  quarantine_sandbox-Consumed id epoch migration_id =
      search (rules, quarantine_live-Consumed) depth 20

  pub create_snapshot-Consumed :
      (id : String) (request : SnapshotRequest) → KeepsConsumed (create_snapshot id request)
  unfolding create_snapshot
  create_snapshot-Consumed id request = search rules depth 40

  pub expose_new_port-Consumed :
      (r : SandboxRecord) (id : String) (port : ℕ) → KeepsConsumed (expose_new_port r id port)
  unfolding expose_new_port
  expose_new_port-Consumed r id port = search rules depth 40

  pub expose_guest_port-Consumed :
      (id : String) (epoch port : ℕ) → KeepsConsumed (expose_guest_port id epoch port)
  unfolding expose_guest_port
  expose_guest_port-Consumed id epoch port = search (rules, expose_new_port-Consumed) depth 20

  pub register_record-Consumed :
      (request : CreateWorkerSandboxRequest) (paths : SandboxPaths) (network : NetworkIdentity)
      → KeepsConsumed (register_record request paths network)
  unfolding register_record modify
  register_record-Consumed request paths network = Keeps-bind _ _ (Keeps-gets _) λ core.
      Keeps-bind _ _ (record { at = λ s h. record { holds = h.holds } }) λ _. search keeps_rules

  pub forget-Consumed :
      (id : String)
      → KeepsConsumed (modify (λ core. record core { sandboxes = delete core.sandboxes id }))
  unfolding modify
  forget-Consumed id = record { at = λ s h. record { holds = h.holds } }

  pub undo_create-Consumed :
      (request : CreateWorkerSandboxRequest) (paths : SandboxPaths) (network : NetworkIdentity)
      (stop : Exec WorkerCore (Unit {0})) (t : Thrown)
      → KeepsConsumed stop
      → KeepsConsumed (undo_create request paths network stop t)
  unfolding undo_create
  undo_create-Consumed request paths network stop t k = Keeps-bind _ _ k λ _.
      Keeps-bind _ _ (run_cleanup_plans-On _ _ _) λ _. Keeps-bind _ _ (on_allocator-On _ _) λ _.
        Keeps-bind _ _ (on_host-On _ _)
          λ _. Keeps-bind _ _ (forget-Consumed request.id) λ _. Keeps-throw t

  pub boot_guest-Consumed :
      (request : CreateWorkerSandboxRequest) (r : SandboxRecord)
      → KeepsConsumed (boot_guest request r)
  unfolding boot_guest
  boot_guest-Consumed request r = search rules depth 20

  pub bring_up-Consumed :
      (request : CreateWorkerSandboxRequest) (paths : SandboxPaths) (network : NetworkIdentity)
      → KeepsConsumed (bring_up request paths network)
  unfolding bring_up
  bring_up-Consumed request paths network = Keeps-bind _ _ (on_host-On _ _) λ _.
      Keeps-bind _ _ (register_record-Consumed request paths network)
        λ r. search (rules, boot_guest-Consumed) depth 20

  pub set_up-Consumed :
      (request : CreateWorkerSandboxRequest) (paths : SandboxPaths) (network : NetworkIdentity)
      (pid : ℕ)
      → KeepsConsumed (set_up request paths network pid)
  unfolding set_up
  set_up-Consumed request paths network pid = search rules depth 30

  pub start_sandbox-Consumed :
      (request : CreateWorkerSandboxRequest) (paths : SandboxPaths) (network : NetworkIdentity)
      → KeepsConsumed (start_sandbox request paths network)
  unfolding start_sandbox
  start_sandbox-Consumed request paths network =
      Keeps-bind _ _ (Keeps-settle (search rules depth 20)) launched
    where
      prepared :
          (pid : ℕ) (o : Settled (Unit {0}))
          → KeepsConsumed (then_bring_up request paths network pid o)
      prepared pid (rejected error) =
          undo_create-Consumed request paths network _ error (search rules depth 12)
      prepared pid (fulfilled _) =
          Keeps-catch _ _ (bring_up-Consumed request paths network)
            λ t. undo_create-Consumed request paths network _ t (stop_processes-On _ request.id)

      launched : (o : Settled ℕ) → KeepsConsumed (then_set_up request paths network o)
      launched (rejected error) = undo_create-Consumed request paths network _ error (search rules)
      launched (fulfilled pid) =
          Keeps-bind _ _ (Keeps-settle (set_up-Consumed request paths network pid)) (prepared pid)

  pub create_sandbox-Consumed :
      (request : CreateWorkerSandboxRequest) → KeepsConsumed (create_sandbox request)
  unfolding create_sandbox claim_physical_directory
  create_sandbox-Consumed request = search (rules, start_sandbox-Consumed) depth 40

  pub pause_migration-Consumed :
      (id : String) (epoch : ℕ) → KeepsConsumed (pause_migration id epoch)
  unfolding pause_migration
  pause_migration-Consumed id epoch = search (rules, pause_sandbox-Consumed) depth 12

  pub resume_migration-Consumed :
      (id : String) (epoch : ℕ) → KeepsConsumed (resume_migration id epoch)
  unfolding resume_migration
  resume_migration-Consumed id epoch = search (rules, resume_sandbox-Consumed) depth 12

  pub snapshot_by-Consumed :
      (o : Option CompatibilityManifest) (id : String) (request : SnapshotRequest)
      → KeepsConsumed (snapshot_by o id request)
  unfolding new_snapshot cached_snapshot
  snapshot_by-Consumed none id request = search (rules, create_snapshot-Consumed) depth 20
  snapshot_by-Consumed (some cached) id request = search rules depth 20

  pub ensure_by-Consumed :
      (o : Option SandboxRecord) (id : String) (epoch : ℕ) (request : PrepareMigrationRequest)
      → KeepsConsumed (ensure_by o id epoch request)
  ensure_by-Consumed none id epoch request = search (rules, create_sandbox-Consumed) depth 12
  ensure_by-Consumed (some existing) id epoch request = Keeps-refuse _ _

  pub prepare_migration-Consumed :
      (id : String) (epoch : ℕ) (request : PrepareMigrationRequest)
      → KeepsConsumed (prepare_migration id epoch request)
  unfolding prepare_migration ensure_destination_reservation
  prepare_migration-Consumed id epoch request = search (rules, ensure_by-Consumed) depth 40

  pub fetch_and_register-Consumed :
      (id source url : String) (d : ArtifactDescriptor)
      → KeepsConsumed (fetch_and_register id source url d)
  unfolding fetch_and_register transfer_artifact
  fetch_and_register-Consumed id source url d = search rules depth 20

  pub fence_and_cleanup-Consumed :
      (id : String) (epoch : ℕ) (migration_id : String)
      → KeepsConsumed (fence_and_cleanup id epoch migration_id)
  unfolding fence_and_cleanup
  fence_and_cleanup-Consumed id epoch migration_id =
      search (rules, fence_sandbox-Consumed, quarantine_sandbox-Consumed) depth 20

  pub rollback_migration-Consumed :
      (id : String) (epoch : ℕ) (repair_clock : Bool)
      → KeepsConsumed (rollback_migration id epoch repair_clock)
  unfolding rollback_migration roll_back_running
  rollback_migration-Consumed id epoch repair_clock =
      search (rules, resume_sandbox-Consumed) depth 20

  pub ruleset operation_rules = (
    rules, pause_sandbox-Consumed, resume_sandbox-Consumed, load_snapshot-Consumed,
    fence_sandbox-Consumed, quarantine_sandbox-Consumed, create_snapshot-Consumed,
    expose_guest_port-Consumed, create_sandbox-Consumed, pause_migration-Consumed,
    resume_migration-Consumed, snapshot_by-Consumed, prepare_migration-Consumed,
    fetch_and_register-Consumed, fence_and_cleanup-Consumed, rollback_migration-Consumed,
  )
