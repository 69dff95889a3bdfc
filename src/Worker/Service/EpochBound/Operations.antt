-- ===== src/Worker/Service/EpochBound/Operations.antt =====
-- The epochs through the operations of WorkerService on a sandbox that exists.
use firemig.Prelude.{ℕ, String, Option, none, some, arith}
use firemig.Common.Phases.{SandboxState, fenced_state, quarantined}
use firemig.Common.Types.{
  CompatibilityManifest, FilePath, PortExposure, RunCommandRequest, WriteFileRequest,
}
use firemig.Exec.{Exec, modify}
use firemig.Exec.Keeps.{Keeps, keeps_rules, Keeps-bind, Keeps-gets}
use firemig.Worker.Types.{SandboxRecord, WorkerCore}
use firemig.Worker.Core.{write_record, with_state_epoch}
use firemig.Worker.Core.Frame.{On, Ledger, record_of-On, frame_laws}
use firemig.Worker.Core.Epochs.{
  Floor, raise, accept_bind, write_record-Floor, write_same, mutable_bind,
}
use firemig.Worker.Manifest.{validate_manifest}
use firemig.Worker.Lifecycle.{
  pause_sandbox, load_machine, load_verified, load_snapshot, consume_snapshot, resume_machine,
  resume_sandbox, pause_if_running, fence_machine, fence_sandbox, quarantine_live,
  quarantine_sandbox, or_else_do,
}
use firemig.Worker.Snapshot.{create_snapshot}
use firemig.Worker.GuestOps.{
  run_guest_command, write_guest_file, expose_new_port, existing_or, expose_guest_port,
}

pub or_else_do-On :
    (P : Ledger → Type 0) (o : Option FilePath) (m : Exec WorkerCore FilePath)
    → Keeps (On P) m
    → Keeps (On P) (or_else_do o m)
or_else_do-On P none m k = k
or_else_do-On P (some path) m k = search keeps_rules

pub existing_or-On :
    (P : Ledger → Type 0) (o : Option PortExposure) (m : Exec WorkerCore PortExposure)
    → Keeps (On P) m
    → Keeps (On P) (existing_or o m)
existing_or-On P none m k = k
existing_or-On P (some p) m k = search keeps_rules

pub validate_manifest-On :
    (P : Ledger → Type 0) (manifest : CompatibilityManifest)
    → Keeps (On P) (validate_manifest manifest)
unfolding validate_manifest
validate_manifest-On P manifest = search keeps_rules depth 12

pub pause_if_running-On :
    (P : Ledger → Type 0) (r : SandboxRecord) → Keeps (On P) (pause_if_running r)
unfolding pause_if_running
pause_if_running-On P r = search frame_laws depth 12

pub consume_snapshot-Floor :
    (floor : String → ℕ) (o : Option String) → Keeps (On (Floor floor)) (consume_snapshot o)
unfolding consume_snapshot modify
consume_snapshot-Floor floor none = search keeps_rules
consume_snapshot-Floor floor (some migration_id) =
    Keeps-bind _ _ (Keeps-gets _) λ _.
      Keeps-bind _ _ (search keeps_rules) λ _. record { at = λ s h. record { holds = h.holds } }

pub ruleset epoch_rules =
    (frame_laws, validate_manifest-On, pause_if_running-On, consume_snapshot-Floor, write_same)

expose_new_port-Floor :
    (floor : String → ℕ) (r : SandboxRecord) (id : String) (guest_port : ℕ)
    → Keeps (On (Floor floor)) (expose_new_port r id guest_port)
unfolding expose_new_port
expose_new_port-Floor floor r id guest_port = search epoch_rules depth 30

module _ (floor : String → ℕ) (id : String) (epoch : ℕ) where
  lifted :
      (st : SandboxState)
      → Keeps (On (Floor (raise floor id epoch))) (write_record id (with_state_epoch st epoch))
  lifted st = write_record-Floor floor id epoch (with_state_epoch st epoch) λ r. omega arith

  pub pause_sandbox-Floor : Keeps (On (Floor floor)) (pause_sandbox id epoch)
  unfolding pause_sandbox
  pause_sandbox-Floor = mutable_bind floor id epoch _ _ λ r. search epoch_rules depth 12

  pub resume_sandbox-Floor : Keeps (On (Floor floor)) (resume_sandbox id epoch)
  unfolding resume_sandbox resume_machine
  resume_sandbox-Floor = mutable_bind floor id epoch _ _ λ r. search (epoch_rules, lifted) depth 20

  load_verified-Floor :
      (manifest : CompatibilityManifest)
      → Keeps (On (Floor floor)) (load_verified id epoch manifest)
  unfolding load_verified load_machine
  load_verified-Floor manifest = mutable_bind floor id epoch _ _ λ r. search epoch_rules depth 20

  pub load_snapshot-Floor :
      (manifest : CompatibilityManifest)
      → Keeps (On (Floor floor)) (load_snapshot id epoch manifest)
  unfolding load_snapshot
  load_snapshot-Floor manifest = search (epoch_rules, load_verified-Floor) depth 24

  pub fence_sandbox-Floor : Keeps (On (Floor floor)) (fence_sandbox id epoch)
  unfolding fence_sandbox fence_machine
  fence_sandbox-Floor = Keeps-bind _ _ (record_of-On _ id) λ r.
      accept_bind floor id epoch _
        λ _. Keeps-bind _ _ (lifted fenced_state) λ _. search epoch_rules depth 20

  quarantine_live-Floor :
      (r : SandboxRecord) (migration_id : String)
      → Keeps (On (Floor floor)) (quarantine_live r id epoch migration_id)
  unfolding quarantine_live
  quarantine_live-Floor r migration_id = accept_bind floor id epoch _ λ _.
      let moved = λ (destination : FilePath).
        write_record-Floor floor id epoch
          (λ r'. record (with_state_epoch quarantined epoch r') {
            quarantine_path = some destination;
          })
          (λ r'. omega arith) in
      search (epoch_rules, moved) depth 30

  pub quarantine_sandbox-Floor :
      (migration_id : String) → Keeps (On (Floor floor)) (quarantine_sandbox id epoch migration_id)
  unfolding quarantine_sandbox
  quarantine_sandbox-Floor migration_id =
      search (epoch_rules, or_else_do-On, quarantine_live-Floor) depth 12

  pub create_snapshot-Floor :
      (migration_id : String)
      → Keeps
          (On (Floor floor))
          (create_snapshot id (record { migration_id = migration_id; epoch = epoch }))
  unfolding create_snapshot
  create_snapshot-Floor migration_id =
      mutable_bind floor id epoch _ _ λ r. search epoch_rules depth 40

  pub run_guest_command-Floor :
      (request : RunCommandRequest) → Keeps (On (Floor floor)) (run_guest_command id epoch request)
  unfolding run_guest_command
  run_guest_command-Floor request = mutable_bind floor id epoch _ _ λ r. search epoch_rules

  pub write_guest_file-Floor :
      (request : WriteFileRequest) → Keeps (On (Floor floor)) (write_guest_file id epoch request)
  unfolding write_guest_file
  write_guest_file-Floor request = mutable_bind floor id epoch _ _ λ r. search epoch_rules depth 12

  pub expose_guest_port-Floor :
      (guest_port : ℕ) → Keeps (On (Floor floor)) (expose_guest_port id epoch guest_port)
  unfolding expose_guest_port
  expose_guest_port-Floor guest_port =
      mutable_bind floor id epoch _ _
        λ r. existing_or-On _ _ _ (expose_new_port-Floor (raise floor id epoch) r id guest_port)
