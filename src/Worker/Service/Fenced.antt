-- ===== src/Worker/Service/Fenced.antt =====
-- A fenced sandbox through the requests of packages/agent/src/worker/index.ts.
pub mod Rules
pub mod Operations
pub mod Creation
pub mod Phases
use firemig.Prelude.{
  ℕ, ◌≡◌, ◌≢◌, refl, String, Bool, true, Option, none, some, List, [], ◌∷◌, All, Option-cases, inl,
  inr,
}
use firemig.Common.Phases.{SandboxState, fenced_state}
use firemig.Exec.Keeps.{Keeps, keeps_rules, Keeps-bind, Keeps-gets}
use firemig.Worker.Types.{SandboxRecord, WorkerCore}
use firemig.Worker.Core.Frame.{On}
use firemig.Worker.Manifest.{read_artifact}
use firemig.Worker.Phases.{snapshot_migration}
use firemig.Worker.Service.{
  Request, create, get, command, write_file, expose_port, pause, resume, fence, probe, precopy,
  pause_phase, resume_phase, snapshot, snapshot_phase, load, quarantine, verify, fence_cleanup,
  artifact, register_artifact, validate, prepare, transfer, rollback, serve, serve_all,
}
use firemig.Worker.Service.Fenced.Rules.{HeldFenced, Fenced, KeepsFenced}
use firemig.Worker.Service.Fenced.Operations.{
  rules, pause_sandbox-Fenced, resume_sandbox-Fenced, load_snapshot-Fenced, fence_sandbox-Fenced,
  quarantine_sandbox-Fenced, fence_and_cleanup-Fenced, create_snapshot-Fenced,
  run_guest_command-Fenced, write_guest_file-Fenced, expose_guest_port-Fenced,
}
use firemig.Worker.Service.Fenced.Creation.{create_sandbox-Fenced}
use firemig.Worker.Service.Fenced.Phases.{
  probe_migration-Fenced, precopy_migration-Fenced, pause_migration-Fenced, resume_migration-Fenced,
  snapshot_by-Fenced, verify_migration-Fenced, rollback_migration-Fenced, prepare_migration-Fenced,
  register-Fenced, transfer_migration-Fenced,
}

ruleset all_rules = (
  rules, pause_sandbox-Fenced, resume_sandbox-Fenced, load_snapshot-Fenced, fence_sandbox-Fenced,
  quarantine_sandbox-Fenced, fence_and_cleanup-Fenced, run_guest_command-Fenced,
  write_guest_file-Fenced, expose_guest_port-Fenced, create_sandbox-Fenced, probe_migration-Fenced,
  precopy_migration-Fenced, pause_migration-Fenced, resume_migration-Fenced,
  verify_migration-Fenced, rollback_migration-Fenced, prepare_migration-Fenced, register-Fenced,
  transfer_migration-Fenced,
)

-- The request does not put the sandbox into quarantine.
abbrev pub Spares : String → Request → Type 0
Spares id (quarantine j epoch migration_id) = j ≢ id
Spares id (fence_cleanup j epoch migration_id) = j ≢ id
Spares id _ = Unit

serve-Fenced : (id : String) (q : Request) → Spares id q → KeepsFenced id (serve q)
unfolding serve snapshot_migration read_artifact
serve-Fenced id (create request) spared = search all_rules
serve-Fenced id (get j) spared = search all_rules
serve-Fenced id (command j epoch request) spared = search all_rules
serve-Fenced id (write_file j epoch request) spared = search all_rules
serve-Fenced id (expose_port j epoch guest_port) spared = search all_rules
serve-Fenced id (pause j epoch) spared = search all_rules
serve-Fenced id (resume j epoch) spared = search all_rules
serve-Fenced id (fence j epoch) spared = search all_rules
serve-Fenced id (probe j epoch) spared = search all_rules
serve-Fenced id (precopy j epoch) spared = search all_rules
serve-Fenced id (pause_phase j epoch) spared = search all_rules
serve-Fenced id (resume_phase j epoch) spared = search all_rules
serve-Fenced id (snapshot j request) spared =
    Keeps-bind _ _ (create_snapshot-Fenced id j request.migration_id request.epoch)
      λ _. search keeps_rules
serve-Fenced id (snapshot_phase j request) spared =
    Keeps-bind _ _
      (Keeps-bind _ _ (Keeps-gets _)
        λ o. snapshot_by-Fenced id o j request.migration_id request.epoch)
      λ _. search keeps_rules
serve-Fenced id (load j epoch manifest) spared = search all_rules
serve-Fenced id (quarantine j epoch migration_id) spared = search all_rules
serve-Fenced id (verify j epoch migration_id) spared = search all_rules
serve-Fenced id (fence_cleanup j epoch migration_id) spared = search all_rules
serve-Fenced id (artifact j kind) spared = search all_rules depth 12
serve-Fenced id (register_artifact j descriptor) spared = search all_rules
serve-Fenced id (validate manifest) spared = search all_rules
serve-Fenced id (prepare j epoch request) spared = search all_rules
serve-Fenced id (transfer j epoch request) spared = search all_rules
serve-Fenced id (rollback j epoch repair_clock) spared = search all_rules

serve_all-Fenced :
    (id : String) (qs : List Request) (core : WorkerCore)
    → All (Spares id) qs
    → On (Fenced id) core
    → On (Fenced id) (serve_all qs core)
unfolding serve_all
serve_all-Fenced id [] core spared h = h
serve_all-Fenced id (q ∷ qs) core (spared, rest) h =
    serve_all-Fenced id qs _ rest ((serve-Fenced id q spared).at core h)

-- A sandbox that is fenced is still there and still fenced after any sequence of requests, with any
-- epochs and whatever fails on the way, that does not put it into quarantine.
pub fenced_stays_fenced :
    (id : String) (qs : List Request) (core : WorkerCore) (r : SandboxRecord)
    → core.sandboxes id ≡ some r
    → r.info.state ≡ fenced_state
    → All (Spares id) qs
    → (r' : SandboxRecord) × ((serve_all qs core).sandboxes id ≡ some r')
      × (r'.info.state ≡ fenced_state)
fenced_stays_fenced id qs core r present fenced spared =
    there ((serve_all-Fenced id qs core spared (record { holds = rw present fenced })).holds)
  where
    there :
        HeldFenced ((serve_all qs core).sandboxes id)
        → (r' : SandboxRecord) × ((serve_all qs core).sandboxes id ≡ some r')
          × (r'.info.state ≡ fenced_state)
    there held = elim (Option-cases ((serve_all qs core).sandboxes id)) [
      | inl absent ↦ absurd (rw absent at held)
      | inr (r', e) ↦ (r', e, rw e at held)
    ]
