-- ===== src/Worker/Service/EpochBound.antt =====
-- The epochs through the requests of packages/agent/src/worker/index.ts.
pub mod Operations
mod Creation
mod Phases
use firemig.Prelude.{ℕ, ◌≤◌, ◌≡◌, refl, String, Option, some, List, [], ◌∷◌, arith}
use firemig.Prelude.Entries.{Distinct}
use firemig.Common.Types.{ArtifactKind}
use firemig.Exec.Keeps.{Keeps, keeps_rules}
use firemig.Platform.Epochs.{epoch_of}
use firemig.Worker.Types.{SandboxRecord, WorkerCore}
use firemig.Worker.Core.Frame.{On, ledger}
use firemig.Worker.Core.Epochs.{Bounded, Floor}
use firemig.Worker.Manifest.{read_artifact}
use firemig.Worker.Service.{
  Request, create, get, command, write_file, expose_port, pause, resume, fence, probe, precopy,
  pause_phase, resume_phase, snapshot, snapshot_phase, load, quarantine, verify, fence_cleanup,
  artifact, register_artifact, validate, prepare, transfer, rollback, serve, serve_all,
}
use firemig.Worker.Service.EpochBound.Operations.{
  epoch_rules, pause_sandbox-Floor, resume_sandbox-Floor, load_snapshot-Floor, fence_sandbox-Floor,
  quarantine_sandbox-Floor, create_snapshot-Floor, run_guest_command-Floor, write_guest_file-Floor,
  expose_guest_port-Floor,
}
use firemig.Worker.Service.EpochBound.Creation.{create_sandbox-Floor}
use firemig.Worker.Service.EpochBound.Phases.{
  probe_migration-Floor, precopy_migration-Floor, pause_migration-Floor, resume_migration-Floor,
  snapshot_migration-Floor, verify_migration-Floor, rollback_migration-Floor,
  fence_and_cleanup-Floor, prepare_migration-Floor, transfer_migration-Floor,
}

read_artifact-Floor :
    (floor : String → ℕ) (id : String) (kind : ArtifactKind)
    → Keeps (On (Floor floor)) (read_artifact id kind)
unfolding read_artifact
read_artifact-Floor floor id kind = search epoch_rules depth 20

serve-Floor : (floor : String → ℕ) (q : Request) → Keeps (On (Floor floor)) (serve q)
unfolding serve
serve-Floor floor (create request) = search (keeps_rules, create_sandbox-Floor floor request)
serve-Floor floor (get id) = search epoch_rules
serve-Floor floor (command id epoch request) = run_guest_command-Floor floor id epoch request
serve-Floor floor (write_file id epoch request) = write_guest_file-Floor floor id epoch request
serve-Floor floor (expose_port id epoch guest_port) = search (keeps_rules, expose_guest_port-Floor)
serve-Floor floor (pause id epoch) = pause_sandbox-Floor floor id epoch
serve-Floor floor (resume id epoch) = resume_sandbox-Floor floor id epoch
serve-Floor floor (fence id epoch) = fence_sandbox-Floor floor id epoch
serve-Floor floor (probe id epoch) = search (keeps_rules, probe_migration-Floor)
serve-Floor floor (precopy id epoch) = precopy_migration-Floor floor id epoch
serve-Floor floor (pause_phase id epoch) = pause_migration-Floor floor id epoch
serve-Floor floor (resume_phase id epoch) = resume_migration-Floor floor id epoch
serve-Floor floor (snapshot id request) =
    search (keeps_rules, create_snapshot-Floor floor id request.epoch request.migration_id)
serve-Floor floor (snapshot_phase id request) =
    search (keeps_rules, snapshot_migration-Floor floor id request.epoch request.migration_id)
serve-Floor floor (load id epoch manifest) = load_snapshot-Floor floor id epoch manifest
serve-Floor floor (quarantine id epoch migration_id) =
    search (keeps_rules, quarantine_sandbox-Floor)
serve-Floor floor (verify id epoch migration_id) = search (keeps_rules, verify_migration-Floor)
serve-Floor floor (fence_cleanup id epoch migration_id) =
    search (keeps_rules, fence_and_cleanup-Floor)
serve-Floor floor (artifact id kind) = search (keeps_rules, read_artifact-Floor)
serve-Floor floor (register_artifact id descriptor) = search epoch_rules
serve-Floor floor (validate manifest) = search epoch_rules
serve-Floor floor (prepare id epoch request) = search (keeps_rules, prepare_migration-Floor)
serve-Floor floor (transfer id epoch request) = search (keeps_rules, transfer_migration-Floor)
serve-Floor floor (rollback id epoch repair_clock) =
    rollback_migration-Floor floor id epoch repair_clock

serve_all-Floor :
    (floor : String → ℕ) (qs : List Request) (core : WorkerCore)
    → On (Floor floor) core
    → On (Floor floor) (serve_all qs core)
unfolding serve_all
serve_all-Floor floor [] core h = h
serve_all-Floor floor (q ∷ qs) core h = serve_all-Floor floor qs _ ((serve-Floor floor q).at core h)

-- From a state where no sandbox is ahead of its accepted epoch, no sequence of requests gets a
-- sandbox ahead of it, whatever fails on the way.
pub serve_all-Bounded :
    (qs : List Request) (core : WorkerCore)
    → Bounded (ledger core)
    → Bounded (ledger (serve_all qs core))
serve_all-Bounded qs core bounded =
    (serve_all-Floor (λ _. 0) qs core (record { holds = (bounded, λ j. omega arith) })).holds.0

-- From such a state, no sequence of requests lowers the accepted epoch of any sandbox, whatever
-- fails on the way.
pub epochs_never_fall :
    (qs : List Request) (core : WorkerCore) (j : String)
    → Bounded (ledger core)
    → epoch_of core.epochs j ≤ epoch_of (serve_all qs core).epochs j
epochs_never_fall qs core j bounded =
    (serve_all-Floor (epoch_of core.epochs) qs core
        (record { holds = (bounded, λ j. omega arith) })).holds.1
      j
