-- ===== src/Worker/Migration.antt =====
-- packages/agent/src/worker/migration/worker-migration.ts: the reservation of a destination.
use Prim.Native.String.{◌++◌}
use firemig.Prelude.{
  ℕ, String, Bool, true, false, not, ◌&&◌, ◌||◌, Option, none, some, ◌==◌, ◌===◌, put,
  if◌then◌else◌,
}
use firemig.Common.Errors.{idempotency_key_conflict}
use firemig.Common.Phases.{SandboxState}
use firemig.Exec.{Exec, gets, modify, done, refuse, ◌>>=◌, ◌>>◌}
use firemig.Worker.Types.{
  CreateWorkerSandboxRequest, restore, PrepareMigrationRequest, Stage, reserve, prestage,
  MigrationReservation, SandboxRecord, WorkerCore, worker_bad_request, conflict,
}
use firemig.Worker.Core.{is_running_process}
use firemig.Worker.Create.{create_sandbox}

pub record Prepared : Type 0 where
  pub prestaged : Bool
  pub prestage_ready : Bool
  pub worker : String
  pub state : Option SandboxState

unfoldable pub conflicts_with_prior : MigrationReservation → ℕ → PrepareMigrationRequest → Bool
conflicts_with_prior prior epoch request =
    not (prior.epoch == epoch)
    || (not (prior.source === request.source)
        || (not (prior.destination === request.destination)
            || (not (prior.sandbox.cpu == request.sandbox.cpu)
                || not (prior.sandbox.memory_mb == request.sandbox.memory_mb))))

abbrev conflicts : Option MigrationReservation → ℕ → PrepareMigrationRequest → Bool
conflicts none epoch request = false
conflicts (some prior) epoch request = conflicts_with_prior prior epoch request

abbrev reservation_of :
    Option MigrationReservation → ℕ → PrepareMigrationRequest → MigrationReservation
reservation_of none epoch request = record { request = request; epoch = epoch; prepared = false }
reservation_of (some prior) epoch request = prior

abbrev pub migration_key : String → String → String
migration_key id migration_id = id ++ ":" ++ migration_id

abbrev is_prestage : Stage → Bool
is_prestage reserve = false
is_prestage prestage = true

abbrev restore_request : String → ℕ → PrepareMigrationRequest → CreateWorkerSandboxRequest
restore_request id epoch request = record {
  id = id;
  epoch = epoch;
  cpu = request.sandbox.cpu;
  memory_mb = request.sandbox.memory_mb;
  mode = some restore;
  kernel_path = none;
  rootfs_path = none;
  kernel = none;
  rootfs = none;
  netns = none;
  host_veth = none;
  host_address = none;
  namespace_address = none;
  mtu = none;
}

abbrev differs : SandboxRecord → ℕ → PrepareMigrationRequest → Bool
differs existing epoch request =
    not (existing.info.epoch == epoch)
    || (not (existing.info.cpu == request.sandbox.cpu)
        || not (existing.info.memory_mb == request.sandbox.memory_mb))

abbrev pub ensure_by :
    Option SandboxRecord → String → ℕ → PrepareMigrationRequest → Exec WorkerCore (Unit {0})
ensure_by none id epoch request = create_sandbox (restore_request id epoch request) >>= λ _. done
ensure_by (some existing) id epoch request =
    refuse (differs existing epoch request) (conflict idempotency_key_conflict 409)

unfoldable pub ensure_destination_reservation :
    String → ℕ → PrepareMigrationRequest → Exec WorkerCore (Unit {0})
ensure_destination_reservation id epoch request = do
  existing ← gets (λ core. core.sandboxes id)
  ensure_by existing id epoch request

abbrev set_reservation : String → MigrationReservation → WorkerCore → WorkerCore
set_reservation key reservation core = record core {
  migrations = put core.migrations key reservation;
}

abbrev state_of : Option SandboxRecord → Option SandboxState
state_of none = none
state_of (some r) = some r.info.state

unfoldable pub prepare_migration : String → ℕ → PrepareMigrationRequest → Exec WorkerCore Prepared
prepare_migration id epoch request = do
  refuse (not (request.sandbox.id === id)) worker_bad_request
  core ← gets (λ core. core)
  refuse (not (request.destination === core.configuration.worker_id)) worker_bad_request
  let key = migration_key id request.migration_id
  let prior = core.migrations key
  refuse (conflicts prior epoch request) (conflict idempotency_key_conflict 409)
  let reservation = reservation_of prior epoch request
  modify (set_reservation key reservation)
  let prestaging = is_prestage request.stage && not reservation.prepared
  if prestaging
      then (ensure_destination_reservation id epoch request >>= λ _.
          modify (set_reservation key (record reservation { prepared = true })))
      else done
  let prepared = reservation.prepared || prestaging
  gets (λ c. record {
    prestaged = prepared;
    prestage_ready = prepared && is_running_process c id;
    worker = c.configuration.worker_id;
    state = state_of (c.sandboxes id);
  })
