-- ===== src/Worker/Verify.antt =====
-- packages/agent/src/worker/migration/worker-verify.ts: the last phases of a migration.
use firemig.Prelude.{ℕ, String, Bool, true, false, not, Option, none, some, ◌===◌, if◌then◌else◌}
use firemig.Common.Errors.{fenced, guest_agent, bad_request}
use firemig.Common.Phases.{running, paused, state_eq}
use firemig.Common.Types.{FilePath}
use firemig.Exec.{Exec, pure, gets, done, refuse, ◌>>=◌, ◌>>◌}
use firemig.Platform.Host.{ready, sync_clock, call_guest}
use firemig.Worker.Types.{SandboxRecord, MigrationReservation, WorkerCore, conflict}
use firemig.Worker.Core.{on_host, record_of, mutable_record}
use firemig.Worker.Lifecycle.{
  resume_sandbox, fence_sandbox, quarantine_sandbox, quarantined_at, or_else_do,
}
use firemig.Worker.Migration.{migration_key}

-- `core.migrations.get(…)?.sandbox.bootId ?? record.info.bootId`
abbrev pub expected_boot_id : Option MigrationReservation → Option String → Option String
expected_boot_id none own = own
expected_boot_id (some reservation) own = elim reservation.sandbox.boot_id [
  | none ↦ own
  | some boot_id ↦ some boot_id
]

abbrev mismatch : Option String → String → Bool
mismatch none actual = false
mismatch (some expected) actual = not (actual === expected)

unfoldable pub verify_migration : String → ℕ → String → Exec WorkerCore String
verify_migration id epoch migration_id = do
  r ← mutable_record id epoch (some running)
  on_host (call_guest r.guest ready)
  core ← gets (λ core. core)
  let actual = core.host.world.boot_id core.host.trace
  let expected = expected_boot_id (core.migrations (migration_key id migration_id)) r.info.boot_id
  refuse (mismatch expected actual) (conflict guest_agent 409)
  pure actual

abbrev is_loaded : SandboxRecord → Bool
is_loaded r = elim r.loaded_migration_id [ none ↦ false | some _ ↦ true ]

-- Behind the pause test of `rollbackMigration`.
unfoldable pub roll_back_running : SandboxRecord → Bool → Exec WorkerCore (Unit {0})
roll_back_running r repair_clock = do
  refuse (not (state_eq r.info.state running)) (conflict bad_request 409)
  if repair_clock then on_host (call_guest r.guest sync_clock) else done

unfoldable pub rollback_migration : String → ℕ → Bool → Exec WorkerCore (Unit {0})
rollback_migration id epoch repair_clock = do
  r ← record_of id
  refuse (is_loaded r) (conflict fenced 409)
  if state_eq r.info.state paused then resume_sandbox id epoch else roll_back_running r repair_clock

unfoldable pub fence_and_cleanup : String → ℕ → String → Exec WorkerCore FilePath
fence_and_cleanup id epoch migration_id = do
  r ← record_of id
  or_else_do (quarantined_at r)
      (fence_sandbox id epoch >>= λ _. quarantine_sandbox id epoch migration_id)
