-- ===== src/Worker/Phases.antt =====
-- packages/agent/src/worker/lifecycle/worker-phases.ts: the phases of a migration on its source.
use firemig.Prelude.{ℕ, String, not, ◌||◌, Option, none, some, ◌==◌, ◌===◌, put, if◌then◌else◌}
use firemig.Common.Errors.{idempotency_key_conflict}
use firemig.Common.Phases.{running, paused, state_eq}
use firemig.Common.Types.{CompatibilityManifest}
use firemig.Exec.{Exec, pure, gets, modify, done, refuse, ◌>>=◌, ◌>>◌}
use firemig.Platform.Host.{ready, call_guest}
use firemig.Worker.Types.{SnapshotRequest, WorkerCore, conflict, total_artifact_bytes}
use firemig.Worker.Core.{on_host, record_of, mutable_record}
use firemig.Worker.Lifecycle.{pause_sandbox, resume_sandbox}
use firemig.Worker.Snapshot.{create_snapshot}

-- The answer names the boot id of the guest.
unfoldable pub probe_migration : String → ℕ → Exec WorkerCore String
probe_migration id epoch = do
  r ← mutable_record id epoch (some running)
  on_host (call_guest r.guest ready)
  gets (λ core. core.host.world.boot_id core.host.trace)

unfoldable pub precopy_migration : String → ℕ → Exec WorkerCore (Unit {0})
precopy_migration id epoch = do mutable_record id epoch (some running); done

unfoldable pub pause_migration : String → ℕ → Exec WorkerCore (Unit {0})
pause_migration id epoch = do
  r ← record_of id
  if state_eq r.info.state paused then done else pause_sandbox id epoch

pub record SnapshotResult : Type 0 where
  pub manifest : CompatibilityManifest
  pub bytes_total : ℕ

abbrev result_of : CompatibilityManifest → SnapshotResult
result_of manifest = record { manifest = manifest; bytes_total = total_artifact_bytes manifest }

-- A snapshot that was made already is given again, if the request is the same.
unfoldable pub cached_snapshot :
    String → SnapshotRequest → CompatibilityManifest → Exec WorkerCore SnapshotResult
cached_snapshot id request cached = do
  refuse (not (cached.sandbox_id === id) || not (cached.source_epoch == request.epoch))
      (conflict idempotency_key_conflict 409)
  pure (result_of cached)

unfoldable pub new_snapshot : String → SnapshotRequest → Exec WorkerCore SnapshotResult
new_snapshot id request = do
  manifest ← create_snapshot id request
  modify (λ core. record core { manifests = put core.manifests request.migration_id manifest })
  pure (result_of manifest)

abbrev pub snapshot_by :
    Option CompatibilityManifest → String → SnapshotRequest → Exec WorkerCore SnapshotResult
snapshot_by none id request = new_snapshot id request
snapshot_by (some cached) id request = cached_snapshot id request cached

unfoldable pub snapshot_migration : String → SnapshotRequest → Exec WorkerCore SnapshotResult
snapshot_migration id request = do
  cached ← gets (λ core. core.manifests request.migration_id)
  snapshot_by cached id request

unfoldable pub resume_migration : String → ℕ → Exec WorkerCore (Unit {0})
resume_migration id epoch = do
  r ← record_of id
  if state_eq r.info.state running then done else resume_sandbox id epoch
