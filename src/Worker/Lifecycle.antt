-- ===== src/Worker/Lifecycle.antt =====
-- packages/agent/src/worker/lifecycle/worker-lifecycle.ts.
pub mod Loading
pub mod FenceOutcome
pub mod Teardown
pub mod QuarantineOutcome
use firemig.Prelude.{
  ℕ, ◌+◌, String, Bool, true, false, not, ◌&&◌, Option, none, some, List, [], ◌∷◌, ltb, ◌==◌, ◌===◌,
  if◌then◌else◌,
}
use firemig.Common.Errors.{bad_request, snapshot_consumed, artifact_hash_mismatch}
use firemig.Common.Phases.{booting, running, paused, fenced_state, quarantined, state_eq}
use firemig.Common.Types.{ArtifactKind, ArtifactDescriptor, CompatibilityManifest, FilePath}
use firemig.Exec.{
  Settled, fulfilled, rejected, Exec, pure, gets, settle, lift, modify, done, refuse, ◌>>=◌, ◌>>◌,
}
use firemig.Platform.Paths.{dirname}
use firemig.Platform.Host.{
  mkdir, rename, vm_paused, vm_resumed, snapshot_load, sync_clock, call_firecracker, call_guest,
}
use firemig.Platform.Epochs.{accept}
use firemig.Network.Allocator.{release_network, release_ports}
use firemig.Artifacts.Pull.{first_failure}
use firemig.Worker.Types.{
  SandboxRecord, WorkerCore, artifact_kinds, worker_bad_request, conflict, fenced_error,
}
use firemig.Worker.Core.{
  on_host, on_epochs, on_allocator, call, record_of, write_record, with_state, with_state_epoch,
  stop_relays, stop_processes, down_host_veth, run_cleanup_plans, mutable_record,
}
use firemig.Worker.Manifest.{validate_manifest}
use firemig.Worker.Files.{wait_for_guest}

unfoldable pub pause_sandbox : String → ℕ → Exec WorkerCore (Unit {0})
pause_sandbox id epoch = do
  r ← mutable_record id epoch none
  on_host (call_firecracker r.firecracker vm_paused)
  write_record id (with_state paused)

-- The artifact that was pulled is the one that the manifest names.
abbrev pub is_registered : Option ArtifactDescriptor → ArtifactDescriptor → Bool
is_registered none expected = false
is_registered (some registered) expected =
    registered.sha256 === expected.sha256 && registered.size == expected.size

unfoldable pub check_artifacts :
    List ArtifactKind → SandboxRecord → CompatibilityManifest → Settled (Unit {0})
check_artifacts [] r manifest = fulfilled tt
check_artifacts (kind ∷ kinds) r manifest =
    let rest = check_artifacts kinds r manifest in
    if is_registered (r.artifacts kind) (manifest.artifacts kind)
    then rest
    else rejected (conflict artifact_hash_mismatch 422)

abbrev pub loaded_is : Option String → String → Bool
loaded_is none migration_id = false
loaded_is (some loaded) migration_id = loaded === migration_id

-- The part of `loadSnapshot` behind its tests.
unfoldable pub load_machine :
    SandboxRecord → String → CompatibilityManifest → Exec WorkerCore (Unit {0})
load_machine r id manifest = do
  x64 ← gets (λ core. core.configuration.host_compatibility.architecture === "x64")
  on_host (
      call_firecracker r.firecracker (
        snapshot_load (record {
          snapshot_path = r.paths.state;
          memory_path = r.paths.memory;
          resume = false;
          clock_realtime = x64;
        })))
  write_record id
      (λ r'. record (with_state paused r') { loaded_migration_id = some manifest.migration_id })

-- The part of `loadSnapshot` behind its early return.
unfoldable pub load_verified : String → ℕ → CompatibilityManifest → Exec WorkerCore (Unit {0})
load_verified id epoch manifest = do
  r ← mutable_record id epoch (some booting)
  lift (check_artifacts artifact_kinds r manifest)
  load_machine r id manifest

unfoldable pub load_snapshot : String → ℕ → CompatibilityManifest → Exec WorkerCore (Unit {0})
load_snapshot id epoch manifest = do
  validate_manifest manifest
  refuse (not (manifest.sandbox_id === id)) worker_bad_request
  refuse (not (epoch == manifest.source_epoch + 1)) (conflict bad_request 409)
  consumed ← gets (λ core. core.consumed_snapshots manifest.migration_id)
  refuse consumed (conflict snapshot_consumed 409)
  existing ← record_of id
  if loaded_is existing.loaded_migration_id manifest.migration_id
        && state_eq existing.info.state paused
      then done
      else load_verified id epoch manifest

-- A snapshot is marked as consumed before its resume is issued.
unfoldable pub consume_snapshot : Option String → Exec WorkerCore (Unit {0})
consume_snapshot none = done
consume_snapshot (some migration_id) = do
  consumed ← gets (λ core. core.consumed_snapshots migration_id)
  refuse consumed (conflict snapshot_consumed 409)
  modify (λ core. record core {
    consumed_snapshots = λ j. if migration_id === j then true else core.consumed_snapshots j;
  })

abbrev with_boot_id : String → SandboxRecord → SandboxRecord
with_boot_id boot_id r = record r { info = record (r.info) { boot_id = some boot_id } }

-- The part of `resumeSandbox` behind the consumption.
unfoldable pub resume_machine : SandboxRecord → String → ℕ → Exec WorkerCore (Unit {0})
resume_machine r id epoch = do
  on_host (call_firecracker r.firecracker vm_resumed)
  write_record id (with_state_epoch running epoch)
  on_host (call_guest r.guest sync_clock)
  boot_id ← on_host (wait_for_guest r.guest 10000)
  write_record id (with_boot_id boot_id)

unfoldable pub resume_sandbox : String → ℕ → Exec WorkerCore (Unit {0})
resume_sandbox id epoch = do
  r ← mutable_record id epoch (some paused)
  consume_snapshot r.loaded_migration_id
  resume_machine r id epoch

unfoldable pub pause_if_running : SandboxRecord → Exec WorkerCore (Settled (Unit {0}))
pause_if_running r =
    if state_eq r.info.state running
    then settle (on_host (call_firecracker r.firecracker vm_paused))
    else pure (fulfilled tt)

-- The part of `fenceSandbox` behind its relays: both tasks settle before a failure is thrown.
unfoldable pub fence_machine : SandboxRecord → Exec WorkerCore (Unit {0})
fence_machine r = do
  down ← settle (down_host_veth r)
  stopped ← pause_if_running r
  lift (first_failure (down ∷ stopped ∷ []))
  done

unfoldable pub fence_sandbox : String → ℕ → Exec WorkerCore (Unit {0})
fence_sandbox id epoch = do
  r ← record_of id
  on_epochs (accept id epoch)
  write_record id (with_state_epoch fenced_state epoch)
  stop_relays id
  fence_machine r

-- The path of a sandbox that is in quarantine already.
abbrev pub quarantined_at : SandboxRecord → Option FilePath
quarantined_at r = if state_eq r.info.state quarantined then r.quarantine_path else none

unfoldable pub quarantine_live : SandboxRecord → String → ℕ → String → Exec WorkerCore FilePath
quarantine_live r id epoch migration_id = do
  on_epochs (accept id epoch)
  refuse (ltb epoch r.info.epoch) fenced_error
  stop_processes id
  stop_relays id
  run_cleanup_plans r.netns r.host_veth
  destination ← lift (r.paths.quarantine migration_id)
  call (mkdir (dirname destination))
  call (rename r.paths.physical_directory destination)
  write_record id
      (λ r'. record (with_state_epoch quarantined epoch r') { quarantine_path = some destination })
  on_allocator (release_network id r.network_keys)
  on_allocator (release_ports id)
  pure destination

abbrev pub or_else_do : Option FilePath → Exec WorkerCore FilePath → Exec WorkerCore FilePath
or_else_do none action = action
or_else_do (some path) action = pure path

unfoldable pub quarantine_sandbox : String → ℕ → String → Exec WorkerCore FilePath
quarantine_sandbox id epoch migration_id = do
  r ← record_of id
  or_else_do (quarantined_at r) (quarantine_live r id epoch migration_id)
