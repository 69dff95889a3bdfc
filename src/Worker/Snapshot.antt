-- ===== src/Worker/Snapshot.antt =====
-- packages/agent/src/worker/snapshot/worker-snapshot.ts.
use firemig.Prelude.{◌+◌, String, Bool, true, false, Option, none, some, [], ◌∷◌, if◌then◌else◌}
use firemig.Common.Phases.{paused}
use firemig.Common.Types.{
  ArtifactKind, state, mem, disk, ArtifactDescriptor, CompatibilityManifest, FilePath,
}
use firemig.Exec.{Exec, gets, lift, done, ◌>>=◌, ◌>>◌}
use firemig.Platform.Paths.{SandboxPaths, sandbox_paths}
use firemig.Platform.Host.{Host, snapshot_create, call_firecracker}
use firemig.Worker.Types.{SandboxRecord, SnapshotRequest, WorkerCore}
use firemig.Worker.Core.{paths_of, on_host, record_of, write_record, mutable_record}
use firemig.Worker.Manifest.{build_manifest}
use firemig.Worker.Files.{describe_artifact, describe_shared_artifact, sync_snapshot_files}

abbrev is_shared : Option FilePath → Bool
is_shared none = false
is_shared (some _) = true

unfoldable pub describe : Bool → ArtifactKind → FilePath → Exec Host ArtifactDescriptor
describe shared kind path =
    if shared then describe_shared_artifact kind path else describe_artifact kind path

-- The three artifacts of one generation, by kind.
abbrev pub by_kind {ℓ} : {A : Type ℓ} → A → A → A → ArtifactKind → A
by_kind s m d state = s
by_kind s m d mem = m
by_kind s m d disk = d

abbrev next_generation : SandboxRecord → SandboxRecord
next_generation r = record r { generation = r.generation + 1 }

abbrev with_artifacts :
    SandboxPaths → (ArtifactKind → ArtifactDescriptor) → SandboxRecord → SandboxRecord
with_artifacts paths artifacts r = record r {
  paths = paths;
  artifacts = λ kind. some (artifacts kind);
}

unfoldable pub create_snapshot : String → SnapshotRequest → Exec WorkerCore CompatibilityManifest
create_snapshot id request = do
  before ← mutable_record id request.epoch (some paused)
  write_record id next_generation
  paths ← gets (λ core. sandbox_paths (paths_of core) id (before.generation + 1))
  generated ← lift paths
  on_host (call_firecracker before.firecracker (snapshot_create generated.state generated.memory))
  shared ← gets (λ core. is_shared core.configuration.shared_worker_root)
  let files = generated.state ∷ generated.memory ∷ before.paths.physical_rootfs ∷ []
  if shared then done else on_host (sync_snapshot_files before.paths.physical_directory files)
  s ← on_host (describe shared state generated.state)
  m ← on_host (describe shared mem generated.memory)
  d ← on_host (describe shared disk before.paths.physical_rootfs)
  write_record id (with_artifacts generated (by_kind s m d))
  after ← record_of id
  gets (λ core. build_manifest core id request after (by_kind s m d))
