-- ===== src/Worker/Types.antt =====
-- packages/agent/src/worker/core/worker-types.ts and worker-errors.ts, and the state of WorkerCore.
use firemig.Prelude.{
  ℕ, ◌+◌, String, Bool, false, Option, some, List, [], ◌∷◌, ◌||◌, ltb, if◌then◌else◌,
}
use firemig.Common.Errors.{ErrorCode, Thrown, firemig_error, bad_request, not_found, fenced}
use firemig.Common.Types.{
  ArtifactKind, state, mem, disk, ArtifactDescriptor, CompatibilityManifest, FilePath, SandboxInfo,
}
use firemig.Exec.{Settled, fulfilled, rejected}
use firemig.Platform.Paths.{SandboxPaths}
use firemig.Platform.Host.{Host}
use firemig.Network.Allocator.{Allocator}
use firemig.Artifacts.Compatibility.{HostCompatibility}

pub record WorkerConfiguration : Type 0 where
  pub worker_id : String
  pub region : String
  pub worker_root : FilePath
  pub canonical_root : FilePath
  pub firecracker_binary : String
  pub kernel_path : String
  pub base_rootfs_path : String
  pub proxy_host : String
  pub port_base : Option ℕ
  pub peer_urls : String → Option String
  pub shared_worker_root : Option FilePath
  pub host_compatibility : HostCompatibility

pub data Mode : Type 0 where
  boot restore : Mode

pub record CreateWorkerSandboxRequest : Type 0 where
  pub id : String
  pub epoch : ℕ
  pub cpu : ℕ
  pub memory_mb : ℕ
  pub mode : Option Mode
  pub kernel_path : Option String
  pub rootfs_path : Option String
  pub kernel : Option String
  pub rootfs : Option String
  pub netns : Option String
  pub host_veth : Option String
  pub host_address : Option String
  pub namespace_address : Option String
  pub mtu : Option ℕ

-- `firecracker` and `guest` are clients that hold nothing but their socket.
pub record SandboxRecord : Type 0 where
  pub info : SandboxInfo
  pub paths : SandboxPaths
  pub netns : String
  pub host_veth : String
  pub namespace_address : String
  pub guest : FilePath
  pub firecracker : FilePath
  pub generation : ℕ
  pub artifacts : ArtifactKind → Option ArtifactDescriptor
  pub loaded_migration_id : Option String
  pub network_keys : List String
  pub quarantine_path : Option FilePath

pub record SnapshotRequest : Type 0 where
  pub migration_id : String
  pub epoch : ℕ

pub data Stage : Type 0 where
  reserve prestage : Stage

pub record PreparedSandbox : Type 0 where
  pub id : String
  pub cpu : ℕ
  pub memory_mb : ℕ
  pub boot_id : Option String

pub record PrepareMigrationRequest : Type 0 where
  pub migration_id : String
  pub stage : Stage
  pub source : String
  pub destination : String
  pub sandbox : PreparedSandbox

-- `preparing` is a promise between two steps; here a step is never interrupted.
pub record MigrationReservation : Type 0 where
  pub request : PrepareMigrationRequest
  pub open request use *
  pub epoch : ℕ
  pub prepared : Bool

pub record TransferMigrationRequest : Type 0 where
  pub migration_id : String
  pub source : String
  pub manifest : CompatibilityManifest

abbrev pub artifact_kinds : List ArtifactKind
artifact_kinds = state ∷ mem ∷ disk ∷ []

-- The two child processes of a sandbox.
pub record SandboxProcesses : Type 0 where
  pub mount_namespace : ℕ
  pub firecracker : ℕ

-- The state of WorkerCore. A relay is its guest port and its host port.
pub record WorkerCore : Type 0 where
  pub configuration : WorkerConfiguration
  pub host : Host
  pub epochs : List (String × ℕ)
  pub allocator : Allocator
  pub processes : String → Option SandboxProcesses
  pub relays : String → List (ℕ × ℕ)
  pub sandboxes : String → Option SandboxRecord
  pub consumed_snapshots : String → Bool
  pub migrations : String → Option MigrationReservation
  pub manifests : String → Option CompatibilityManifest

abbrev pub worker_bad_request : Thrown
worker_bad_request = firemig_error bad_request false (some 400)

abbrev pub conflict : ErrorCode → ℕ → Thrown
conflict code status = firemig_error code false (some status)

abbrev pub sandbox_not_found : Thrown
sandbox_not_found = firemig_error not_found false (some 404)

abbrev pub fenced_error : Thrown
fenced_error = firemig_error fenced false (some 409)

abbrev pub state_mismatch : Thrown
state_mismatch = firemig_error bad_request false (some 409)

unfoldable pub validate_machine_size : ℕ → ℕ → Settled (Unit {0})
validate_machine_size cpu memory_mb =
    if ltb cpu 1 || ltb 32 cpu
    then rejected worker_bad_request
    else if ltb memory_mb 128 || ltb 262144 memory_mb
    then rejected worker_bad_request
    else fulfilled tt

unfoldable pub total_artifact_bytes : CompatibilityManifest → ℕ
total_artifact_bytes manifest =
    (manifest.artifacts state).size + (manifest.artifacts mem).size + (manifest.artifacts disk).size
