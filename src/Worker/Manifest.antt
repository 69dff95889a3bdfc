-- ===== src/Worker/Manifest.antt =====
-- packages/agent/src/worker/snapshot/worker-manifest.ts and worker-artifact-paths.ts.
pub mod Validation
use firemig.Prelude.{String, Bool, false, ◌&&◌, Option, none, some, [], ◌==◌, ◌===◌, if◌then◌else◌}
use firemig.Common.Errors.{firemig_error, incompatible_destination, not_found}
use firemig.Common.Types.{
  ArtifactKind, state, mem, disk, ArtifactDescriptor, CompatibilityManifest, FilePath,
}
use firemig.Exec.{Settled, fulfilled, rejected, Exec, gets, lift, ◌>>=◌, ◌>>◌}
use firemig.Platform.Paths.{same_path}
use firemig.Planning.{or_else}
use firemig.Artifacts.Compatibility.{assert_compatible}
use firemig.Worker.Types.{SandboxRecord, SnapshotRequest, WorkerCore}
use firemig.Worker.Core.{record_of}

abbrev pub tap_name : String
tap_name = "fmtap0"

unfoldable pub build_manifest :
    WorkerCore
    → String
    → SnapshotRequest
    → SandboxRecord
    → (ArtifactKind → ArtifactDescriptor)
    → CompatibilityManifest
build_manifest core id request r artifacts =
    let host = core.configuration.host_compatibility in
    record {
      migration_id = request.migration_id;
      sandbox_id = id;
      source_epoch = request.epoch;
      firecracker_version = host.firecracker_version;
      firecracker_digest = host.firecracker_digest;
      snapshot_format_version = host.snapshot_format_version;
      host_kernel_version = host.host_kernel_version;
      cpu = record {
        architecture = host.architecture;
        vendor = host.cpu_vendor;
        model = host.cpu_model;
        family = host.cpu_family;
        stepping = host.cpu_stepping;
      };
      guest_kernel_digest = host.guest_kernel_digest;
      cpu_template = host.cpu_template;
      vcpu_count = r.info.cpu;
      mem_size_mib = r.info.memory_mb;
      smt = host.smt;
      huge_pages = host.huge_pages;
      drive_canonical_path = r.paths.canonical_rootfs;
      tap_name = tap_name;
      vsock_canonical_path = r.paths.canonical_vsock;
      artifacts = artifacts;
      ports = some (or_else r.info.ports []);
      consumed = false;
    }

-- No problem between a manifest and the record that it would be restored into.
unfoldable pub fits_reservation : CompatibilityManifest → SandboxRecord → Bool
fits_reservation manifest r =
    (manifest.vcpu_count == r.info.cpu)
    && ((manifest.mem_size_mib == r.info.memory_mb)
        && (same_path manifest.drive_canonical_path r.paths.canonical_rootfs
            && (same_path manifest.vsock_canonical_path r.paths.canonical_vsock
                && (manifest.tap_name === tap_name))))

unfoldable pub check_reservation : CompatibilityManifest → Option SandboxRecord → Settled (Unit {0})
check_reservation manifest none = fulfilled tt
check_reservation manifest (some r) =
    if fits_reservation manifest r
    then fulfilled tt
    else rejected (firemig_error incompatible_destination false (some 412))

unfoldable pub validate_manifest : CompatibilityManifest → Exec WorkerCore (Unit {0})
validate_manifest manifest = do
  compatible ← gets (λ core. assert_compatible manifest core.configuration.host_compatibility)
  lift compatible
  checked ← gets (λ core. check_reservation manifest (core.sandboxes manifest.sandbox_id))
  lift checked

unfoldable pub artifact_path : SandboxRecord → ArtifactKind → FilePath
artifact_path r state = r.paths.state
artifact_path r mem = r.paths.memory
artifact_path r disk = r.paths.physical_rootfs

pub record StoredArtifact : Type 0 where
  pub path : FilePath
  pub descriptor : ArtifactDescriptor

abbrev stored : Option ArtifactDescriptor → FilePath → Settled StoredArtifact
stored none path = rejected (firemig_error not_found false (some 404))
stored (some descriptor) path = fulfilled (record { path = path; descriptor = descriptor })

unfoldable pub read_artifact : String → ArtifactKind → Exec WorkerCore StoredArtifact
read_artifact id kind = do r ← record_of id; lift (stored (r.artifacts kind) (artifact_path r kind))
