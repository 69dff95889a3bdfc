-- ===== src/Worker/Manifest/Validation.antt =====
-- `buildManifest` against `validateManifest` of worker/snapshot/worker-manifest.ts.
use firemig.Prelude.{◌≡◌, refl, sym, subst, String, Option, none, some, ==_iff}
use firemig.Common.Types.{ArtifactKind, ArtifactDescriptor, CompatibilityManifest}
use firemig.Exec.{fulfilled, ◌>>=◌}
use firemig.Platform.Paths.Containment.{same_path_refl}
use firemig.Artifacts.Compatibility.{assert_compatible}
use firemig.Artifacts.Compatibility.Equality.{no_problems_iff}
use firemig.Worker.Types.{SandboxRecord, SnapshotRequest, WorkerCore}
use firemig.Worker.Manifest.{build_manifest, fits_reservation, check_reservation, validate_manifest}

-- The sandbox of a destination has the size and the paths of the source's.
abbrev pub SameShape : SandboxRecord → Option SandboxRecord → Type 0
SameShape r none = Unit
SameShape r (some r') =
    (r'.info.cpu ≡ r.info.cpu)
    × (r'.info.memory_mb ≡ r.info.memory_mb)
    × (r'.paths.canonical_rootfs ≡ r.paths.canonical_rootfs)
    × (r'.paths.canonical_vsock ≡ r.paths.canonical_vsock)

module _ (core : WorkerCore) (id : String) (request : SnapshotRequest) (r : SandboxRecord)
    (artifacts : ArtifactKind → ArtifactDescriptor) where
  abbrev built : CompatibilityManifest
  built = build_manifest core id request r artifacts

  built_compatible : assert_compatible built core.configuration.host_compatibility ≡ fulfilled tt
  unfolding assert_compatible build_manifest
  built_compatible =
      let none_left = (no_problems_iff built core.configuration.host_compatibility).1 refl in
      rw none_left refl

  built_fits : (o : Option SandboxRecord) → SameShape r o → check_reservation built o ≡ fulfilled tt
  unfolding check_reservation fits_reservation build_manifest
  built_fits none same = refl
  built_fits (some r') (cpu, memory, rootfs, vsock) =
      rw
        (
          cpu,
          memory,
          rootfs,
          vsock,
          same_path_refl r.paths.canonical_rootfs,
          same_path_refl r.paths.canonical_vsock,
          (==_iff r.info.cpu r.info.cpu).1 refl,
          (==_iff r.info.memory_mb r.info.memory_mb).1 refl,
        )
        refl

  built_reserved :
      (destination : WorkerCore)
      → SameShape r (destination.sandboxes id)
      → check_reservation built (destination.sandboxes built.sandbox_id) ≡ fulfilled tt
  unfolding build_manifest
  built_reserved destination shape = built_fits (destination.sandboxes id) shape

-- A manifest that a worker builds of its sandbox passes the validation of every worker whose host
-- has the same fingerprint and whose sandbox of that id, if it has one, has the same size and
-- canonical paths; the validation changes nothing.
pub validate-build_manifest :
    (core : WorkerCore) (id : String) (request : SnapshotRequest) (r : SandboxRecord)
    (artifacts : ArtifactKind → ArtifactDescriptor) (destination : WorkerCore)
    → destination.configuration.host_compatibility ≡ core.configuration.host_compatibility
    → SameShape r (destination.sandboxes id)
    → validate_manifest (build_manifest core id request r artifacts) destination
      ≡ (fulfilled tt, destination)
unfolding validate_manifest ◌>>=◌
validate-build_manifest core id request r artifacts destination alike shape =
    let compatible =
      subst
        (λ host. assert_compatible (build_manifest core id request r artifacts) host ≡ fulfilled tt)
        (sym alike) (built_compatible core id request r artifacts) in
    rw (compatible, built_reserved core id request r artifacts destination shape) refl
