-- ===== src/Worker/Transfer.antt =====
-- packages/agent/src/worker/migration/worker-transfer.ts: fetching the artifacts of a snapshot.
use Prim.Native.Char.{code}
use Prim.Native.String.{◌++◌}
use firemig.Prelude.{
  ℕ, String, Bool, true, false, not, ◌||◌, Option, none, some, [], ◌∷◌, map, all, ◌==◌, ◌===◌,
  if◌then◌else◌,
}
use firemig.Common.Errors.{plain, firemig_error, destination_unavailable}
use firemig.Common.Phases.{booting}
use firemig.Common.Types.{
  ArtifactKind, state, mem, disk, kind_eq, ArtifactDescriptor, CompatibilityManifest, FilePath,
}
use firemig.Exec.{
  Settled, fulfilled, rejected, Exec, pure, gets, lift, done, refuse, ◌>>=◌, ◌>>◌, for_each,
}
use firemig.Platform.Paths.{assert_identifier, resolve_all, is_below}
use firemig.Platform.Host.{Host, remove, link, stat, rename, perform}
use firemig.Planning.{or_else}
use firemig.Artifacts.Pull.{partial_of, pull_artifact, run_abortable_operations}
use firemig.Worker.Types.{
  SandboxRecord, TransferMigrationRequest, WorkerCore, artifact_kinds, worker_bad_request,
  total_artifact_bytes,
}
use firemig.Worker.Core.{on_host, record_of, write_record, mutable_record}
use firemig.Worker.Manifest.{validate_manifest, artifact_path}
use firemig.Worker.Lifecycle.{is_registered}
use firemig.Worker.GuestOps.{expose_guest_port}

abbrev has_slash : String → Bool
has_slash String.[] = false
has_slash (String.◌∷◌ c rest) = code c == b'/' || has_slash rest

-- A name with a slash is not its own base name. What is resolved must stay below the sandbox.
unfoldable pub shared_source : FilePath → String → String → String → Settled FilePath
shared_source shared_root source_worker id name =
    let base = resolve_all shared_root (source_worker ∷ "sandboxes" ∷ id ∷ []) in
    let path = resolve_all base (name ∷ []) in
    if has_slash name
    then rejected (plain "Invalid artifact name")
    else if is_below base path
    then fulfilled path
    else rejected (plain "Artifact path escaped source sandbox")

-- The file is linked beside, measured, and renamed into place.
unfoldable pub link_shared_artifact :
    FilePath → String → String → FilePath → ArtifactDescriptor → Exec Host (Unit {0})
link_shared_artifact shared_root source_worker id destination_path descriptor = do
  lift (assert_identifier source_worker)
  source_path ← lift (shared_source shared_root source_worker id descriptor.name)
  let partial_path = partial_of destination_path
  perform (remove partial_path)
  perform (link source_path partial_path)
  perform (stat partial_path)
  size ← gets (λ h. h.world.size h.trace partial_path)
  refuse (not (size == descriptor.size)) (plain "Shared artifact size changed")
  perform (rename partial_path destination_path)

abbrev pub kind_text : ArtifactKind → String
kind_text state = "state"
kind_text mem = "mem"
kind_text disk = "disk"

abbrev fetch_by :
    Option FilePath
    → String
    → String
    → String
    → FilePath
    → ArtifactDescriptor
    → Exec Host (Unit {0})
fetch_by none id source_worker source_url destination_path descriptor =
    pull_artifact
      (source_url ++ "/internal/sandboxes/" ++ id ++ "/artifacts/" ++ kind_text descriptor.kind)
      destination_path descriptor
    >>= λ _. done
fetch_by (some shared_root) id source_worker source_url destination_path descriptor =
    link_shared_artifact shared_root source_worker id destination_path descriptor

unfoldable pub transfer_artifact :
    String → String → String → ArtifactDescriptor → Exec WorkerCore (Unit {0})
transfer_artifact id source_worker source_url descriptor = do
  r ← record_of id
  shared ← gets (λ core. core.configuration.shared_worker_root)
  on_host (fetch_by shared id source_worker source_url (artifact_path r descriptor.kind) descriptor)

-- `record.artifacts[descriptor.kind] = descriptor`
abbrev pub with_artifact : ArtifactDescriptor → SandboxRecord → SandboxRecord
with_artifact descriptor r = record r {
  artifacts = λ kind. if kind_eq kind descriptor.kind then some descriptor else r.artifacts kind;
}

unfoldable pub fetch_and_register :
    String → String → String → ArtifactDescriptor → Exec WorkerCore (Unit {0})
fetch_and_register id source_worker source_url descriptor = do
  transfer_artifact id source_worker source_url descriptor
  record_of id
  write_record id (with_artifact descriptor)

abbrev url_of : Option String → Settled String
url_of none = rejected (firemig_error destination_unavailable true (some 503))
url_of (some url) = fulfilled url

unfoldable pub is_complete : SandboxRecord → CompatibilityManifest → Bool
is_complete r manifest =
    all (λ kind. is_registered (r.artifacts kind) (manifest.artifacts kind)) artifact_kinds

unfoldable pub transfer_migration : String → ℕ → TransferMigrationRequest → Exec WorkerCore ℕ
transfer_migration id epoch request = do
  let manifest = request.manifest
  refuse (not (manifest.migration_id === request.migration_id)) worker_bad_request
  validate_manifest manifest
  mutable_record id epoch (some booting)
  peer ← gets (λ core. core.configuration.peer_urls request.source)
  source_url ← lift (url_of peer)
  r ← record_of id
  let fetch = λ (kind : ArtifactKind).
      fetch_and_register id request.source source_url (manifest.artifacts kind)
  if is_complete r manifest
      then done
      else (run_abortable_operations (map fetch artifact_kinds) >>= λ _. done)
  for_each (λ port. expose_guest_port id epoch port.guest_port >>= λ _. done)
      (or_else manifest.ports [])
  pure (total_artifact_bytes manifest)
