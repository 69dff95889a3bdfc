-- ===== src/Tests.antt =====
-- Each theorem applied to a concrete worker, host or allocator.
pub mod Samples
pub mod Clients
pub mod Networks
pub mod Quarantine
pub mod Values
pub mod Download
pub mod Restart
use firemig.Prelude.{
  ℕ, ◌≤◌, ◌≡◌, refl, ◌↔◌, ◌⊎◌, String, Bool, true, false, Option, none, some, List, [], ◌∷◌, arith,
  put, ◌-◌, ap, ◌===◌, Bool-cases, inl, inr,
}
use firemig.Prelude.Entries.{lookup}
use firemig.Common.Phases.{
  SandboxState, booting, running, paused, rolled_back, is_terminal_phase, completed, is_failure,
  terminal_or_failure,
}
use firemig.Common.Types.{
  ArtifactKind, state, ArtifactDescriptor, CompatibilityManifest, no_huge_pages,
}
use firemig.Exec.{fulfilled, ◌>>=◌}
use firemig.Platform.Host.{World, Host, unreadable}
use firemig.Platform.Epochs.{EpochStore, epoch_of, accept}
use firemig.Platform.Epochs.Laws.{Accepts, accept-Accepts}
use firemig.Network.Allocator.{
  Allocator, NetworkRequest, find_port, allocate_port, allocate_network,
}
use firemig.Network.Allocator.Ports.{
  FreePort, find_port-FreePort, Allocates, allocate_port-Allocates,
}
use firemig.Network.Allocator.Keys.{Claims, allocate_network-Claims}
use firemig.Artifacts.Compatibility.{HostCompatibility, compatibility_problems}
use firemig.Artifacts.Compatibility.Equality.{fingerprint, no_problems_iff}
use firemig.Artifacts.Range.{parse_range_header, open_artifact_range}
use firemig.Artifacts.Range.Bounds.{
  InFile, parse_range_header-InFile, Serves, open_artifact_range-Serves,
}
use firemig.Worker.Types.{WorkerConfiguration, SandboxRecord, WorkerCore}
use firemig.Worker.Core.{epoch_store, record_of}
use firemig.Worker.Core.Frame.{ledger}
use firemig.Worker.Core.Epochs.{Bounded}
use firemig.Worker.Core.Resumes.{resumes}
use firemig.Worker.Lifecycle.{resume_sandbox}
use firemig.Worker.Service.{Request, get, pause, fence, resume, serve, serve_all}
use firemig.Worker.Service.Stale.{stale_changes_nothing}
use firemig.Worker.Service.EpochBound.{serve_all-Bounded, epochs_never_fall}
use firemig.Worker.Service.Consumed.{consumed_forever}
use firemig.Worker.Service.SingleResume.{Refused, consumed-Refused, resume_sandbox-Marks}
use firemig.Prelude.Entries.{insert}
use firemig.Exec.{within}
use firemig.Exec.Keeps.{Outcome}
use firemig.Platform.Host.{perform, call_firecracker}
use firemig.Artifacts.Compatibility.{checks, failed_checks, assert_compatible}
use firemig.Worker.Types.{SnapshotRequest}
use firemig.Worker.Core.{on_host, on_epochs, write_record, admit, mutable_record}
use firemig.Worker.Core.Admission.{Admitted, mutable_record-Admitted}
use firemig.Worker.Manifest.{validate_manifest, check_reservation, fits_reservation, build_manifest}
use firemig.Worker.Manifest.Validation.{validate-build_manifest}
use firemig.Worker.Lifecycle.{check_artifacts, load_machine, load_verified, load_snapshot}
use firemig.Worker.Lifecycle.Loading.{Loads, load_snapshot-Loads}
use firemig.Common.Phases.{fenced_state}
use firemig.Worker.Service.Fenced.{fenced_stays_fenced}
use firemig.Worker.Lifecycle.{fence_sandbox}
use firemig.Worker.Lifecycle.FenceOutcome.{Fences, fence_sandbox-Fences}
use firemig.Artifacts.Pull.{write_chunks}
use firemig.Artifacts.Pull.Stream.{Streamed, write_chunks-Streamed}
use firemig.Platform.Paths.{PathModel, safe_identifier, inside_worker}
use firemig.Platform.Paths.Containment.{Descends, inside_worker-Descends}
use firemig.Tests.Samples.{
  world, host, fingerprint_of_host, descriptor, manifest, allocator, configuration, sandbox, worker,
  loaded_worker, running_worker,
}

abbrev epoch_at : Option SandboxRecord → ℕ
epoch_at none = 0
epoch_at (some r) = r.info.epoch

running_worker-Bounded : Bounded (ledger running_worker)
unfolding lookup
running_worker-Bounded = ((refl, tt), λ j r there. bound j r (ap epoch_at there))
  where
    bound :
        (j : String) (r : SandboxRecord)
        → epoch_at (running_worker.sandboxes j) ≡ r.info.epoch
        → r.info.epoch ≤ epoch_of running_worker.epochs j
    bound j r e = elim (Bool-cases ("sb" === j)) [
      | inl here ↦ rw (here) (omega (arith, rw here at e))
      | inr other ↦ rw (other) (omega (arith, rw other at e))
    ]

-- Two requests that the running sandbox admits or refuses.
abbrev requests : List Request
requests = pause "sb" 2 ∷ fence "sb" 3 ∷ resume "sb" 2 ∷ []

serve_all-Bounded_example : Bounded (ledger (serve_all requests running_worker))
serve_all-Bounded_example = serve_all-Bounded requests running_worker running_worker-Bounded

epochs_never_fall_example :
    epoch_of running_worker.epochs "sb" ≤ epoch_of (serve_all requests running_worker).epochs "sb"
epochs_never_fall_example = epochs_never_fall requests running_worker "sb" running_worker-Bounded

stale_changes_nothing_example : (serve (pause "sb" 1) running_worker).1 ≡ running_worker
unfolding lookup
stale_changes_nothing_example =
    stale_changes_nothing (pause "sb" 1) "sb" 1 running_worker refl (omega arith)

abbrev m1_consumed : String → Bool
m1_consumed m = m === "m1"

abbrev lookups : List Request
lookups = get "sb" ∷ []

consumed_forever_example :
    (serve_all requests (loaded_worker m1_consumed)).consumed_snapshots "m1" ≡ true
consumed_forever_example = consumed_forever "m1" requests (loaded_worker m1_consumed) refl

consumed-Refused_example :
    Refused
      (serve_all lookups (loaded_worker m1_consumed))
      (resume_sandbox "sb" 2 (serve_all lookups (loaded_worker m1_consumed)))
unfolding serve_all serve record_of ◌>>=◌
consumed-Refused_example =
    consumed-Refused "m1" lookups (loaded_worker m1_consumed) "sb" 2 (sandbox paused (some "m1"))
      refl refl refl

resume_sandbox-Marks_example :
    (resumes (resume_sandbox "sb" 2 (loaded_worker (λ m. false))).1.host.trace
      ≡ resumes (loaded_worker (λ m. false)).host.trace)
    ⊎ (((loaded_worker (λ m. false)).consumed_snapshots "m1" ≡ false)
        × ((resume_sandbox "sb" 2 (loaded_worker (λ m. false))).1.consumed_snapshots "m1" ≡ true))
resume_sandbox-Marks_example =
    resume_sandbox-Marks "m1" (loaded_worker (λ m. false)) "sb" 2 (sandbox paused (some "m1")) refl
      refl

abbrev store : EpochStore
store = record { epochs = ("sb", 2) ∷ []; path = "epochs.json" ∷ "firemig" ∷ []; host = host }

accept-Accepts_example : Accepts "sb" 3 store (accept "sb" 3 store)
unfolding lookup
accept-Accepts_example = accept-Accepts "sb" 3 store (refl, tt)

abbrev sample_network : NetworkRequest
sample_network = record {
  id = "sb";
  netns = none;
  host_veth = none;
  host_address = none;
  namespace_address = none;
}

allocate_network-Claims_example :
    Claims "sb" allocator (allocate_network world.hash_bytes sample_network allocator)
allocate_network-Claims_example = allocate_network-Claims world.hash_bytes sample_network allocator

allocate_port-Allocates_example :
    Allocates "sb" 80 allocator (allocate_port world.hash_bytes "sb" 80 allocator)
allocate_port-Allocates_example = allocate_port-Allocates world.hash_bytes "sb" 80 allocator

find_port-FreePort_example :
    FreePort
      (λ port. some "sb:80")
      65530
      "sb:81"
      (find_port (65536 - 65530) (λ port. some "sb:80") 65530 2 0 "sb:81")
find_port-FreePort_example =
    find_port-FreePort (λ port. some "sb:80") 65530 2 "sb:81" (omega arith) (omega arith)

no_problems_iff_example :
    (compatibility_problems manifest fingerprint_of_host ≡ [])
    ↔ (fingerprint manifest ≡ fingerprint_of_host)
no_problems_iff_example = no_problems_iff manifest fingerprint_of_host

parse_range_header-InFile_example :
    InFile 10 (some "bytes=2-5") (parse_range_header (some "bytes=2-5") 10)
parse_range_header-InFile_example = parse_range_header-InFile (some "bytes=2-5") 10

open_artifact_range-Serves_example :
    Serves
      ("state" ∷ [])
      (descriptor state)
      (some "bytes=2-5")
      host
      (open_artifact_range ("state" ∷ []) (descriptor state) (some "bytes=2-5") host)
open_artifact_range-Serves_example =
    open_artifact_range-Serves ("state" ∷ []) (descriptor state) (some "bytes=2-5") host

terminal_or_failure_example :
    (is_terminal_phase rolled_back ≡ true)
    ↔ ((rolled_back ≡ completed) ⊎ (is_failure rolled_back ≡ true))
terminal_or_failure_example = terminal_or_failure rolled_back

mutable_record-Admitted_example :
    Outcome
      (Admitted (sandbox running none) "sb" 2 (some running) running_worker)
      (λ _. Unit {0})
      (mutable_record "sb" 2 (some running) running_worker)
unfolding lookup
mutable_record-Admitted_example =
    mutable_record-Admitted (sandbox running none) "sb" 2 (some running) running_worker (refl, tt)
      refl

-- A sandbox that was made for a restore, with its artifacts fetched.
abbrev restored : SandboxRecord
restored = record (sandbox booting none) { artifacts = λ kind. some (descriptor kind) }

abbrev restoring_worker : WorkerCore
restoring_worker = worker restored (λ m. false)

load_snapshot-Loads_example :
    Outcome
      (λ _ core'. Loads "sb" 2 manifest restored restoring_worker core')
      (λ _. Unit {0})
      (load_snapshot "sb" 2 manifest restoring_worker)
unfolding lookup
load_snapshot-Loads_example =
    load_snapshot-Loads "sb" 2 manifest restored restoring_worker (refl, tt) refl

-- This load goes through.
load_snapshot_run : (load_snapshot "sb" 2 manifest restoring_worker).0 ≡ fulfilled tt
unfolding load_snapshot load_verified load_machine validate_manifest assert_compatible
    compatibility_problems checks failed_checks check_reservation fits_reservation mutable_record
    record_of admit on_epochs within accept lookup insert check_artifacts call_firecracker perform
    on_host write_record ◌>>=◌
load_snapshot_run = refl

abbrev snapshot_request : SnapshotRequest
snapshot_request = record { migration_id = "m1"; epoch = 2 }

validate-build_manifest_example :
    validate_manifest
      (build_manifest running_worker "sb" snapshot_request (sandbox running none) descriptor)
      restoring_worker
    ≡ (fulfilled tt, restoring_worker)
validate-build_manifest_example =
    validate-build_manifest running_worker "sb" snapshot_request (sandbox running none) descriptor
      restoring_worker refl (refl, refl, refl, refl)

abbrev fenced_worker : WorkerCore
fenced_worker = worker (sandbox fenced_state none) (λ m. false)

fenced_stays_fenced_example :
    (r' : SandboxRecord) × ((serve_all requests fenced_worker).sandboxes "sb" ≡ some r')
    × (r'.info.state ≡ fenced_state)
fenced_stays_fenced_example =
    fenced_stays_fenced "sb" requests fenced_worker (sandbox fenced_state none) refl refl
      (tt, (tt, (tt, tt)))

fence_sandbox-Fences_example :
    Fences "sb" 3
      (running_worker.sandboxes "sb")
      (accept "sb" 3 (epoch_store running_worker)).0
      running_worker
      (fence_sandbox "sb" 3 running_worker)
fence_sandbox-Fences_example = fence_sandbox-Fences "sb" 3 running_worker

write_chunks-Streamed_example :
    Outcome
      (Streamed ("mem" ∷ []) 4 ((1 ∷ 2 ∷ []) ∷ (3 ∷ []) ∷ []) 1 (0 ∷ []) host)
      (λ _. Unit {0})
      (write_chunks ("mem" ∷ []) 4 ((1 ∷ 2 ∷ []) ∷ (3 ∷ []) ∷ []) 1 (0 ∷ []) host)
write_chunks-Streamed_example =
    write_chunks-Streamed ("mem" ∷ []) 4 ((1 ∷ 2 ∷ []) ∷ (3 ∷ []) ∷ []) 1 (0 ∷ []) host

abbrev path_model : PathModel
path_model = record { worker_root = "firemig" ∷ "srv" ∷ []; canonical_root = "fm" ∷ [] }

inside_worker-Descends_example :
    Descends
      ("firemig" ∷ "srv" ∷ [])
      ("sandboxes" ∷ "sb-1" ∷ [])
      (inside_worker path_model ("sandboxes" ∷ "sb-1" ∷ []))
unfolding safe_identifier
inside_worker-Descends_example =
    inside_worker-Descends path_model ("sandboxes" ∷ "sb-1" ∷ []) (refl, (refl, tt))
