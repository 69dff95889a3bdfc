-- ===== src/Worker/Lifecycle/Loading.antt =====
-- `loadSnapshot` of packages/agent/src/worker/lifecycle/worker-lifecycle.ts, where it succeeds.
pub mod Checks
use firemig.Prelude.{
  ℕ, ◌+◌, ◌≡◌, refl, String, true, false, ◌&&◌, ◌⊎◌, inl, inr, Option, none, some, List, [], ◌∷◌,
  arith, ◌==◌, ◌===◌, eq_iff, ==_iff, Bool-cases, if◌then◌else◌,
}
use firemig.Prelude.Entries.{Distinct}
use firemig.Common.Errors.{Thrown, firemig_error, snapshot_consumed, incompatible_destination}
use firemig.Common.Phases.{booting, paused, state_eq, state_eq_iff}
use firemig.Common.Types.{ArtifactKind, CompatibilityManifest}
use firemig.Exec.{Settled, fulfilled, rejected, lift, done, ◌>>=◌, within, Settled-cases}
use firemig.Exec.Keeps.{Outcome}
use firemig.Platform.Host.{LoadSnapshotRequest, snapshot_load, call_firecracker}
use firemig.Artifacts.Compatibility.{compatibility_problems, assert_compatible, is_empty}
use firemig.Artifacts.Compatibility.Equality.{fingerprint, no_problems_iff}
use firemig.Worker.Types.{SandboxRecord, WorkerCore, artifact_kinds}
use firemig.Worker.Core.{on_host, record_of, write_record, mutable_record}
use firemig.Worker.Core.Admission.{Admitted, mutable_record-Admitted}
use firemig.Worker.Manifest.{check_reservation, validate_manifest}
use firemig.Worker.Lifecycle.{
  is_registered, check_artifacts, loaded_is, load_machine, load_verified, load_snapshot,
}
use firemig.Worker.Lifecycle.Loading.Checks.{
  Valid, validate_manifest-Valid, Registered, check_artifacts-cases, HoldsSnapshot,
  load_machine-HoldsSnapshot, weaken, loaded_is_lem,
}

module _ (id : String) (epoch : ℕ) (manifest : CompatibilityManifest) (r : SandboxRecord)
    (core : WorkerCore) where
  load_verified-Loads :
      Distinct core.epochs
      → core.sandboxes id ≡ some r
      → Outcome
          (λ _ core'.
            HoldsSnapshot id manifest (core'.sandboxes id)
            × ((r.info.state ≡ booting) × Registered artifact_kinds r manifest))
          (λ _. Unit {0})
          (load_verified id epoch manifest core)
  unfolding load_verified ◌>>=◌
  load_verified-Loads distinct present =
      let admitted = mutable_record-Admitted r id epoch (some booting) core distinct present in
      elim (Settled-cases (mutable_record id epoch (some booting) core)) [
        | inr (t, core', e) ↦ rw e tt
        | inl (r', core', e) ↦
            let facts : Admitted r id epoch (some booting) core r' core' = rw e at admitted in
            elim (check_artifacts-cases artifact_kinds r manifest) [
              | inr (t, missing) ↦ rw (e, facts.0, missing) tt
              | inl (registered, kinds) ↦
                  rw (e, facts.0, registered)
                    (weaken (λ c. HoldsSnapshot id manifest (c.sandboxes id))
                      (λ c.
                        HoldsSnapshot id manifest (c.sandboxes id)
                        × ((r.info.state ≡ booting) × Registered artifact_kinds r manifest))
                      _ (λ c h. (h, (facts.5, kinds)))
                      (load_machine-HoldsSnapshot id manifest r core' (rw facts.1 present)))
            ]
      ]

-- What a load that succeeds has checked: the snapshot fits the host, is for this sandbox and the next
-- epoch, and was never resumed; the sandbox held it paused before, or was booting with its artifacts.
abbrev pub Loads :
    String → ℕ → CompatibilityManifest → SandboxRecord → WorkerCore → WorkerCore → Type 0
Loads id epoch manifest r core core' =
    Valid manifest core
    × (manifest.sandbox_id ≡ id)
    × (epoch ≡ manifest.source_epoch + 1)
    × (core.consumed_snapshots manifest.migration_id ≡ false)
    × HoldsSnapshot id manifest (core'.sandboxes id)
    × ((core' ≡ core) ⊎ ((r.info.state ≡ booting) × Registered artifact_kinds r manifest))

-- With epochs that hold no id twice, a load of a sandbox succeeds only if the snapshot fits the host,
-- is not consumed, and is for this sandbox and the epoch after its source's. It leaves the sandbox
-- paused with the snapshot loaded: it was so before and nothing changed, or the sandbox was booting
-- and the three artifacts of the manifest were registered for it.
pub load_snapshot-Loads :
    (id : String) (epoch : ℕ) (manifest : CompatibilityManifest) (r : SandboxRecord)
    (core : WorkerCore)
    → Distinct core.epochs
    → core.sandboxes id ≡ some r
    → Outcome
        (λ _ core'. Loads id epoch manifest r core core')
        (λ _. Unit {0})
        (load_snapshot id epoch manifest core)
unfolding load_snapshot record_of ◌>>=◌
load_snapshot-Loads id epoch manifest r core distinct present =
    let valid = validate_manifest-Valid manifest core in
    elim (Settled-cases (validate_manifest manifest core)) [
      | inr (t, core', e) ↦ rw e tt
      | inl (_, core', e) ↦
          let facts : (core' ≡ core) × Valid manifest core = rw e at valid in
          elim (Bool-cases (manifest.sandbox_id === id)) [
            | inr other ↦ rw (e, other) tt
            | inl mine ↦ elim (Bool-cases (epoch == manifest.source_epoch + 1)) [
              | inr early ↦ rw (e, mine, early) tt
              | inl next ↦ elim (Bool-cases (core.consumed_snapshots manifest.migration_id)) [
                | inl spent ↦ rw (e, facts.0, mine, next, spent) tt
                | inr fresh ↦
                    rw (e, facts.0, mine, next, fresh, present)
                      (finish facts.1 (ground (arith, eq_iff manifest.sandbox_id id, mine))
                        (ground (arith, ==_iff epoch (manifest.source_epoch + 1), next)) fresh)
              ]
            ]
          ]
    ]
  where
    held :
        (loaded_is r.loaded_migration_id manifest.migration_id ≡ true)
          × (state_eq r.info.state paused ≡ true)
        → (r.info.state ≡ paused) × (r.loaded_migration_id ≡ some manifest.migration_id)
    held (named, idle) = (
      ground (arith, idle, state_eq_iff r.info.state paused),
      loaded_is_lem r.loaded_migration_id manifest.migration_id named,
    )

    finish :
        Valid manifest core
        → manifest.sandbox_id ≡ id
        → epoch ≡ manifest.source_epoch + 1
        → core.consumed_snapshots manifest.migration_id ≡ false
        → Outcome
            (λ _ core'. Loads id epoch manifest r core core')
            (λ _. Unit {0})
            ((if loaded_is r.loaded_migration_id manifest.migration_id
                  && state_eq r.info.state paused
                then done
                else load_verified id epoch manifest)
              core)
    finish valid mine next fresh =
        elim (Bool-cases
          (loaded_is r.loaded_migration_id manifest.migration_id && state_eq r.info.state paused)) [
            | inl already ↦
                rw already
                  (valid, mine, next, fresh, rw present (held (ground (arith, already))), inl refl)
            | inr anew ↦ rw anew (
                weaken _ (Loads id epoch manifest r core) _
                  (λ c h. (valid, mine, next, fresh, h.0, inr h.1))
                  (load_verified-Loads id epoch manifest r core distinct present))
          ]
