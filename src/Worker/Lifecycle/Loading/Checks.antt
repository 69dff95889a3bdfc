-- ===== src/Worker/Lifecycle/Loading/Checks.antt =====
-- The checks of `loadSnapshot` in packages/agent/src/worker: what each lets through.
use firemig.Prelude.{
  ◌≡◌, refl, String, true, false, ◌⊎◌, inl, inr, Option, none, some, List, [], ◌∷◌, arith, ◌===◌,
  eq_iff, Bool-cases,
}
use firemig.Common.Errors.{Thrown, firemig_error, snapshot_consumed, incompatible_destination}
use firemig.Common.Phases.{paused}
use firemig.Common.Types.{ArtifactKind, CompatibilityManifest}
use firemig.Exec.{Settled, fulfilled, rejected, lift, ◌>>=◌, within, Settled-cases}
use firemig.Exec.Keeps.{Outcome}
use firemig.Platform.Host.{LoadSnapshotRequest, snapshot_load, call_firecracker}
use firemig.Artifacts.Compatibility.{compatibility_problems, assert_compatible, is_empty}
use firemig.Artifacts.Compatibility.Equality.{fingerprint, no_problems_iff}
use firemig.Worker.Types.{SandboxRecord, WorkerCore}
use firemig.Worker.Core.{on_host, write_record}
use firemig.Worker.Manifest.{check_reservation, validate_manifest}
use firemig.Worker.Lifecycle.{is_registered, check_artifacts, loaded_is, load_machine}

-- The snapshot can be restored on this host.
abbrev pub Valid : CompatibilityManifest → WorkerCore → Type 0
Valid manifest core =
    (fingerprint manifest ≡ core.configuration.host_compatibility) × (manifest.consumed ≡ false)

is_empty_lem : {A : Type 0} (xs : List A) → is_empty xs ≡ true → xs ≡ []
is_empty_lem [] h = refl
is_empty_lem (x ∷ xs) h = ground (arith, h)

assert_compatible-cases :
    (manifest : CompatibilityManifest) (core : WorkerCore)
    → ((assert_compatible manifest core.configuration.host_compatibility ≡ fulfilled tt)
        × Valid manifest core)
      ⊎ ((t : Thrown) × (assert_compatible manifest core.configuration.host_compatibility
            ≡ rejected t))
unfolding assert_compatible
assert_compatible-cases manifest core = elim (Bool-cases manifest.consumed) [
  | inl spent ↦ inr (firemig_error snapshot_consumed false (some 409), simp spent refl)
  | inr fresh ↦
      elim (Bool-cases
        (is_empty (compatibility_problems manifest core.configuration.host_compatibility))) [
          | inr problems ↦
              inr (
                firemig_error incompatible_destination false (some 412),
                simp (fresh, problems) refl,
              )
          | inl none_left ↦ inl (
            simp (fresh, none_left) refl,
            (
              (no_problems_iff manifest core.configuration.host_compatibility).0
                  (is_empty_lem _ none_left),
              fresh,
            ),
          )
        ]
]

pub validate_manifest-Valid :
    (manifest : CompatibilityManifest) (core : WorkerCore)
    → Outcome
        (λ _ core'. (core' ≡ core) × Valid manifest core)
        (λ _. Unit {0})
        (validate_manifest manifest core)
unfolding validate_manifest ◌>>=◌
validate_manifest-Valid manifest core = elim (assert_compatible-cases manifest core) [
  | inr (t, e) ↦ rw e tt
  | inl (e, valid) ↦
      rw e (reserved valid (check_reservation manifest (core.sandboxes manifest.sandbox_id)))
]
  where
    reserved :
        Valid manifest core
        → (o : Settled (Unit {0}))
        → Outcome (λ _ core'. (core' ≡ core) × Valid manifest core) (λ _. Unit {0}) (lift o core)
    reserved valid (fulfilled _) = (refl, valid)
    reserved valid (rejected t) = tt

abbrev pub Registered : List ArtifactKind → SandboxRecord → CompatibilityManifest → Type 0
Registered [] r manifest = Unit
Registered (kind ∷ kinds) r manifest =
    (is_registered (r.artifacts kind) (manifest.artifacts kind) ≡ true)
    × Registered kinds r manifest

pub check_artifacts-cases :
    (kinds : List ArtifactKind) (r : SandboxRecord) (manifest : CompatibilityManifest)
    → ((check_artifacts kinds r manifest ≡ fulfilled tt) × Registered kinds r manifest)
      ⊎ ((t : Thrown) × (check_artifacts kinds r manifest ≡ rejected t))
unfolding check_artifacts
check_artifacts-cases [] r manifest = inl (refl, tt)
check_artifacts-cases (kind ∷ kinds) r manifest =
    elim (Bool-cases (is_registered (r.artifacts kind) (manifest.artifacts kind))) [
      | inr missing ↦ rw missing (inr (_, refl))
      | inl there ↦ rw there (elim (check_artifacts-cases kinds r manifest) [
        | inl (e, rest) ↦ inl (e, (refl, rest))
        | inr (t, e) ↦ inr (t, e)
      ])
    ]

abbrev load_request : WorkerCore → SandboxRecord → LoadSnapshotRequest
load_request core r = record {
  snapshot_path = r.paths.state;
  memory_path = r.paths.memory;
  resume = false;
  clock_realtime = core.configuration.host_compatibility.architecture === "x64";
}

-- The sandbox is paused, and knows the snapshot that it was loaded from.
abbrev pub HoldsSnapshot : String → CompatibilityManifest → Option SandboxRecord → Type 0
HoldsSnapshot id manifest none = ⊥
HoldsSnapshot id manifest (some r') =
    (r'.info.state ≡ paused) × (r'.loaded_migration_id ≡ some manifest.migration_id)

pub load_machine-HoldsSnapshot :
    (id : String) (manifest : CompatibilityManifest) (r : SandboxRecord) (core : WorkerCore)
    → core.sandboxes id ≡ some r
    → Outcome
        (λ _ core'. HoldsSnapshot id manifest (core'.sandboxes id))
        (λ _. Unit {0})
        (load_machine r id manifest core)
unfolding load_machine on_host within write_record ◌>>=◌
load_machine-HoldsSnapshot id manifest r core present =
    elim (Settled-cases
      (call_firecracker r.firecracker (snapshot_load (load_request core r)) core.host)) [
        | inr (t, h, e) ↦ rw e tt
        | inl (_, h, e) ↦ rw (e, (eq_iff id id).1 refl, present) (refl, refl)
      ]

pub weaken :
    {A : Type 0} (P Q : WorkerCore → Type 0) (o : Settled A × WorkerCore)
    → ((core : WorkerCore) → P core → Q core)
    → Outcome (λ _ core. P core) (λ _. Unit {0}) o
    → Outcome (λ _ core. Q core) (λ _. Unit {0}) o
weaken P Q (fulfilled a, core) f h = f core h
weaken P Q (rejected t, core) f h = tt

pub loaded_is_lem : (o : Option String) (m : String) → loaded_is o m ≡ true → o ≡ some m
loaded_is_lem none m h = ground (arith, h)
loaded_is_lem (some loaded) m h = ground (arith, h, eq_iff loaded m)
