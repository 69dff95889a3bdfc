-- ===== src/Worker/Service/SingleResume.antt =====
-- `resumeSandbox` of packages/agent/src/worker/lifecycle/worker-lifecycle.ts, and the resumes that
-- Firecracker is sent.
use firemig.Prelude.{
  ℕ, ◌≡◌, refl, String, true, false, ◌⊎◌, inl, inr, Option, some, List, arith, Bool-cases, ◌===◌,
  eq_iff, if◌then◌else◌,
}
use firemig.Common.Errors.{Thrown, snapshot_consumed}
use firemig.Common.Phases.{SandboxState, paused}
use firemig.Exec.{Settled, rejected, ◌>>=◌, Settled-cases}
use firemig.Exec.Keeps.{Outcome, Gives, Gives-pure, Gives-bind}
use firemig.Platform.Epochs.{Accepted, accept}
use firemig.Worker.Types.{SandboxRecord, WorkerCore, conflict}
use firemig.Worker.Core.{on_epochs, record_of, admit, mutable_record}
use firemig.Worker.Core.Resumes.{resumes, mutable_record-Issued}
use firemig.Worker.Lifecycle.{consume_snapshot, resume_machine, resume_sandbox}
use firemig.Worker.Service.{Request, serve_all}
use firemig.Worker.Service.Consumed.{consumed_forever}
use firemig.Worker.Service.Consumed.Operations.{mutable_record-Consumed, resume_machine-Consumed}

module _ (r : SandboxRecord) (id : String) (epoch : ℕ) (expected : Option SandboxState) where
  admit-Gives : (a : Accepted) → Gives (λ r'. r' ≡ r) (admit r id epoch expected a)
  unfolding admit
  admit-Gives a = Gives-bind _ _ λ _. Gives-bind _ _ λ _. Gives-bind _ _ λ _. Gives-pure r refl

  -- The record that an operation gets is the one that the map held.
  mutable_record-Given :
      (core : WorkerCore)
      → core.sandboxes id ≡ some r
      → Outcome (λ r' _. r' ≡ r) (λ _. Unit {0}) (mutable_record id epoch expected core)
  unfolding mutable_record record_of ◌>>=◌
  mutable_record-Given core present =
      rw present
        ((Gives-bind (on_epochs (accept id epoch)) (admit r id epoch expected) admit-Gives).at core)

-- A resume that is refused, and of which Firecracker heard nothing.
abbrev pub Refused : WorkerCore → Settled (Unit {0}) × WorkerCore → Type 0
Refused core (o, core') =
    ((t : Thrown) × (o ≡ rejected t)) × (resumes core'.host.trace ≡ resumes core.host.trace)

resume_sandbox-Refused :
    (m : String) (core : WorkerCore) (id : String) (epoch : ℕ) (r : SandboxRecord)
    → core.consumed_snapshots m ≡ true
    → core.sandboxes id ≡ some r
    → r.loaded_migration_id ≡ some m
    → Refused core (resume_sandbox id epoch core)
unfolding resume_sandbox consume_snapshot ◌>>=◌
resume_sandbox-Refused m core id epoch r consumed present loaded =
    let issued =
      (mutable_record-Issued (resumes core.host.trace) id epoch (some paused)).at core
        (record { count = refl }) in
    let still =
      (mutable_record-Consumed m id epoch (some paused)).at core (record { holds = consumed }) in
    let given = mutable_record-Given r id epoch (some paused) core present in
    elim (Settled-cases (mutable_record id epoch (some paused) core)) [
      | inr (t, core', e) ↦ rw e ((t, refl), (rw e at issued).count)
      | inl (r', core', e) ↦
          let same : r' ≡ r = rw e at given in
          let kept = rw e at still in
          rw (e, same, loaded, kept.holds)
            ((conflict snapshot_consumed 409, refl), (rw e at issued).count)
    ]

-- Once its snapshot is consumed, a sandbox that was loaded from it is refused every resume, and
-- Firecracker is sent none, after any sequence of other requests.
pub consumed-Refused :
    (m : String) (qs : List Request) (core : WorkerCore) (id : String) (epoch : ℕ)
    (r : SandboxRecord)
    → core.consumed_snapshots m ≡ true
    → (serve_all qs core).sandboxes id ≡ some r
    → r.loaded_migration_id ≡ some m
    → Refused (serve_all qs core) (resume_sandbox id epoch (serve_all qs core))
consumed-Refused m qs core id epoch r consumed present loaded =
    resume_sandbox-Refused m (serve_all qs core) id epoch r (consumed_forever m qs core consumed)
      present loaded

-- A resume of a sandbox that was loaded from a snapshot sends Firecracker nothing, or the snapshot
-- was not consumed before and is consumed now, whether the resume succeeds or fails.
pub resume_sandbox-Marks :
    (m : String) (core : WorkerCore) (id : String) (epoch : ℕ) (r : SandboxRecord)
    → core.sandboxes id ≡ some r
    → r.loaded_migration_id ≡ some m
    → (resumes (resume_sandbox id epoch core).1.host.trace ≡ resumes core.host.trace)
      ⊎ ((core.consumed_snapshots m ≡ false)
          × ((resume_sandbox id epoch core).1.consumed_snapshots m ≡ true))
unfolding resume_sandbox consume_snapshot ◌>>=◌ resume_machine
resume_sandbox-Marks m core id epoch r present loaded =
    let issued =
      (mutable_record-Issued (resumes core.host.trace) id epoch (some paused)).at core
        (record { count = refl }) in
    let given = mutable_record-Given r id epoch (some paused) core present in
    elim (Bool-cases (core.consumed_snapshots m)) [
      | inl before ↦ inl (resume_sandbox-Refused m core id epoch r before present loaded).1
      | inr fresh ↦ elim (Settled-cases (mutable_record id epoch (some paused) core)) [
        | inr (t, core', e) ↦ rw e (inl (rw e at issued).count)
        | inl (r', core', e) ↦
            let same : r' ≡ r = rw e at given in
            elim (Bool-cases (core'.consumed_snapshots m)) [
              | inl after ↦ rw (e, same, loaded, after) (inl (rw e at issued).count)
              | inr unused ↦
                  rw (e, same, loaded, unused)
                    (inr (
                      fresh,
                      ((resume_machine-Consumed m r id epoch).at
                          (record core' {
                            consumed_snapshots =
                                λ j. if m === j then true else core'.consumed_snapshots j;
                          })
                          (record { holds = ground (arith, eq_iff m m) })).holds,
                    ))
            ]
      ]
    ]
