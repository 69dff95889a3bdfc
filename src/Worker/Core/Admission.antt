-- ===== src/Worker/Core/Admission.antt =====
-- What `mutableRecord` of packages/agent/src/worker/core/worker-core.ts lets through.
use firemig.Prelude.{
  ℕ, ◌≤◌, ◌<◌, ◌≡◌, ◌≢◌, refl, String, Bool, true, false, not, ◌&&◌, ◌||◌, inl, inr, Option, none,
  some, arith, ltb, ◌===◌, Bool-cases, if◌then◌else◌,
}
use firemig.Prelude.Entries.{Distinct}
use firemig.Common.Phases.{SandboxState, booting, fenced_state, state_eq, state_eq_iff}
use firemig.Exec.{Settled, fulfilled, rejected, ◌>>=◌, within, Settled-cases}
use firemig.Exec.Keeps.{Outcome}
use firemig.Platform.Epochs.{EpochStore, Accepted, epoch_of, accept}
use firemig.Platform.Epochs.Laws.{Accepts, accept-Accepts}
use firemig.Worker.Types.{SandboxRecord, WorkerCore}
use firemig.Worker.Core.{
  on_epochs, epoch_store, record_of, fence_quietly, unexpected, admit, mutable_record,
}

-- The state that an operation asks for.
abbrev Expected : Option SandboxState → SandboxState → Type 0
Expected none st = Unit
Expected (some expected) st = st ≡ expected

expected_lem :
    (o : Option SandboxState) (st : SandboxState) → unexpected o st ≡ false → Expected o st
expected_lem none st h = tt
expected_lem (some expected) st h = ground (arith, h, state_eq_iff st expected)

module _ (r : SandboxRecord) (id : String) (epoch : ℕ) (expected : Option SandboxState) where
  -- The record is neither fenced nor ahead of the request, and a new owner may only boot it.
  abbrev Fits : Bool → Type 0
  Fits advanced =
      (r.info.state ≢ fenced_state)
      × (r.info.epoch ≤ epoch)
      × Expected expected r.info.state
      × (advanced ≡ true → r.info.state ≡ booting)

  admit-Fits :
      (a : Accepted) (core : WorkerCore)
      → Outcome
          (λ r' core'. (r' ≡ r) × (core' ≡ core) × Fits a.advanced)
          (λ _. Unit {0})
          (admit r id epoch expected a core)
  unfolding admit ◌>>=◌
  admit-Fits a core = elim (Bool-cases (a.advanced && not (state_eq r.info.state booting))) [
    | inl superseded ↦ elim (Settled-cases (fence_quietly r id epoch core)) [
      | inl (_, core', e) ↦ rw (superseded, e) tt
      | inr (t, core', e) ↦ rw (superseded, e) tt
    ]
    | inr owned ↦ elim (Bool-cases (state_eq r.info.state fenced_state || ltb epoch r.info.epoch)) [
      | inl barred ↦ rw (owned, barred) tt
      | inr free ↦ elim (Bool-cases (unexpected expected r.info.state)) [
        | inl other ↦ rw (owned, free, other) tt
        | inr wanted ↦
            rw (owned, free, wanted)
              (
                refl,
                refl,
                (
                  ground (arith, free, state_eq_iff r.info.state fenced_state),
                  ground (arith, free),
                  expected_lem expected r.info.state wanted,
                  λ moved. ground (arith, owned, moved, state_eq_iff r.info.state booting),
                ),
              )
      ]
    ]
  ]

-- What holds where an operation on the record `r` is let through.
abbrev pub Admitted :
    SandboxRecord
    → String
    → ℕ
    → Option SandboxState
    → WorkerCore
    → SandboxRecord
    → WorkerCore
    → Type 0
Admitted r id epoch expected core r' core' =
    (r' ≡ r)
    × (core'.sandboxes ≡ core.sandboxes)
    × (core'.consumed_snapshots ≡ core.consumed_snapshots)
    × (r.info.state ≢ fenced_state)
    × (r.info.epoch ≤ epoch)
    × Expected expected r.info.state
    × (epoch_of core.epochs id < epoch → r.info.state ≡ booting)
    × ((j : String)
        → epoch_of core'.epochs j ≡ (if id === j then epoch else epoch_of core.epochs j))

-- With epochs that hold no id twice, an operation on a sandbox goes on only if the sandbox is not
-- fenced, is in the state asked for, has no epoch above the request's, and is booting where the epoch
-- is new. Then the epoch of the sandbox is accepted, and no other epoch, no record and no consumed
-- snapshot has changed.
pub mutable_record-Admitted :
    (r : SandboxRecord) (id : String) (epoch : ℕ) (expected : Option SandboxState)
    (core : WorkerCore)
    → Distinct core.epochs
    → core.sandboxes id ≡ some r
    → Outcome
        (Admitted r id epoch expected core)
        (λ _. Unit {0})
        (mutable_record id epoch expected core)
unfolding mutable_record record_of on_epochs within ◌>>=◌
mutable_record-Admitted r id epoch expected core distinct present =
    let accepts = accept-Accepts id epoch (epoch_store core) distinct in
    elim (Settled-cases (accept id epoch (epoch_store core))) [
      | inr (t, s, e) ↦ rw (present, e) tt
      | inl (a, s, e) ↦
          rw (present, e) (finish a s (rw e at accepts) _ (admit-Fits r id epoch expected a _))
    ]
  where
    finish :
        (a : Accepted) (s : EpochStore)
        → Accepts id epoch (epoch_store core) (fulfilled a, s)
        → (o : Settled SandboxRecord × WorkerCore)
        → Outcome
            (λ r' core'.
              (r' ≡ r)
              × (core' ≡ record core { epochs = s.epochs; host = s.host })
              × Fits r id epoch expected a.advanced)
            (λ _. Unit {0})
            o
        → Outcome (Admitted r id epoch expected core) (λ _. Unit {0}) o
    finish a s accepted (rejected t, core') fits = tt
    finish a s (previous, fits, advanced, distinct, moved) (fulfilled r', core')
          (same, kept, (free, above, wanted, owned)) =
        rw kept (
          same,
          refl,
          refl,
          free,
          above,
          wanted,
          λ newer. owned (ground (arith, previous, advanced, newer)),
          moved,
        )
