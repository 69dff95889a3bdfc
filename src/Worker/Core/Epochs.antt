-- ===== src/Worker/Core/Epochs.antt =====
-- The accepted epochs and the epochs of the sandboxes through packages/agent/src/worker/core/
-- worker-core.ts.
use firemig.Prelude.{
  ℕ, ◌≤◌, ◌≡◌, String, Option, some, inl, inr, arith, max, eq_iff, ◌===◌, Option-cases,
  if◌then◌else◌,
}
use firemig.Prelude.Entries.{Distinct}
use firemig.Common.Errors.{Thrown}
use firemig.Common.Phases.{SandboxState, fenced_state}
use firemig.Exec.{fulfilled, rejected, Settled-cases, Exec, ◌>>=◌, within, bind_assoc}
use firemig.Exec.Keeps.{Keeps, keeps_rules, Keeps-bind, Keeps-settle}
use firemig.Platform.Epochs.{EpochStore, Accepted, epoch_of, accept}
use firemig.Platform.Epochs.Laws.{Accepts, accept-Accepts}
use firemig.Worker.Types.{SandboxRecord, WorkerCore}
use firemig.Worker.Core.{
  on_epochs, epoch_store, record_of, write_record, with_state_epoch, fence_quietly, admit,
  mutable_record,
}
use firemig.Worker.Core.Frame.{
  Ledger, ledger, On, written, write_record-On, record_of-On, stop_relays-On, down_host_veth-On,
  frame_laws,
}

-- No record is ahead of the accepted epoch of its sandbox.
abbrev pub Bounded : Ledger → Type 0
Bounded l =
    Distinct l.epochs
    × ((j : String) (r : SandboxRecord)
        → l.sandboxes j ≡ some r
        → r.info.epoch ≤ epoch_of l.epochs j)

-- The accepted epochs are at least those of `floor`.
abbrev pub Floor : (String → ℕ) → Ledger → Type 0
Floor floor l = Bounded l × ((j : String) → floor j ≤ epoch_of l.epochs j)

abbrev pub raise : (String → ℕ) → String → ℕ → String → ℕ
raise floor id epoch j = if id === j then max (floor j) epoch else floor j

accept_result :
    (floor : String → ℕ) (id : String) (epoch : ℕ) (core : WorkerCore) (a : Accepted)
    (s : EpochStore)
    → Floor floor (ledger core)
    → Accepts id epoch (epoch_store core) (fulfilled a, s)
    → Floor (raise floor id epoch) (record {
      epochs = s.epochs;
      sandboxes = core.sandboxes;
      consumed_snapshots = core.consumed_snapshots;
    })
accept_result floor id epoch core a s (b, above) (previous, fits, _, distinct, moved) = (
  (distinct, λ j r there. ground (arith, moved j, b.1 j r there, eq_iff id j)),
  λ j. ground (arith, moved j, above j, eq_iff id j),
)

accept_failure :
    (floor : String → ℕ) (id : String) (epoch : ℕ) (core : WorkerCore) (t : Thrown) (s : EpochStore)
    → Floor floor (ledger core)
    → Accepts id epoch (epoch_store core) (rejected t, s)
    → Floor floor (record {
      epochs = s.epochs;
      sandboxes = core.sandboxes;
      consumed_snapshots = core.consumed_snapshots;
    })
accept_failure floor id epoch core t s (b, above) (distinct, same) = (
  (distinct, λ j r there. ground (arith, same j, b.1 j r there)),
  λ j. ground (arith, same j, above j),
)

lower :
    (floor : String → ℕ) (id : String) (epoch : ℕ) (l : Ledger)
    → Floor (raise floor id epoch) l
    → Floor floor l
lower floor id epoch l (b, above) = (b, λ j. ground (arith, above j, eq_iff id j))

module _ (floor : String → ℕ) (id : String) (epoch : ℕ) where
  -- Behind an accepted epoch, the rest may rely on it.
  pub accept_bind :
      {B : Type 0} (f : Accepted → Exec WorkerCore B)
      → ((a : Accepted) → Keeps (On (Floor (raise floor id epoch))) (f a))
      → Keeps (On (Floor floor)) (on_epochs (accept id epoch) >>= f)
  unfolding on_epochs within ◌>>=◌
  accept_bind f kf = record {
    at = λ core h.
        let accepts = accept-Accepts id epoch (epoch_store core) h.holds.0.0 in
        elim (Settled-cases (accept id epoch (epoch_store core))) [
          | inl (a, s, e) ↦
              let result = accept_result floor id epoch core a s h.holds (rw e at accepts) in
              let core' = record core { epochs = s.epochs; host = s.host } in
              rw e (record {
                holds =
                    lower floor id epoch (ledger (f a core').1)
                      ((kf a).at core' (record { holds = result })).holds;
              })
          | inr (t, s, e) ↦
              rw e (record {
                holds = accept_failure floor id epoch core t s h.holds (rw e at accepts);
              })
        ];
  }

  -- A write that lifts the epoch of the record no higher than to `epoch`.
  pub write_record-Floor :
      (f : SandboxRecord → SandboxRecord)
      → ((r : SandboxRecord) → (f r).info.epoch ≤ max r.info.epoch epoch)
      → Keeps (On (Floor (raise floor id epoch))) (write_record id f)
  write_record-Floor f fits =
      write_record-On (Floor (raise floor id epoch)) id f λ l h. ((h.0.0, bound l h), h.1)
    where
      bound :
          (l : Ledger)
          → Floor (raise floor id epoch) l
          → (j : String) (r : SandboxRecord) → (written id f l).sandboxes j ≡ some r
          → r.info.epoch ≤ epoch_of l.epochs j
      bound l h j r there = elim (Option-cases (l.sandboxes j)) [
        | inl absent ↦ ground arith
        | inr (r', present) ↦ ground (arith, h.0.1 j r' present, h.1 j, fits r', eq_iff id j)
      ]

  fence_quietly-Floor :
      (r : SandboxRecord) → Keeps (On (Floor (raise floor id epoch))) (fence_quietly r id epoch)
  unfolding fence_quietly
  fence_quietly-Floor r =
      Keeps-bind _ _ (write_record-Floor (with_state_epoch fenced_state epoch) (λ r'. omega arith))
        λ _.
          Keeps-bind _ _ (stop_relays-On _ id) λ _.
            Keeps-bind _ _ (Keeps-settle (down_host_veth-On _ r)) λ _. search frame_laws depth 12

  admit-Floor :
      (r : SandboxRecord) (expected : Option SandboxState) (a : Accepted)
      → Keeps (On (Floor (raise floor id epoch))) (admit r id epoch expected a)
  unfolding admit
  admit-Floor r expected a = search (keeps_rules, fence_quietly-Floor) depth 12

  pub mutable_bind :
      {B : Type 0} (expected : Option SandboxState) (f : SandboxRecord → Exec WorkerCore B)
      → ((r : SandboxRecord) → Keeps (On (Floor (raise floor id epoch))) (f r))
      → Keeps (On (Floor floor)) (mutable_record id epoch expected >>= f)
  unfolding mutable_record
  mutable_bind expected f kf = rw bind_assoc (
      Keeps-bind (record_of id)
        (λ r. (on_epochs (accept id epoch) >>= λ a. admit r id epoch expected a) >>= f)
        (record_of-On (Floor floor) id)
        λ r. rw bind_assoc (
          accept_bind (λ a. admit r id epoch expected a >>= f)
            λ a. Keeps-bind _ _ (admit-Floor r expected a) kf))

-- A write that leaves the epoch of the record alone.
pub write_same :
    (floor : String → ℕ) (id : String) (f : SandboxRecord → SandboxRecord)
    → ((r : SandboxRecord) → (f r).info.epoch ≡ r.info.epoch)
    → Keeps (On (Floor floor)) (write_record id f)
write_same floor id f same = write_record-On (Floor floor) id f λ l h. ((h.0.0, bound l h), h.1)
  where
    bound :
        (l : Ledger)
        → Floor floor l
        → (j : String) (r : SandboxRecord) → (written id f l).sandboxes j ≡ some r
        → r.info.epoch ≤ epoch_of l.epochs j
    bound l h j r there = elim (Option-cases (l.sandboxes j)) [
      | inl absent ↦ ground arith
      | inr (r', present) ↦ ground (arith, h.0.1 j r' present, same r', eq_iff id j)
    ]
