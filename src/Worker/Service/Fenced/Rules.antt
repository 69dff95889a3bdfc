-- ===== src/Worker/Service/Fenced/Rules.antt =====
-- A fenced sandbox through the helpers of packages/agent/src/worker/core/worker-core.ts.
use firemig.Prelude.{
  ℕ, ◌≡◌, ◌≢◌, refl, String, Bool, true, false, inl, inr, Option, none, some, arith, ◌===◌, eq_iff,
  Bool-cases, Option-cases,
}
use firemig.Common.Errors.{Thrown}
use firemig.Common.Phases.{SandboxState, fenced_state, state_eq_iff}
use firemig.Exec.{Exec, ◌>>=◌, refuse, within, modify, Settled-cases}
use firemig.Exec.Keeps.{Keeps, Outcome, Gives, Gives-bind, keeps_rules, Keeps-bind, Keeps-gets}
use firemig.Platform.Epochs.{EpochStore, Accepted, accept}
use firemig.Worker.Types.{SandboxRecord, WorkerCore}
use firemig.Worker.Core.{
  on_epochs, record_of, write_record, adjust, with_state_epoch, fence_quietly, admit,
  mutable_record,
}
use firemig.Worker.Core.Frame.{On, Ledger, frame_laws, write_record-On}
use firemig.Worker.Lifecycle.{consume_snapshot}

abbrev pub HeldFenced : Option SandboxRecord → Type 0
HeldFenced none = ⊥
HeldFenced (some r) = r.info.state ≡ fenced_state

module _ (id : String) where
  -- The sandbox `id` is there, and fenced.
  abbrev pub Fenced : Ledger → Type 0
  Fenced l = HeldFenced (l.sandboxes id)

  abbrev pub KeepsFenced : {A : Type 0} → Exec WorkerCore A → Type 0
  KeepsFenced = Keeps (On Fenced)

  pub on_epochs-Fenced : {A : Type 0} (action : Exec EpochStore A) → KeepsFenced (on_epochs action)
  unfolding on_epochs within
  on_epochs-Fenced action = record { at = λ s h. record { holds = h.holds } }

  pub consume-Fenced : (o : Option String) → KeepsFenced (consume_snapshot o)
  unfolding consume_snapshot modify
  consume-Fenced none = search keeps_rules
  consume-Fenced (some migration_id) = Keeps-bind _ _ (Keeps-gets _) λ _.
      Keeps-bind _ _ (search keeps_rules) λ _. record { at = λ s h. record { holds = h.holds } }

  -- A write to another sandbox.
  pub write_other :
      (j : String) (f : SandboxRecord → SandboxRecord) → j ≢ id → KeepsFenced (write_record j f)
  write_other j f other = write_record-On Fenced j f λ l h. elim (Bool-cases (j === id)) [
    | inl same ↦ absurd (other (ground (arith, eq_iff j id, same)))
    | inr apart ↦ rw apart h
  ]

  held_adjust :
      (f : SandboxRecord → SandboxRecord) (o : Option SandboxRecord)
      → ((r : SandboxRecord) → r.info.state ≡ fenced_state → (f r).info.state ≡ fenced_state)
      → HeldFenced o
      → HeldFenced (adjust f o)
  held_adjust f none keeps h = h
  held_adjust f (some r) keeps h = keeps r h

  -- A write that leaves a fenced sandbox fenced.
  pub write_fenced :
      (j : String) (f : SandboxRecord → SandboxRecord)
      → ((r : SandboxRecord) → r.info.state ≡ fenced_state → (f r).info.state ≡ fenced_state)
      → KeepsFenced (write_record j f)
  write_fenced j f keeps = write_record-On Fenced j f λ l h. elim (Bool-cases (j === id)) [
    | inl same ↦ rw same (held_adjust f (l.sandboxes id) keeps h)
    | inr apart ↦ rw apart h
  ]

  pub fence_write :
      (j : String) (epoch : ℕ) → KeepsFenced (write_record j (with_state_epoch fenced_state epoch))
  fence_write j epoch = write_fenced j (with_state_epoch fenced_state epoch) λ r h. refl

  fence_quietly-Fenced :
      (r : SandboxRecord) (j : String) (epoch : ℕ) → KeepsFenced (fence_quietly r j epoch)
  unfolding fence_quietly
  fence_quietly-Fenced r j epoch = search (frame_laws, fence_write) depth 20

  mutable_record-Fenced :
      (j : String) (epoch : ℕ) (expected : Option SandboxState)
      → KeepsFenced (mutable_record j epoch expected)
  unfolding mutable_record admit
  mutable_record-Fenced j epoch expected =
      search (frame_laws, on_epochs-Fenced, fence_quietly-Fenced) depth 30

refuse-Blocked :
    {S B : Type 0} {Q : B → Type 0} (b : Bool) (t : Thrown) (f : Unit {0} → Exec S B)
    → b ≡ true
    → Gives Q (refuse b t >>= f)
unfolding ◌>>=◌
refuse-Blocked true t f e = record { at = λ s. tt }
refuse-Blocked false t f e = ground (arith, e)

admit-Blocked :
    (r : SandboxRecord) (id : String) (epoch : ℕ) (expected : Option SandboxState) (a : Accepted)
    → r.info.state ≡ fenced_state
    → Gives (λ _. ⊥) (admit r id epoch expected a)
unfolding admit
admit-Blocked r id epoch expected a fenced =
    Gives-bind _ _
      λ _. refuse-Blocked _ _ _ (ground (arith, fenced, state_eq_iff r.info.state fenced_state))

mutable_record-Blocked :
    (id : String) (epoch : ℕ) (expected : Option SandboxState) (core : WorkerCore)
    → HeldFenced (core.sandboxes id)
    → Outcome (λ _ _. ⊥) (λ _. Unit {0}) (mutable_record id epoch expected core)
unfolding mutable_record record_of ◌>>=◌
mutable_record-Blocked id epoch expected core held = elim (Option-cases (core.sandboxes id)) [
  | inl absent ↦ rw absent tt
  | inr (r, present) ↦ rw present (
      (Gives-bind (on_epochs (accept id epoch)) (admit r id epoch expected)
          λ a. admit-Blocked r id epoch expected a (rw present at held)).at
        core)
]

-- What stands behind the tests is run for another sandbox only.
pub mutable_bind :
    {B : Type 0} (id j : String) (epoch : ℕ) (expected : Option SandboxState)
    (f : SandboxRecord → Exec WorkerCore B)
    → (j ≢ id → (r : SandboxRecord) → KeepsFenced id (f r))
    → KeepsFenced id (mutable_record j epoch expected >>= f)
unfolding ◌>>=◌
mutable_bind id j epoch expected f keeps = elim (Bool-cases (j === id)) [
  | inr apart ↦
      Keeps-bind _ _ (mutable_record-Fenced id j epoch expected)
        (keeps (ground (arith, eq_iff j id, apart)))
  | inl same ↦ record {
    at = λ core h.
        let kept = (mutable_record-Fenced id j epoch expected).at core h in
        let mine : j ≡ id = ground (arith, eq_iff j id, same) in
        let barred = mutable_record-Blocked j epoch expected core (rw mine h.holds) in
        elim (Settled-cases (mutable_record j epoch expected core)) [
          | inr (t, core', e) ↦ rw e (rw e at kept)
          | inl (r, core', e) ↦ absurd (rw e at barred)
        ];
  }
]
