-- ===== src/Worker/Lifecycle/FenceOutcome.antt =====
-- `fenceSandbox` of packages/agent/src/worker/lifecycle/worker-lifecycle.ts, on every branch.
use firemig.Prelude.{
  ℕ, ◌≡◌, refl, String, inl, inr, Option-cases, Option, none, some, List, [], ◌∷◌, ◌===◌, eq_iff,
  if◌then◌else◌,
}
use firemig.Common.Errors.{Thrown}
use firemig.Common.Phases.{fenced_state}
use firemig.Exec.{
  Settled, fulfilled, rejected, Exec, ◌>>=◌, settle, done, for_each, within, Settled-cases,
}
use firemig.Exec.Keeps.{Keeps, keeps_rules}
use firemig.Platform.Host.{Host, relay_close, perform}
use firemig.Platform.Epochs.{Accepted, accept}
use firemig.Worker.Types.{SandboxRecord, WorkerCore, sandbox_not_found}
use firemig.Worker.Core.{
  on_host, on_epochs, epoch_store, call, record_of, write_record, adjust, with_state_epoch,
  stop_relays, down_host_veth, run_plans,
}
use firemig.Worker.Lifecycle.{pause_if_running, fence_machine, fence_sandbox}

-- The sandbox is fenced at the epoch, and has no relay.
abbrev pub FencedAt : ℕ → Option SandboxRecord → Type 0
FencedAt epoch none = ⊥
FencedAt epoch (some r) = (r.info.state ≡ fenced_state) × (r.info.epoch ≡ epoch)

close_relays :
    (relays : List (ℕ × ℕ)) (core : WorkerCore)
    → (core' : WorkerCore) × (for_each
          (λ r. settle (call (relay_close r.1)) >>= λ _. done)
          relays
          core
        ≡ (fulfilled tt, core'))
      × (core'.sandboxes ≡ core.sandboxes)
unfolding for_each on_host within perform ◌>>=◌
close_relays [] core = (core, refl, refl)
close_relays (r ∷ rest) core =
    let closed = record core {
      host = record (core.host) { trace = relay_close r.1 ∷ core.host.trace };
    } in
    close_relays rest closed

stop_relays_lem :
    (id : String) (core : WorkerCore)
    → (core' : WorkerCore) × (stop_relays id core ≡ (fulfilled tt, core'))
      × (core'.sandboxes ≡ core.sandboxes)
      × (core'.relays id ≡ [])
unfolding stop_relays ◌>>=◌
stop_relays_lem id core =
    let (core', e, same) = close_relays (core.relays id) core in
    (
      record core' { relays = λ j. if id === j then [] else core'.relays j },
      rw e refl,
      same,
      rw ((eq_iff id id).1 refl) refl,
    )

module _ (id : String) (epoch : ℕ) where
  pub record Down (core : WorkerCore) : Type 0 where
    pub held : FencedAt epoch (core.sandboxes id)
    pub closed : core.relays id ≡ []

  on_host-Down : {A : Type 0} (m : Exec Host A) → Keeps Down (on_host m)
  unfolding on_host within
  on_host-Down m = record { at = λ s h. record { held = h.held; closed = h.closed } }

  down_host_veth-Down : (r : SandboxRecord) → Keeps Down (down_host_veth r)
  unfolding down_host_veth run_plans
  down_host_veth-Down r = search (keeps_rules, on_host-Down) depth 20

  pause_if_running-Down : (r : SandboxRecord) → Keeps Down (pause_if_running r)
  unfolding pause_if_running
  pause_if_running-Down r = search (keeps_rules, on_host-Down) depth 20

  fence_machine-Down : (r : SandboxRecord) → Keeps Down (fence_machine r)
  unfolding fence_machine
  fence_machine-Down r = search (keeps_rules, down_host_veth-Down, pause_if_running-Down) depth 20

  -- What a fence is rejected with, which then changes no sandbox and no relay.
  abbrev pub Unchanged : WorkerCore → Thrown → Settled (Unit {0}) × WorkerCore → Type 0
  Unchanged core t (o, core') =
      (o ≡ rejected t) × (core'.sandboxes ≡ core.sandboxes) × (core'.relays ≡ core.relays)

  -- What a fence comes to, by the record of the sandbox and by what becomes of the epoch.
  abbrev pub Fences :
      Option SandboxRecord
      → Settled Accepted
      → WorkerCore
      → Settled (Unit {0}) × WorkerCore
      → Type 0
  Fences none accepted core result = Unchanged core sandbox_not_found result
  Fences (some r) (rejected t) core result = Unchanged core t result
  Fences (some r) (fulfilled _) core (o, core') = Down core'

  -- A fence of a sandbox that is there, at an epoch that is accepted, leaves it fenced at that epoch
  -- and without relays, whatever fails behind that. Where the sandbox is missing, or its epoch is
  -- refused or cannot be written, the fence is rejected with that error, and changes no sandbox and
  -- no relay.
  pub fence_sandbox-Fences :
      (core : WorkerCore)
      → Fences
          (core.sandboxes id)
          (accept id epoch (epoch_store core)).0
          core
          (fence_sandbox id epoch core)
  unfolding fence_sandbox record_of on_epochs within write_record ◌>>=◌
  fence_sandbox-Fences core = elim (Option-cases (core.sandboxes id)) [
    | inl absent ↦ rw absent (refl, refl, refl)
    | inr (r, present) ↦ elim (Settled-cases (accept id epoch (epoch_store core))) [
      | inr (t, s, e) ↦ rw (present, e) (refl, refl, refl)
      | inl (a, s, e) ↦
          let core1 = record core { epochs = s.epochs; host = s.host } in
          let core2 : WorkerCore = record core1 {
            sandboxes = λ j.
                if id === j
                then adjust (with_state_epoch fenced_state epoch) (core1.sandboxes j)
                else core1.sandboxes j;
          } in
          let (core3, stopped, same, none_left) = stop_relays_lem id core2 in
          rw (present, e, stopped)
            ((fence_machine-Down r).at core3 (record {
              held = rw (same, (eq_iff id id).1 refl, present) (refl, refl);
              closed = none_left;
            }))
    ]
  ]
