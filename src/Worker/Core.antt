-- ===== src/Worker/Core.antt =====
-- packages/agent/src/worker/core/worker-core.ts, platform/processes.ts and the bookkeeping of
-- runtime/relay.ts. `mutable_record` is where an operation meets the epoch.
pub mod Fencing
pub mod Frame
pub mod Epochs
pub mod Resumes
pub mod Admission
use firemig.Prelude.{
  ℕ, String, Bool, true, false, not, ◌&&◌, ◌||◌, Option, none, some, List, [], ◌∷◌, ltb, ◌==◌,
  ◌===◌, any, put, delete, if◌then◌else◌,
}
use firemig.Prelude.{◌++◌ as append}
use firemig.Common.Errors.{Thrown, plain}
use firemig.Common.Phases.{SandboxState, booting, running, fenced_state, state_eq}
use firemig.Common.Types.{SandboxInfo}
use firemig.Exec.{
  Settled, fulfilled, rejected, Exec, pure, throw, gets, settle, lift, modify, done, refuse, ◌>>=◌,
  ◌>>◌, for_each, within,
}
use firemig.Platform.Host.{
  Host, Effect, run, spawn, kill, vm_paused, relay_start, relay_close, perform, call_firecracker,
}
use firemig.Platform.Paths.{PathModel}
use firemig.Platform.Epochs.{EpochStore, Accepted, accept}
use firemig.Planning.{CommandPlan, plan, network_delete_plan}
use firemig.Network.Allocator.{Allocator}
use firemig.Worker.Types.{
  SandboxRecord, SandboxProcesses, WorkerCore, sandbox_not_found, fenced_error, state_mismatch,
}

abbrev pub paths_of : WorkerCore → PathModel
paths_of core = record {
  worker_root = core.configuration.worker_root;
  canonical_root = core.configuration.canonical_root;
}

unfoldable pub on_host : {A : Type 0} → Exec Host A → Exec WorkerCore A
on_host = within (λ core. core.host) (λ core h. record core { host = h })

abbrev pub epoch_store : WorkerCore → EpochStore
epoch_store core = record {
  epochs = core.epochs;
  path = "epochs.json" ∷ core.configuration.worker_root;
  host = core.host;
}

unfoldable pub on_epochs : {A : Type 0} → Exec EpochStore A → Exec WorkerCore A
on_epochs = within epoch_store (λ core e. record core { epochs = e.epochs; host = e.host })

unfoldable pub on_allocator : {A : Type 0} → Exec Allocator A → Exec WorkerCore A
on_allocator = within (λ core. core.allocator) (λ core a. record core { allocator = a })

abbrev pub call : Effect → Exec WorkerCore (Unit {0})
call e = on_host (perform e)

abbrev is_present {ℓ} : {A : Type ℓ} → Option A → Bool
is_present none = false
is_present (some _) = true

abbrev found : Option SandboxRecord → Settled SandboxRecord
found none = rejected sandbox_not_found
found (some r) = fulfilled r

unfoldable pub record_of : String → Exec WorkerCore SandboxRecord
record_of id core = (found (core.sandboxes id), core)

-- A write to a field of a record that the map holds.
abbrev pub adjust : (SandboxRecord → SandboxRecord) → Option SandboxRecord → Option SandboxRecord
adjust f none = none
adjust f (some r) = some (f r)

unfoldable pub write_record : String → (SandboxRecord → SandboxRecord) → Exec WorkerCore (Unit {0})
write_record id f = modify (λ core. record core {
  sandboxes = λ j. if id === j then adjust f (core.sandboxes j) else core.sandboxes j;
})

abbrev pub with_state : SandboxState → SandboxRecord → SandboxRecord
with_state st r = record r { info = record (r.info) { state = st } }

abbrev pub with_state_epoch : SandboxState → ℕ → SandboxRecord → SandboxRecord
with_state_epoch st epoch r = record r { info = record (r.info) { state = st; epoch = epoch } }

-- `start` of RelayLifecycle.
unfoldable pub start_relay : String → ℕ → ℕ → String → Exec WorkerCore (Unit {0})
start_relay id guest_port host_port target = do
  relays ← gets (λ core. core.relays id)
  if any (λ r. r.0 == guest_port) relays
      then done
      else (call (relay_start host_port target guest_port) >>= λ _. modify λ core. record core {
        relays = λ j. if id === j then (guest_port, host_port) ∷ core.relays j else core.relays j;
      })

-- `stopSandbox` of RelayLifecycle: every relay is closed, and a failure to close is dropped.
unfoldable pub stop_relays : String → Exec WorkerCore (Unit {0})
stop_relays id = do
  relays ← gets (λ core. core.relays id)
  for_each (λ r. settle (call (relay_close r.1)) >>= λ _. done) relays
  modify (λ core. record core { relays = λ j. if id === j then [] else core.relays j })

unfoldable pub run_plans : List CommandPlan → Exec WorkerCore (Unit {0})
run_plans plans = for_each (λ p. call (run p)) plans

-- `launch` of ProcessLifecycle.
unfoldable pub launch : String → ℕ → CommandPlan → Exec WorkerCore ℕ
launch id mount_namespace p = do
  present ← gets (λ core. core.processes id)
  refuse (is_present present) (plain "Sandbox already has a process")
  call (spawn p)
  pid ← gets (λ core. core.host.world.pid core.host.trace)
  modify (λ core. record core {
    processes =
        put core.processes id (record { mount_namespace = mount_namespace; firecracker = pid });
  })
  pure pid

-- `stop` of ProcessLifecycle.
unfoldable pub stop_known : String → Option SandboxProcesses → Exec WorkerCore (Unit {0})
stop_known id none = done
stop_known id (some p) = do
  settle (call (kill p.firecracker))
  settle (call (kill p.mount_namespace))
  modify (λ core. record core { processes = delete core.processes id })

unfoldable pub stop_processes : String → Exec WorkerCore (Unit {0})
stop_processes id = do present ← gets (λ core. core.processes id); stop_known id present

abbrev pub is_running_process : WorkerCore → String → Bool
is_running_process core id = is_present (core.processes id)

unfoldable pub down_host_veth : SandboxRecord → Exec WorkerCore (Unit {0})
down_host_veth r = run_plans (plan "ip" ("link" ∷ "set" ∷ r.host_veth ∷ "down" ∷ []) ∷ [])

-- Best effort: a failure of one command is dropped.
unfoldable pub run_cleanup_plans : String → String → Exec WorkerCore (Unit {0})
run_cleanup_plans netns host_veth = do
  plans ← lift (network_delete_plan netns host_veth)
  for_each (λ p. settle (run_plans (p ∷ [])) >>= λ _. done) plans

abbrev is_running : SandboxRecord → Bool
is_running r = state_eq r.info.state running

-- The teardown of a sandbox whose owner was superseded; its failures are dropped.
unfoldable pub fence_quietly : SandboxRecord → String → ℕ → Exec WorkerCore (Unit {0})
fence_quietly r id epoch = do
  write_record id (with_state_epoch fenced_state epoch)
  stop_relays id
  settle (down_host_veth r)
  if is_running r
      then (settle (on_host (call_firecracker r.firecracker vm_paused)) >>= λ _. done)
      else done

abbrev pub unexpected : Option SandboxState → SandboxState → Bool
unexpected none st = false
unexpected (some expected) st = not (state_eq st expected)

-- The tests behind the accepted epoch.
unfoldable pub admit :
    SandboxRecord → String → ℕ → Option SandboxState → Accepted → Exec WorkerCore SandboxRecord
admit r id epoch expected accepted = do
  if accepted.advanced && not (state_eq r.info.state booting)
      then (fence_quietly r id epoch >>= λ _. throw fenced_error)
      else done
  refuse (state_eq r.info.state fenced_state || ltb epoch r.info.epoch) fenced_error
  refuse (unexpected expected r.info.state) state_mismatch
  pure r

unfoldable pub mutable_record : String → ℕ → Option SandboxState → Exec WorkerCore SandboxRecord
mutable_record id epoch expected = do
  r ← record_of id
  accepted ← on_epochs (accept id epoch)
  admit r id epoch expected accepted
