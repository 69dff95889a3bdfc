-- ===== src/Worker/Core/Frame.antt =====
-- The helpers of packages/agent/src/worker/core/worker-core.ts, and the part of the state that
-- decides who may run: the epochs, the records and the consumed snapshots.
use firemig.Prelude.{
  ℕ, ◌≡◌, sym, subst, String, Bool, Option, none, some, List, ◌===◌, if◌then◌else◌,
}
use firemig.Exec.{Exec, within, modify}
use firemig.Exec.Keeps.{
  Keeps, keeps_rules, Keeps-modify, Keeps-for_each, Keeps-settle, Keeps-bind, Keeps-done,
  Keeps-gets, Keeps-lift,
}
use firemig.Platform.Host.{Host}
use firemig.Planning.{CommandPlan}
use firemig.Network.Allocator.{Allocator}
use firemig.Worker.Types.{SandboxRecord, SandboxProcesses, WorkerCore}
use firemig.Worker.Core.{
  on_host, on_allocator, record_of, write_record, adjust, start_relay, stop_relays, run_plans,
  launch, stop_known, stop_processes, down_host_veth, run_cleanup_plans,
}

-- The part of the state that decides who may run.
pub record Ledger : Type 0 where
  pub epochs : List (String × ℕ)
  pub sandboxes : String → Option SandboxRecord
  pub consumed_snapshots : String → Bool

abbrev pub ledger : WorkerCore → Ledger
ledger core = record {
  epochs = core.epochs;
  sandboxes = core.sandboxes;
  consumed_snapshots = core.consumed_snapshots;
}

-- A statement about that part only.
pub record On (P : Ledger → Type 0) (core : WorkerCore) : Type 0 where
  pub holds : P (ledger core)

abbrev pub written : String → (SandboxRecord → SandboxRecord) → Ledger → Ledger
written id f l = record l {
  sandboxes = λ j. if id === j then adjust f (l.sandboxes j) else l.sandboxes j;
}

module _ (P : Ledger → Type 0) where
  pub on_host-On : {A : Type 0} (m : Exec Host A) → Keeps (On P) (on_host m)
  unfolding on_host within
  on_host-On m = record { at = λ s h. record { holds = h.holds } }

  pub on_allocator-On : {A : Type 0} (m : Exec Allocator A) → Keeps (On P) (on_allocator m)
  unfolding on_allocator within
  on_allocator-On m = record { at = λ s h. record { holds = h.holds } }

  pub record_of-On : (id : String) → Keeps (On P) (record_of id)
  unfolding record_of
  record_of-On id = record { at = λ s h. record { holds = h.holds } }

  pub write_record-On :
      (id : String) (f : SandboxRecord → SandboxRecord)
      → ((l : Ledger) → P l → P (written id f l))
      → Keeps (On P) (write_record id f)
  unfolding write_record
  write_record-On id f k = Keeps-modify _ (λ s h. record { holds = k (ledger s) h.holds })

  -- A change of another part of the state.
  pub modify-On :
      (f : WorkerCore → WorkerCore)
      → ((s : WorkerCore) → ledger (f s) ≡ ledger s)
      → Keeps (On P) (modify f)
  unfolding modify
  modify-On f same = record { at = λ s h. record { holds = subst P (sym (same s)) h.holds } }

  ruleset frame_rules = (keeps_rules, on_host-On, on_allocator-On, record_of-On)

  pub run_plans-On : (plans : List CommandPlan) → Keeps (On P) (run_plans plans)
  unfolding run_plans
  run_plans-On plans = search frame_rules

  pub down_host_veth-On : (r : SandboxRecord) → Keeps (On P) (down_host_veth r)
  unfolding down_host_veth
  down_host_veth-On r = run_plans-On _

  pub start_relay-On :
      (id : String) (guest_port host_port : ℕ) (target : String)
      → Keeps (On P) (start_relay id guest_port host_port target)
  unfolding start_relay
  start_relay-On id guest_port host_port target = search (frame_rules, modify-On) depth 12

  pub stop_relays-On : (id : String) → Keeps (On P) (stop_relays id)
  unfolding stop_relays
  stop_relays-On id = search (frame_rules, modify-On) depth 12

  pub launch-On : (id : String) (pid : ℕ) (p : CommandPlan) → Keeps (On P) (launch id pid p)
  unfolding launch
  launch-On id pid p = search (frame_rules, modify-On) depth 12

  pub stop_known-On : (id : String) (p : Option SandboxProcesses) → Keeps (On P) (stop_known id p)
  unfolding stop_known
  stop_known-On id none = Keeps-done
  stop_known-On id (some p) = search (frame_rules, modify-On) depth 12

  pub stop_processes-On : (id : String) → Keeps (On P) (stop_processes id)
  unfolding stop_processes
  stop_processes-On id = Keeps-bind _ _ (Keeps-gets _) (stop_known-On id)

  pub run_cleanup_plans-On : (netns veth : String) → Keeps (On P) (run_cleanup_plans netns veth)
  unfolding run_cleanup_plans
  run_cleanup_plans-On netns veth = search (frame_rules, run_plans-On) depth 12

pub ruleset frame_laws = (
  keeps_rules, on_host-On, on_allocator-On, record_of-On, modify-On, run_plans-On,
  down_host_veth-On, start_relay-On, stop_relays-On, launch-On, stop_processes-On,
  run_cleanup_plans-On,
)
