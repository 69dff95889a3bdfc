-- ===== src/Worker/Lifecycle/Teardown.antt =====
-- What the teardown of a sandbox leaves of it, in packages/agent/src/worker/core/worker-core.ts.
use firemig.Prelude.{ℕ, ◌≡◌, refl, sym, ap, ◌∙◌, String, Option, none, some, List, [], eq_iff}
use firemig.Common.Types.{FilePath}
use firemig.Common.Phases.{quarantined}
use firemig.Exec.{Settled, Exec, ◌>>=◌, settle, done, for_each, within, modify}
use firemig.Exec.Keeps.{Keeps, keeps_rules}
use firemig.Exec.Returns.{Returns, Returns-bind, Returns-gets}
use firemig.Planning.{CommandPlan}
use firemig.Platform.Host.{Host, relay_close}
use firemig.Platform.Epochs.{EpochStore}
use firemig.Network.Allocator.{Allocator}
use firemig.Worker.Types.{SandboxRecord, SandboxProcesses, WorkerCore}
use firemig.Worker.Core.{
  on_host, on_epochs, on_allocator, call, write_record, with_state_epoch, stop_relays,
  stop_processes, stop_known, run_plans, run_cleanup_plans,
}
use firemig.Worker.Core.Frame.{On, Ledger}

-- The state that an action which returned has kept.
pub kept :
    {A : Type 0} (P : WorkerCore → Type 0) (m : Exec WorkerCore A) (s t : WorkerCore) (a : A)
    → Keeps P m
    → Returns m s a t
    → P s
    → P t
kept {A = A} P m s t a k e p = rw (ap (λ (o : Settled A × WorkerCore). o.1) (sym e)) (k.at s p)

-- The record of a sandbox in quarantine.
abbrev pub quarantined_record : ℕ → FilePath → SandboxRecord → SandboxRecord
quarantined_record epoch path r = record (with_state_epoch quarantined epoch r) {
  quarantine_path = some path;
}

module _ (id : String) where
  abbrev pub Gone : WorkerCore → Type 0
  Gone core = (core.processes id ≡ none) × (core.relays id ≡ [])

  pub on_host-Gone : {A : Type 0} (m : Exec Host A) → Keeps Gone (on_host m)
  unfolding on_host within
  on_host-Gone m = record { at = λ s h. h }

  pub on_allocator-Gone : {A : Type 0} (m : Exec Allocator A) → Keeps Gone (on_allocator m)
  unfolding on_allocator within
  on_allocator-Gone m = record { at = λ s h. h }

  pub write_record-Gone : (f : SandboxRecord → SandboxRecord) → Keeps Gone (write_record id f)
  unfolding write_record modify
  write_record-Gone f = record { at = λ s h. h }

  run_plans-Gone : (plans : List CommandPlan) → Keeps Gone (run_plans plans)
  unfolding run_plans
  run_plans-Gone plans = search (keeps_rules, on_host-Gone)

  pub run_cleanup_plans-Gone : (netns veth : String) → Keeps Gone (run_cleanup_plans netns veth)
  unfolding run_cleanup_plans
  run_cleanup_plans-Gone netns veth = search (keeps_rules, run_plans-Gone) depth 12

  stop_known_lem :
      (p : Option SandboxProcesses) (s t : WorkerCore) (a : Unit {0})
      → s.processes id ≡ p
      → Returns (stop_known id p) s a t
      → t.processes id ≡ none
  unfolding stop_known ◌>>=◌
  stop_known_lem none s t a e h = let same : t ≡ s = cc in rw same e
  stop_known_lem (some p) s t a e h =
      ap (λ (o : Settled (Unit {0}) × WorkerCore). o.1.processes id) (sym h)
      ∙ rw ((eq_iff id id).1 refl) refl

  pub stop_processes_lem :
      (s t : WorkerCore) (a : Unit {0}) → Returns (stop_processes id) s a t → t.processes id ≡ none
  unfolding stop_processes
  stop_processes_lem s t a h = stop_known_lem (s.processes id) s t a refl (Returns-gets _ _ s t a h)

  abbrev Stopped : WorkerCore → Type 0
  Stopped core = core.processes id ≡ none

  on_host-Stopped : {A : Type 0} (m : Exec Host A) → Keeps Stopped (on_host m)
  unfolding on_host within
  on_host-Stopped m = record { at = λ s h. h }

  abbrev close_all : List (ℕ × ℕ) → Exec WorkerCore (Unit {0})
  close_all relays = for_each (λ r. settle (call (relay_close r.1)) >>= λ _. done) relays

  close_all-Stopped : (relays : List (ℕ × ℕ)) → Keeps Stopped (close_all relays)
  close_all-Stopped relays = search (keeps_rules, on_host-Stopped) depth 12

  pub stop_relays_lem :
      (s t : WorkerCore) (a : Unit {0}) → Stopped s → Returns (stop_relays id) s a t → Gone t
  unfolding stop_relays modify
  stop_relays_lem s t a e h =
      let (x, u, closed, last) = Returns-bind _ _ s t a (Returns-gets _ _ s t a h) in
      let stopped =
        kept Stopped (close_all (s.relays id)) s u x (close_all-Stopped (s.relays id)) closed e in
      (
        ap (λ (o : Settled (Unit {0}) × WorkerCore). o.1.processes id) (sym last) ∙ stopped,
        ap (λ (o : Settled (Unit {0}) × WorkerCore). o.1.relays id) (sym last)
            ∙ rw ((eq_iff id id).1 refl) refl,
      )

  abbrev pub Holds : SandboxRecord → Ledger → Type 0
  Holds r l = l.sandboxes id ≡ some r

  pub on_epochs-Holds :
      {A : Type 0} (r : SandboxRecord) (m : Exec EpochStore A) → Keeps (On (Holds r)) (on_epochs m)
  unfolding on_epochs within
  on_epochs-Holds r m = record { at = λ s h. record { holds = h.holds } }

  pub write_record_lem :
      (f : SandboxRecord → SandboxRecord) (r : SandboxRecord) (s t : WorkerCore) (a : Unit {0})
      → Returns (write_record id f) s a t
      → On (Holds r) s
      → On (Holds (f r)) t
  unfolding write_record modify
  write_record_lem f r s t a h held = record {
    holds =
        ap (λ (o : Settled (Unit {0}) × WorkerCore). o.1.sandboxes id) (sym h)
        ∙ rw ((eq_iff id id).1 refl, held.holds) refl;
  }
