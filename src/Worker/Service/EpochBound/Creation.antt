-- ===== src/Worker/Service/EpochBound/Creation.antt =====
-- The epochs through `create_sandbox` and the reservation of a destination.
use firemig.Prelude.{ℕ, String, arith, eq_iff, delete}
use firemig.Common.Errors.{Thrown}
use firemig.Common.Types.{FilePath}
use firemig.Exec.{Settled, fulfilled, rejected, Exec, modify}
use firemig.Exec.Keeps.{
  Keeps, keeps_rules, Keeps-bind, Keeps-gets, Keeps-settle, Keeps-catch, Keeps-refuse, Keeps-lift,
  Keeps-throw,
}
use firemig.Platform.Paths.{SandboxPaths}
use firemig.Network.{NetworkIdentity}
use firemig.Artifacts.Pull.Tasks.{run_abortable_operations-Keeps}
use firemig.Worker.Types.{SandboxRecord, WorkerCore, CreateWorkerSandboxRequest}
use firemig.Worker.Core.Frame.{
  On, frame_laws, stop_processes-On, run_cleanup_plans-On, on_allocator-On, on_host-On,
}
use firemig.Worker.Core.Epochs.{Floor, raise, accept_bind, write_same}
use firemig.Worker.Create.{
  create_sandbox, set_up, bring_up, undo_create, start_sandbox, then_bring_up, then_set_up,
}
use firemig.Worker.Create.Boot.{register_record, boot_guest, claim_physical_directory}

module _ (floor : String → ℕ) (request : CreateWorkerSandboxRequest) where
  ruleset creation_rules = (frame_laws, write_same)

  -- The epoch of the new record was accepted.
  register_record-Floor :
      (paths : SandboxPaths) (network : NetworkIdentity)
      → Keeps
          (On (Floor (raise floor request.id request.epoch)))
          (register_record request paths network)
  unfolding register_record modify
  register_record-Floor paths network = Keeps-bind _ _ (Keeps-gets _) λ core.
      Keeps-bind _ _
        (record {
          at = λ s h. record {
            holds = (
              (
                h.holds.0.0,
                λ j r there. ground (arith, h.holds.0.1 j r, h.holds.1 j, eq_iff request.id j),
              ),
              h.holds.1,
            );
          };
        })
        λ _. search keeps_rules

  forget-Floor :
      Keeps
        (On (Floor floor))
        (modify (λ core. record core { sandboxes = delete core.sandboxes request.id }))
  unfolding modify
  forget-Floor = record {
    at = λ s h. record {
      holds = (
        (h.holds.0.0, λ j r there. ground (arith, h.holds.0.1 j r, eq_iff request.id j)),
        h.holds.1,
      );
    };
  }

  undo_create-Floor :
      (paths : SandboxPaths) (network : NetworkIdentity) (stop : Exec WorkerCore (Unit {0}))
      (t : Thrown)
      → Keeps (On (Floor floor)) stop
      → Keeps (On (Floor floor)) (undo_create request paths network stop t)
  unfolding undo_create
  undo_create-Floor paths network stop t k = Keeps-bind _ _ k λ _.
      Keeps-bind _ _ (run_cleanup_plans-On _ _ _) λ _.
        Keeps-bind _ _ (on_allocator-On _ _)
          λ _. Keeps-bind _ _ (on_host-On _ _) λ _. Keeps-bind _ _ forget-Floor λ _. Keeps-throw t

  boot_guest-Floor : (r : SandboxRecord) → Keeps (On (Floor floor)) (boot_guest request r)
  unfolding boot_guest
  boot_guest-Floor r = search (frame_laws, write_same) depth 20

  claim-Floor : (path : FilePath) → Keeps (On (Floor floor)) (claim_physical_directory path)
  unfolding claim_physical_directory
  claim-Floor path = search frame_laws depth 20

  set_up-Floor :
      (paths : SandboxPaths) (network : NetworkIdentity) (pid : ℕ)
      → Keeps (On (Floor floor)) (set_up request paths network pid)
  unfolding set_up
  set_up-Floor paths network pid = search frame_laws depth 30

module _ (floor : String → ℕ) (request : CreateWorkerSandboxRequest) where
  abbrev raised : String → ℕ
  raised = raise floor request.id request.epoch

  bring_up-Floor :
      (paths : SandboxPaths) (network : NetworkIdentity)
      → Keeps (On (Floor raised)) (bring_up request paths network)
  unfolding bring_up
  bring_up-Floor paths network = Keeps-bind _ _ (on_host-On _ _) λ _.
      Keeps-bind _ _ (register_record-Floor floor request paths network)
        λ r. search (frame_laws, boot_guest-Floor raised request) depth 20

  start_sandbox-Floor :
      (paths : SandboxPaths) (network : NetworkIdentity)
      → Keeps (On (Floor raised)) (start_sandbox request paths network)
  unfolding start_sandbox
  start_sandbox-Floor paths network =
      Keeps-bind _ _ (Keeps-settle (search frame_laws depth 20)) launched
    where
      undo :
          (stop : Exec WorkerCore (Unit {0})) (t : Thrown)
          → Keeps (On (Floor raised)) stop
          → Keeps (On (Floor raised)) (undo_create request paths network stop t)
      undo = undo_create-Floor raised request paths network

      prepared :
          (pid : ℕ) (o : Settled (Unit {0}))
          → Keeps (On (Floor raised)) (then_bring_up request paths network pid o)
      prepared pid (rejected error) = undo _ error (search frame_laws depth 12)
      prepared pid (fulfilled _) =
          Keeps-catch _ _ (bring_up-Floor paths network)
            λ t. undo _ t (stop_processes-On _ request.id)

      launched : (o : Settled ℕ) → Keeps (On (Floor raised)) (then_set_up request paths network o)
      launched (rejected error) = undo _ error (search frame_laws)
      launched (fulfilled pid) =
          Keeps-bind _ _ (Keeps-settle (set_up-Floor raised request paths network pid))
            (prepared pid)

  pub create_sandbox-Floor : Keeps (On (Floor floor)) (create_sandbox request)
  unfolding create_sandbox
  create_sandbox-Floor = Keeps-bind _ _ (Keeps-gets _) λ existing.
      Keeps-bind _ _ (Keeps-refuse _ _) λ _. Keeps-bind _ _ (Keeps-lift _) λ _.
        accept_bind floor request.id request.epoch _ λ _.
          search
            (
              frame_laws,
              claim-Floor raised request,
              start_sandbox-Floor,
              run_abortable_operations-Keeps,
            )
            depth 30
