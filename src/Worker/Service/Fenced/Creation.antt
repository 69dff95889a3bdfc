-- ===== src/Worker/Service/Fenced/Creation.antt =====
-- A fenced sandbox through the creation of sandboxes.
use firemig.Prelude.{
  ℕ, ◌≡◌, ◌≢◌, String, inl, inr, arith, eq_iff, ◌===◌, delete, Bool-cases, Option-cases,
}
use firemig.Common.Errors.{Thrown}
use firemig.Exec.{Settled, fulfilled, rejected, Exec, modify, ◌>>=◌}
use firemig.Exec.Keeps.{keeps_rules, Keeps-bind, Keeps-gets, Keeps-settle, Keeps-catch, Keeps-throw}
use firemig.Platform.Paths.{SandboxPaths}
use firemig.Network.{NetworkIdentity}
use firemig.Worker.Types.{SandboxRecord, WorkerCore, CreateWorkerSandboxRequest}
use firemig.Worker.Core.Frame.{stop_processes-On, on_allocator-On, on_host-On, run_cleanup_plans-On}
use firemig.Worker.Create.{
  create_sandbox, set_up, bring_up, undo_create, start_sandbox, then_bring_up, then_set_up,
}
use firemig.Worker.Create.Boot.{register_record, boot_guest, claim_physical_directory}
use firemig.Worker.Service.Fenced.Rules.{KeepsFenced}
use firemig.Worker.Service.Fenced.Operations.{rules}

module _ (id : String) (request : CreateWorkerSandboxRequest) (other : request.id ≢ id) where
  register_record-Fenced :
      (paths : SandboxPaths) (network : NetworkIdentity)
      → KeepsFenced id (register_record request paths network)
  unfolding register_record modify
  register_record-Fenced paths network = Keeps-bind _ _ (Keeps-gets _) λ core.
      Keeps-bind _ _
        (record {
          at = λ s h. record {
            holds = elim (Bool-cases (request.id === id)) [
              | inl same ↦ absurd (other (ground (arith, eq_iff request.id id, same)))
              | inr apart ↦ rw apart h.holds
            ];
          };
        })
        λ _. search keeps_rules

  forget-Fenced :
      KeepsFenced id (modify (λ core. record core { sandboxes = delete core.sandboxes request.id }))
  unfolding modify
  forget-Fenced = record {
    at = λ s h. record {
      holds = elim (Bool-cases (request.id === id)) [
        | inl same ↦ absurd (other (ground (arith, eq_iff request.id id, same)))
        | inr apart ↦ rw apart h.holds
      ];
    };
  }

  undo_create-Fenced :
      (paths : SandboxPaths) (network : NetworkIdentity) (stop : Exec WorkerCore (Unit {0}))
      (t : Thrown)
      → KeepsFenced id stop
      → KeepsFenced id (undo_create request paths network stop t)
  unfolding undo_create
  undo_create-Fenced paths network stop t k = Keeps-bind _ _ k λ _.
      Keeps-bind _ _ (run_cleanup_plans-On _ _ _) λ _.
        Keeps-bind _ _ (on_allocator-On _ _)
          λ _. Keeps-bind _ _ (on_host-On _ _) λ _. Keeps-bind _ _ forget-Fenced λ _. Keeps-throw t

  boot_guest-Fenced : (r : SandboxRecord) → KeepsFenced id (boot_guest request r)
  unfolding boot_guest
  boot_guest-Fenced r = search rules depth 20

  bring_up-Fenced :
      (paths : SandboxPaths) (network : NetworkIdentity)
      → KeepsFenced id (bring_up request paths network)
  unfolding bring_up
  bring_up-Fenced paths network = Keeps-bind _ _ (on_host-On _ _) λ _.
      Keeps-bind _ _ (register_record-Fenced paths network)
        λ r. search (rules, boot_guest-Fenced) depth 20

  set_up-Fenced :
      (paths : SandboxPaths) (network : NetworkIdentity) (pid : ℕ)
      → KeepsFenced id (set_up request paths network pid)
  unfolding set_up
  set_up-Fenced paths network pid = search rules depth 30

  start_sandbox-Fenced :
      (paths : SandboxPaths) (network : NetworkIdentity)
      → KeepsFenced id (start_sandbox request paths network)
  unfolding start_sandbox
  start_sandbox-Fenced paths network =
      Keeps-bind _ _ (Keeps-settle (search rules depth 20)) launched
    where
      prepared :
          (pid : ℕ) (o : Settled (Unit {0}))
          → KeepsFenced id (then_bring_up request paths network pid o)
      prepared pid (rejected error) =
          undo_create-Fenced paths network _ error (search rules depth 12)
      prepared pid (fulfilled _) =
          Keeps-catch _ _ (bring_up-Fenced paths network)
            λ t. undo_create-Fenced paths network _ t (stop_processes-On _ request.id)

      launched : (o : Settled ℕ) → KeepsFenced id (then_set_up request paths network o)
      launched (rejected error) = undo_create-Fenced paths network _ error (search rules)
      launched (fulfilled pid) =
          Keeps-bind _ _ (Keeps-settle (set_up-Fenced paths network pid)) (prepared pid)

  create_other : KeepsFenced id (create_sandbox request)
  unfolding create_sandbox claim_physical_directory
  create_other = search (rules, start_sandbox-Fenced) depth 40

-- The creation of a sandbox that is there is refused.
create_own :
    (id : String) (request : CreateWorkerSandboxRequest)
    → request.id ≡ id
    → KeepsFenced id (create_sandbox request)
unfolding create_sandbox ◌>>=◌
create_own id request same = record {
  at = λ core h. elim (Option-cases (core.sandboxes id)) [
    | inl absent ↦ absurd (rw absent at h.holds)
    | inr (r, present) ↦ rw (same, present) h
  ];
}

pub create_sandbox-Fenced :
    (id : String) (request : CreateWorkerSandboxRequest) → KeepsFenced id (create_sandbox request)
create_sandbox-Fenced id request = elim (Bool-cases (request.id === id)) [
  | inl same ↦ create_own id request (ground (arith, eq_iff request.id id, same))
  | inr apart ↦ create_other id request (ground (arith, eq_iff request.id id, apart))
]
