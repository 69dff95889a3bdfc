-- ===== src/Artifacts/Pull/Tasks.antt =====
-- Invariants through `runAbortableOperations` of packages/agent/src/artifacts/transfer.ts.
use firemig.Prelude.{List, [], ◌∷◌, All}
use firemig.Exec.{Exec}
use firemig.Exec.Keeps.{Keeps, Keeps-bind, Keeps-settle, Keeps-pure, Keeps-lift}
use firemig.Artifacts.Pull.{run_all, run_abortable_operations}

module _ {S A : Type 0} {P : S → Type 0} where
  run_all-Keeps : (tasks : List (Exec S A)) → All (Keeps P) tasks → Keeps P (run_all tasks)
  unfolding run_all
  run_all-Keeps [] k = Keeps-pure []
  run_all-Keeps (task ∷ tasks) (k, ks) =
      Keeps-bind _ _ (Keeps-settle k)
        λ outcome. Keeps-bind _ _ (run_all-Keeps tasks ks) λ outcomes. Keeps-pure _

  pub run_abortable_operations-Keeps :
      (tasks : List (Exec S A)) → All (Keeps P) tasks → Keeps P (run_abortable_operations tasks)
  unfolding run_abortable_operations
  run_abortable_operations-Keeps tasks ks =
      Keeps-bind _ _ (run_all-Keeps tasks ks) λ o. Keeps-lift _
