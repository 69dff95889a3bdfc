-- ===== src/Worker/Core/Fencing.antt =====
-- `mutableRecord` of packages/agent/src/worker/core/worker-core.ts, for an epoch that is behind.
use firemig.Prelude.{ℕ, ◌<◌, String, inl, inr, Option, arith, Bool-cases, Option-cases}
use firemig.Common.Errors.{plain}
use firemig.Common.Phases.{SandboxState}
use firemig.Exec.{◌>>=◌, within}
use firemig.Exec.Keeps.{Rejects}
use firemig.Platform.Paths.{is_safe_integer}
use firemig.Platform.Epochs.{epoch_of, accept}
use firemig.Worker.Types.{WorkerCore, fenced_error, sandbox_not_found}
use firemig.Worker.Core.{on_epochs, record_of, mutable_record}

-- The epoch is behind what this worker has accepted for the sandbox.
abbrev pub IsStale : WorkerCore → String → ℕ → Type 0
IsStale core id epoch = epoch < epoch_of core.epochs id

module _ (id : String) (epoch : ℕ) where
  -- An epoch that is behind is rejected, and the store is as it was: nothing is even written.
  pub accept-Rejects : Rejects (λ core. IsStale core id epoch) (on_epochs (accept id epoch))
  unfolding on_epochs within accept ◌>>=◌
  accept-Rejects = record {
    at = λ core h. elim (Bool-cases (is_safe_integer epoch)) [
      | inl safe ↦ (fenced_error, ground arith)
      | inr unsafe ↦ (plain "Invalid epoch", ground arith)
    ];
  }

  pub mutable_record-Rejects :
      (expected : Option SandboxState)
      → Rejects (λ core. IsStale core id epoch) (mutable_record id epoch expected)
  unfolding mutable_record record_of ◌>>=◌
  mutable_record-Rejects expected = record {
    at = λ core h. elim (Option-cases (core.sandboxes id)) [
      | inl missing ↦ (sandbox_not_found, rw missing)
      | inr (r, present) ↦ let (t, e) = accept-Rejects.at core h in (t, rw present (rw e))
    ];
  }
