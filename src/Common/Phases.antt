-- ===== src/Common/Phases.antt =====
-- packages/common/src/protocol/phases.ts, and `isFailure` of
-- packages/sdk/src/client/migration-progress.ts.
use firemig.Prelude.{ℕ, ◌≡◌, ◌⊎◌, ◌↔◌, Bool, true, false, arith, ◌==◌}

pub data MigrationPhase : Type 0 where
  preparing reserving prestaging probing precopying pausing snapshotting : MigrationPhase
  transferring loading resuming verifying cutover cleanup completed : MigrationPhase
  rolling_back_source rolled_back failed_phase orphaned_ambiguous : MigrationPhase

pub data SandboxState : Type 0 where
  booting running paused fenced_state quarantined failed_state : SandboxState

-- `===` on states.
abbrev rank : SandboxState → ℕ
rank booting = 0
rank running = 1
rank paused = 2
rank fenced_state = 3
rank quarantined = 4
rank failed_state = 5

abbrev pub state_eq : SandboxState → SandboxState → Bool
state_eq a b = rank a == rank b

pub state_eq_iff : (a b : SandboxState) → (state_eq a b ≡ true) ↔ (a ≡ b)
state_eq_iff a b = ground arith

unfoldable pub is_terminal_phase : MigrationPhase → Bool
is_terminal_phase completed = true
is_terminal_phase rolled_back = true
is_terminal_phase failed_phase = true
is_terminal_phase orphaned_ambiguous = true
is_terminal_phase _ = false

unfoldable pub is_failure : MigrationPhase → Bool
is_failure failed_phase = true
is_failure rolled_back = true
is_failure orphaned_ambiguous = true
is_failure _ = false

-- A watcher stops at a phase exactly when it reports success or a failure there.
pub terminal_or_failure :
    (p : MigrationPhase) → (is_terminal_phase p ≡ true) ↔ ((p ≡ completed) ⊎ (is_failure p ≡ true))
unfolding is_terminal_phase is_failure
terminal_or_failure p = ground arith
