-- ===== src/Tests/Quarantine.antt =====
-- A paused sandbox that is put into quarantine at its own epoch.
use firemig.Prelude.{◌≡◌, refl, some, false, [], ◌∷◌}
use firemig.Prelude.Entries.{lookup}
use firemig.Common.Types.{FilePath}
use firemig.Common.Phases.{paused}
use firemig.Exec.{fulfilled, ◌>>=◌, within, for_each}
use firemig.Planning.{network_delete_plan}
use firemig.Platform.Host.{perform}
use firemig.Platform.Epochs.{accept}
use firemig.Platform.Paths.{safe_identifier}
use firemig.Network.Allocator.{release_network, release_ports}
use firemig.Worker.Types.{WorkerCore}
use firemig.Worker.Core.{
  on_host, on_epochs, on_allocator, record_of, write_record, stop_relays, stop_processes,
  stop_known, run_plans, run_cleanup_plans,
}
use firemig.Worker.Lifecycle.{quarantine_live, quarantine_sandbox}
use firemig.Worker.Lifecycle.QuarantineOutcome.{Quarantines, quarantine_sandbox-Quarantines}
use firemig.Tests.Samples.{sandbox, loaded_worker}

abbrev before : WorkerCore
before = loaded_worker (λ m. false)

abbrev after : WorkerCore
after = (quarantine_sandbox "sb" 2 "m1" before).1

abbrev moved_to : FilePath
moved_to = "m1" ∷ "quarantine" ∷ "firemig" ∷ []

quarantine_sandbox-Quarantines_example :
    ((sandbox paused (some "m1")).paths.quarantine "m1" ≡ fulfilled moved_to)
    × Quarantines "sb" 2 (sandbox paused (some "m1")) moved_to after
unfolding lookup accept ◌>>=◌ within for_each network_delete_plan perform release_network
    release_ports on_host on_epochs on_allocator record_of write_record stop_relays stop_processes
    stop_known run_plans run_cleanup_plans quarantine_live quarantine_sandbox safe_identifier
quarantine_sandbox-Quarantines_example =
    quarantine_sandbox-Quarantines "sb" 2 "m1" (sandbox paused (some "m1")) before after moved_to
      refl refl refl
