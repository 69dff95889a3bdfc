-- ===== src/Tests/Restart.antt =====
-- A worker that is started anew, behind an epoch that it had accepted.
use firemig.Prelude.{◌≡◌, refl, String, true, some, [], ◌∷◌, ◌===◌, if◌then◌else◌}
use firemig.Prelude.Entries.{lookup, insert}
use firemig.Exec.{fulfilled, ◌>>=◌, within}
use firemig.Platform.Host.{document, perform}
use firemig.Platform.Epochs.{EpochStore, epoch_of, accept, advance, persist, on_host, load}
use firemig.Platform.Epochs.Durable.{Restarted, accept_survives}
use firemig.Platform.Epochs.Persisted.{held_by, written_to}
use firemig.Tests.Samples.{host}

abbrev store : EpochStore
store = record { epochs = ("sb", 2) ∷ []; path = "epochs.json" ∷ "firemig" ∷ []; host = host }

-- A new process finds what the accepted request has written.
abbrev reread : EpochStore
reread = record store {
  epochs = [];
  host = record {
    world = record host.world { epoch_text = λ trace. document 1 (("sb", some 3) ∷ []) };
    trace = [];
  };
}

abbrev reread-Restarted : Restarted store.path (accept "sb" 3 store).1.host.trace reread
unfolding lookup accept ◌>>=◌ advance persist held_by written_to on_host perform within insert
reread-Restarted = record { same_file = refl; is_read = refl; text = refl }

accept_survives_example :
    ((load reread).0 ≡ fulfilled tt)
    × ((j : String)
        → epoch_of (load reread).1.epochs j ≡ (if "sb" === j then 3 else epoch_of store.epochs j))
unfolding lookup accept ◌>>=◌ advance persist on_host perform within insert
accept_survives_example =
    accept_survives "sb" 3 store (accept "sb" 3 store).1 reread
      (record { previous = 2; advanced = true }) (refl, tt) (refl, tt) refl refl reread-Restarted
