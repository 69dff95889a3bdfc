-- ===== src/Worker/Files.antt =====
-- packages/agent/src/worker/snapshot/worker-files.ts: waiting for a file and for a guest, and
-- describing the files of a snapshot.
use Prim.Native.String.{◌++◌}
use firemig.Prelude.{
  ℕ, zero, suc, ◌+◌, ◌-◌, String, Bool, true, false, not, Option, none, some, List, [], ◌∷◌, leb,
  ltb, min, ◌===◌, if◌then◌else◌,
}
use firemig.Common.Errors.{Thrown, enoent, plain, outside, firemig_error, guest_agent}
use firemig.Common.Types.{ArtifactKind, state, mem, disk, ArtifactDescriptor, FilePath}
use firemig.Exec.{
  Settled, fulfilled, rejected, Exec, pure, throw, gets, settle, done, ◌>>=◌, ◌>>◌, finally,
  for_each,
}
use firemig.Platform.Decimal.{decimal}
use firemig.Platform.Paths.{dirname}
use firemig.Platform.Host.{
  Host, open_file, sync_file, close_file, stat, read_file, watch, sleep, ready, perform, call_guest,
}

abbrev pub basename : FilePath → String
basename [] = ""
basename (name ∷ _) = name

unfoldable pub describe_artifact : ArtifactKind → FilePath → Exec Host ArtifactDescriptor
describe_artifact kind path = do
  perform (stat path)
  size ← gets (λ h. h.world.size h.trace path)
  perform (read_file path)
  digest ← gets (λ h. h.world.sha256 (h.world.content h.trace path))
  pure (record { kind = kind; name = basename path; size = size; sha256 = digest })

abbrev kind_text : ArtifactKind → String
kind_text state = "state"
kind_text mem = "mem"
kind_text disk = "disk"

-- With a shared root the artifact is not hashed: a marker with its size stands for the digest.
unfoldable pub describe_shared_artifact : ArtifactKind → FilePath → Exec Host ArtifactDescriptor
describe_shared_artifact kind path = do
  perform (stat path)
  size ← gets (λ h. h.world.size h.trace path)
  pure (record {
    kind = kind;
    name = basename path;
    size = size;
    sha256 = "shared-link:" ++ kind_text kind ++ ":" ++ decimal size;
  })

unfoldable pub sync_path : FilePath → Exec Host (Unit {0})
sync_path path = do
  perform (open_file path)
  finally (perform (sync_file path)) (perform (close_file path))

-- The files of one snapshot stand in one directory.
unfoldable pub sync_snapshot_files : FilePath → List FilePath → Exec Host (Unit {0})
sync_snapshot_files directory paths = do for_each sync_path paths; sync_path directory

abbrev exists_unless_missing : Settled (Unit {0}) → Exec Host Bool
exists_unless_missing (fulfilled _) = pure true
exists_unless_missing (rejected (outside enoent)) = pure false
exists_unless_missing (rejected error) = throw error

unfoldable pub file_exists : FilePath → Exec Host Bool
file_exists path = do outcome ← settle (perform (stat path)); exists_unless_missing outcome

abbrev names_other : Option String → FilePath → Bool
names_other none path = false
names_other (some filename) path = not (filename === basename path)

-- The loop over the events of the watcher, which ends only by the timeout or the abort.
unfoldable pub observe_events : FilePath → List (Option String) → Exec Host (Unit {0})
observe_events path [] = throw (plain "Timed out waiting")
observe_events path (event ∷ rest) =
    let later = observe_events path rest in
    if names_other event path
    then later
    else (file_exists path >>= λ there. if there then done else later)

-- `observeFile`. The process's exit and the timeout are failures of the watch.
unfoldable pub wait_for_file : FilePath → Exec Host (Unit {0})
wait_for_file path = do
  early ← file_exists path
  if early then done else do
    perform (watch (dirname path))
    there ← file_exists path
    events ← gets (λ h. h.world.watch_events h.trace)
    if there then done else observe_events path events

abbrev not_ready : Thrown
not_ready = firemig_error guest_agent true (some 503)

abbrev pause_before_retry : ℕ → Exec Host (Unit {0})
pause_before_retry backoff =
    if ltb 0 backoff then (settle (perform (sleep backoff)) >>= λ _. done) else done

-- The rounds of `waitForGuest`, with the rounds that are left: a round that fails before the
-- deadline asks for a wait of at least one millisecond.
unfoldable pub wait_rounds : ℕ → FilePath → ℕ → Exec Host String
wait_rounds zero guest deadline = throw (plain "out of rounds")
wait_rounds (suc left) guest deadline = gets (λ h. h.world.now h.trace) >>= λ now.
    elim (leb deadline now) [
      | true ↦ throw not_ready
      | false ↦ settle (call_guest guest ready) >>= λ answer. elim answer [
        | fulfilled _ ↦ gets (λ h. h.world.boot_id h.trace)
        | rejected _ ↦ gets (λ h. h.world.now h.trace) >>= λ later.
            pause_before_retry (min 100 (deadline - later)) >>= λ _. wait_rounds left guest deadline
      ]
    ]

unfoldable pub wait_for_guest : FilePath → ℕ → Exec Host String
wait_for_guest guest timeout_ms = do
  start ← gets (λ h. h.world.now h.trace)
  wait_rounds (timeout_ms + 1) guest (start + timeout_ms)
