-- ===== src/Artifacts/Pull.antt =====
-- packages/agent/src/artifacts/transfer.ts and artifact-partial.ts: a resumable verified download.
-- A running hash is the list of the bytes that were fed to it.
pub mod Remainder
pub mod Tasks
pub mod Stream
pub mod Partial
pub mod Verified
use Prim.Native.String.{◌++◌}
use firemig.Prelude.{
  ℕ, ◌+◌, ◌-◌, String, Bool, true, false, not, ◌&&◌, ◌||◌, Option, none, some, List, [], ◌∷◌,
  length, ltb, ◌==◌, ◌===◌, if◌then◌else◌,
}
use firemig.Prelude.{◌++◌ as append}
use firemig.Common.Errors.{
  Thrown, Fault, enoent, plain, outside, firemig_error, artifact_hash_mismatch,
  transfer_interrupted,
}
use firemig.Common.Types.{FilePath, ArtifactDescriptor}
use firemig.Exec.{
  Settled, fulfilled, rejected, Exec, pure, throw, gets, settle, lift, done, refuse, ◌>>=◌, ◌>>◌,
  finally, catch,
}
use firemig.Platform.Paths.{dirname}
use firemig.Platform.Host.{
  Host, Effect, mkdir, open_file, append_file, sync_file, close_file, remove, stat, read_file,
  write_chunk, rename, http_get, perform,
}

-- The place where a download goes on, and the bytes hashed so far.
pub record Resumed : Type 0 where
  pub offset : ℕ
  pub hashed : List ℕ

abbrev pub nothing : Resumed
nothing = record { offset = 0; hashed = [] }

abbrev pub missing_is_nothing : Thrown → Exec Host Resumed
missing_is_nothing (outside enoent) = pure nothing
missing_is_nothing error = throw error

unfoldable pub resume_from_partial : FilePath → ℕ → Exec Host Resumed
resume_from_partial partial_path declared_size =
    catch
      (do
        perform (stat partial_path)
        size ← gets (λ h. h.world.size h.trace partial_path)
        is_file ← gets (λ h. h.world.is_file h.trace partial_path)
        if not is_file || ltb declared_size size
            then (perform (remove partial_path) >>= λ _. pure nothing)
            else (perform (read_file partial_path) >>= λ _.
                gets λ h. record { offset = size; hashed = h.world.content h.trace partial_path }))
      missing_is_nothing

unfoldable pub verify_or_discard : FilePath → ArtifactDescriptor → ℕ → List ℕ → Exec Host (Unit {0})
verify_or_discard partial_path descriptor received hashed = do
  digest ← gets (λ h. h.world.sha256 hashed)
  if received == descriptor.size && digest === descriptor.sha256
      then done
      else (perform (remove partial_path) >>= λ _.
          throw (firemig_error artifact_hash_mismatch true (some 422)))

unfoldable pub commit_artifact : FilePath → FilePath → Exec Host (Unit {0})
commit_artifact partial_path destination_path = do
  perform (rename partial_path destination_path)
  let directory = dirname destination_path
  perform (open_file directory)
  finally (perform (sync_file directory)) (perform (close_file directory))

-- The loop over the chunks of the body.
unfoldable pub write_chunks : FilePath → ℕ → List (List ℕ) → ℕ → List ℕ → Exec Host Resumed
write_chunks partial_path size [] offset hashed = pure (record { offset = offset; hashed = hashed })
write_chunks partial_path size (chunk ∷ rest) offset hashed =
    perform (write_chunk partial_path chunk) >>= λ _.
    refuse (ltb size (offset + length chunk))
      (plain "Artifact source sent more bytes than declared")
    >>= λ _. write_chunks partial_path size rest (offset + length chunk) (append hashed chunk)

unfoldable pub write_body :
    FilePath → ArtifactDescriptor → Resumed → List (List ℕ) → Exec Host Resumed
write_body partial_path descriptor resumed body = do
  perform (if resumed.offset == 0 then open_file partial_path else append_file partial_path)
  finally
      (do
        written ← write_chunks partial_path descriptor.size body resumed.offset resumed.hashed
        perform (sync_file partial_path)
        pure written)
      (perform (close_file partial_path))

abbrev required_status : ℕ → ℕ
required_status resumed_at = if resumed_at == 0 then 200 else 206

-- A body is there only with the status that the request asked for.
abbrev body_of : Option (List (List ℕ)) → ℕ → ℕ → Settled (List (List ℕ))
body_of none status required = rejected (firemig_error transfer_interrupted true none)
body_of (some body) status required =
    if status == required
    then fulfilled body
    else rejected (firemig_error transfer_interrupted true none)

abbrev hash_changed : Option String → String → Bool
hash_changed none expected = false
hash_changed (some remote) expected = not (remote === expected)

unfoldable pub download_remainder :
    String → FilePath → ArtifactDescriptor → Resumed → Exec Host Resumed
download_remainder url partial_path descriptor resumed = do
  perform (http_get url resumed.offset)
  status ← gets (λ h. h.world.http_status h.trace)
  answer ← gets (λ h. h.world.http_body h.trace)
  body ← lift (body_of answer status (required_status resumed.offset))
  remote ← gets (λ h. h.world.http_sha256 h.trace)
  refuse (hash_changed remote descriptor.sha256)
      (firemig_error artifact_hash_mismatch false (some 409))
  write_body partial_path descriptor resumed body

pub record Pulled : Type 0 where
  pub resumed_at : ℕ
  pub bytes_written : ℕ

-- `${destinationPath}.partial`
abbrev pub partial_of : FilePath → FilePath
partial_of [] = []
partial_of (name ∷ up) = (name ++ ".partial") ∷ up

unfoldable pub pull_artifact : String → FilePath → ArtifactDescriptor → Exec Host Pulled
pull_artifact url destination_path descriptor = do
  let partial_path = partial_of destination_path
  perform (mkdir (dirname destination_path))
  resumed ← resume_from_partial partial_path descriptor.size
  received ←
      (if ltb resumed.offset descriptor.size
        then download_remainder url partial_path descriptor resumed
        else pure resumed)
  verify_or_discard partial_path descriptor received.offset received.hashed
  commit_artifact partial_path destination_path
  pure (record { resumed_at = resumed.offset; bytes_written = received.offset - resumed.offset })

-- `runAbortableOperations`: every task settles, and the first rejection in order is thrown.
unfoldable pub run_all : {S A : Type 0} → List (Exec S A) → Exec S (List (Settled A))
run_all [] = pure []
run_all (task ∷ tasks) = do
  outcome ← settle task
  outcomes ← run_all tasks
  pure (outcome ∷ outcomes)

abbrev prepend : {A : Type 0} → A → Settled (List A) → Settled (List A)
prepend a (fulfilled rest) = fulfilled (a ∷ rest)
prepend a (rejected t) = rejected t

unfoldable pub first_failure : {A : Type 0} → List (Settled A) → Settled (List A)
first_failure [] = fulfilled []
first_failure (rejected t ∷ rest) = rejected t
first_failure (fulfilled a ∷ rest) = prepend a (first_failure rest)

unfoldable pub run_abortable_operations : {S A : Type 0} → List (Exec S A) → Exec S (List A)
run_abortable_operations tasks = do outcomes ← run_all tasks; lift (first_failure outcomes)
