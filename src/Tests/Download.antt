-- ===== src/Tests/Download.antt =====
-- A download of two bytes from a peer that sends them in one chunk.
use firemig.Prelude.{ℕ, refl, some, List, [], ◌∷◌, length, arith}
use firemig.Common.Types.{FilePath, ArtifactDescriptor, mem}
use firemig.Exec.{◌>>=◌}
use firemig.Platform.Host.{Host, perform}
use firemig.Artifacts.Pull.{
  pull_artifact, resume_from_partial, download_remainder, write_body, write_chunks,
  verify_or_discard, commit_artifact,
}
use firemig.Artifacts.Pull.Partial.{content_of}
use firemig.Artifacts.Pull.Verified.{Placed, pull_artifact-Placed}
use firemig.Tests.Samples.{host}

abbrev no_files : FilePath → List ℕ
no_files path = []

-- A host whose files are what its calls made them.
abbrev downloading : Host
downloading = record {
  world = record host.world {
    content = λ trace path. content_of no_files path trace;
    size = λ trace path. length (content_of no_files path trace);
    sha256 = λ bytes. "digest";
    http_status = λ trace. 200;
    http_body = λ trace. some ((7 ∷ 9 ∷ []) ∷ []);
    http_sha256 = λ trace. some "digest";
  };
  trace = [];
}

abbrev two_bytes : ArtifactDescriptor
two_bytes = record { kind = mem; name = "memory"; size = 2; sha256 = "digest" }

abbrev destination : FilePath
destination = "memory" ∷ "sb" ∷ []

abbrev pulled : Host
pulled = (pull_artifact "http://peer/memory" destination two_bytes downloading).1

pull_artifact-Placed_example :
    Placed downloading.world two_bytes
      (content_of no_files destination pulled.trace)
      (record { resumed_at = 0; bytes_written = 2 })
unfolding pull_artifact resume_from_partial download_remainder write_body write_chunks
    verify_or_discard commit_artifact perform ◌>>=◌ content_of
pull_artifact-Placed_example =
    pull_artifact-Placed no_files "http://peer/memory" "memory" ("sb" ∷ []) two_bytes downloading
      pulled (record { resumed_at = 0; bytes_written = 2 })
      (record { bytes = λ trace path. refl; sizes = λ trace path. refl }) (omega arith) refl
