-- ===== src/Artifacts/Pull/Verified.antt =====
-- `pullArtifact` of packages/agent/src/artifacts/transfer.ts: what the destination holds.
use firemig.Prelude.{ℕ, ◌+◌, ◌<◌, ◌≡◌, refl, sym, ap, ◌∙◌, String, List, ◌∷◌, length, arith}
use firemig.Common.Types.{FilePath, ArtifactDescriptor}
use firemig.Exec.Returns.{Returns, Returns-bind, Returns-finally, Returns-pure}
use firemig.Platform.Paths.{same_path_refl}
use firemig.Platform.Host.{World, Host, mkdir, open_file, sync_file, close_file, rename}
use firemig.Artifacts.Pull.{commit_artifact, Pulled, pull_artifact, partial_of}
use firemig.Artifacts.Pull.Partial.{
  content_of, Files, called, behind_call, perform-Returns, resume-Matches,
}
use firemig.Artifacts.Pull.Remainder.{verify_or_discard-Returns, received-Matches, same_path_up}

-- A rejected outcome is not the one that returned.
-- The directory is synced, and the file in it holds what the partial file held.
commit_artifact-Returns :
    (first : FilePath → List ℕ) (name : String) (up partial : FilePath) (h k : Host) (a : Unit {0})
    → Returns (commit_artifact partial (name ∷ up)) h a k
    → content_of first (name ∷ up) k.trace ≡ content_of first partial h.trace
unfolding commit_artifact content_of
commit_artifact-Returns first name up partial h k a returned =
    let renamed = called (rename partial (name ∷ up)) h in
    let directory = called (open_file up) renamed in
    let (u, c, synced, closed) =
      Returns-finally _ _ directory k a
        (behind_call _ _ renamed k a (behind_call _ _ h k a returned)) in
    let after : k ≡ called (close_file up) (called (sync_file up) directory) =
      perform-Returns _ u k c closed
      ∙ ap (called (close_file up)) (perform-Returns _ directory u a synced) in
    rw (after, same_path_up name up, same_path_refl (name ∷ up)) refl

-- The bytes at a destination are those of the descriptor.
abbrev pub Placed : World → ArtifactDescriptor → List ℕ → Pulled → Type 0
Placed world descriptor bytes p =
    (length bytes ≡ descriptor.size)
    × (world.sha256 bytes ≡ descriptor.sha256)
    × (p.resumed_at + p.bytes_written ≡ descriptor.size)

-- A pull that succeeds leaves at its destination a file with exactly the declared number of bytes
-- and the declared SHA-256, whether it started anew or went on with a partial file, and tells how
-- many of them it had and how many it wrote. That is for an artifact that is not empty and a file
-- system whose files are what the calls have made them.
pub pull_artifact-Placed :
    (first : FilePath → List ℕ) (url name : String) (up : FilePath)
    (descriptor : ArtifactDescriptor) (h k : Host) (p : Pulled)
    → Files first h.world
    → 0 < descriptor.size
    → Returns (pull_artifact url (name ∷ up) descriptor) h p k
    → Placed h.world descriptor (content_of first (name ∷ up) k.trace) p
unfolding pull_artifact
pull_artifact-Placed first url name up descriptor h k p files some_bytes returned =
    let partial = partial_of (name ∷ up) in
    let made = called (mkdir up) h in
    let (resumed, u, looked, h1) = Returns-bind _ _ made k p (behind_call _ _ h k p returned) in
    let (received, v, fetched, h2) = Returns-bind _ _ u k p h1 in
    let (a, w, verified, h3) = Returns-bind _ _ v k p h2 in
    let (b, x, committed, last) = Returns-bind _ _ w k p h3 in
    let (calm, m) = resume-Matches first partial descriptor.size made u resumed files looked in
    let (calm_too, grown, (count, holds)) =
      received-Matches first partial descriptor url resumed received u v m fetched in
    let (same, size, digest) =
      verify_or_discard-Returns first partial descriptor received v w a verified in
    let placed = commit_artifact-Returns first name up partial w x b committed in
    let (told, still) = Returns-pure _ x k p last in
    let held : content_of first (name ∷ up) k.trace ≡ received.hashed =
      ap (λ (y : Host). content_of first (name ∷ up) y.trace) still
      ∙ placed
      ∙ ap (λ (y : Host). content_of first partial y.trace) same
      ∙ holds (omega (arith, size, some_bytes)) in
    (
      ap length held ∙ sym count ∙ size,
      ap h.world.sha256 held
          ∙ ap (λ (y : World). y.sha256 received.hashed) (sym calm ∙ sym calm_too)
          ∙ digest,
      ap (λ (y : Pulled). y.resumed_at + y.bytes_written) told ∙ omega (arith, size, grown),
    )
