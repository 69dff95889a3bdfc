-- ===== src/Artifacts/Pull/Remainder.antt =====
-- `downloadRemainder` and `verifyOrDiscard` of packages/agent/src/artifacts: what the partial file
-- holds behind them.
use firemig.Prelude.{
  concat, ℕ, ◌≤◌, ◌≡◌, refl, sym, ap, ◌∙◌, String, true, false, ◌&&◌, inl, inr, List, [], ◌∷◌,
  length, length-append, arith, eq_iff, ◌==◌, ==_iff, ◌===◌, ltb, if◌then◌else◌, Bool-cases, subst,
  some,
}
use firemig.Prelude.{◌++◌ as append}
use firemig.Common.Types.{FilePath, ArtifactDescriptor}
use firemig.Common.Errors.{firemig_error, artifact_hash_mismatch}
use firemig.Exec.{Exec, Settled, pure, throw, done, ◌>>=◌}
use firemig.Exec.Keeps.{Outcome, Keeps, Keeps-bind, Keeps-pure, Keeps-refuse}
use firemig.Exec.Returns.{
  Returns, Returns-bind, Returns-finally, Returns-gets, Returns-if, Returns-refuse, Returns-lift,
}
use firemig.Platform.Paths.{same_path, same_path_refl}
use firemig.Platform.Host.{
  World, Host, open_file, append_file, sync_file, close_file, remove, http_get, perform,
}
use firemig.Artifacts.Pull.{
  Resumed, write_body, download_remainder, verify_or_discard, write_chunks,
}
use firemig.Artifacts.Pull.Stream.{Streamed, write_chunks-Streamed}
use firemig.Artifacts.Pull.Partial.{
  content_of, called, behind_call, perform-Returns, content-writes, Matches, perform-SameWorld,
}

returned_of :
    {S A : Type 0} (Q : A → S → Type 0) (m : Exec S A) (s t : S) (a : A)
    → Returns m s a t
    → Outcome Q (λ _. Unit {0}) (m s)
    → Q a t
returned_of Q m s t a h q = rw h at q

no_bytes : (bytes : List ℕ) → length bytes ≡ 0 → bytes ≡ []
no_bytes [] h = refl
no_bytes (b ∷ rest) h = absurd (omega (arith, h))

write_chunks-SameWorld :
    (world : World) (path : FilePath) (size : ℕ) (chunks : List (List ℕ)) (offset : ℕ)
    (hashed : List ℕ)
    → Keeps (λ h. h.world ≡ world) (write_chunks path size chunks offset hashed)
unfolding write_chunks
write_chunks-SameWorld world path size [] offset hashed = Keeps-pure _
write_chunks-SameWorld world path size (chunk ∷ rest) offset hashed =
    Keeps-bind _ _ (perform-SameWorld world _)
      λ _. Keeps-bind _ _ (Keeps-refuse _ _) λ _. write_chunks-SameWorld world path size rest _ _

write_chunks-Returns :
    (path : FilePath) (size : ℕ) (body : List (List ℕ)) (before r : Resumed) (h k : Host)
    → Returns (write_chunks path size body before.offset before.hashed) h r k
    → Streamed path size body before.offset before.hashed h r k × (k.world ≡ h.world)
write_chunks-Returns path size body before r h k returned = (
  returned_of (Streamed path size body before.offset before.hashed h)
      (write_chunks path size body before.offset before.hashed) h k r returned
      (write_chunks-Streamed path size body before.offset before.hashed h),
  ap (λ (o : Settled Resumed × Host). o.1.world) (sym returned)
      ∙ (write_chunks-SameWorld h.world path size body before.offset before.hashed).at h refl,
)

module _ (first : FilePath → List ℕ) (path : FilePath) (descriptor : ArtifactDescriptor) where
  -- The partial file is emptied or gone on with, and holds what was hashed so far.
  opened_content :
      (r : Resumed) (h : Host)
      → Matches first path r h
      → content_of first path
          ((if r.offset == 0 then open_file path else append_file path) ∷ h.trace)
        ≡ r.hashed
  unfolding content_of
  opened_content r h (count, holds) = elim (Bool-cases (r.offset == 0)) [
    | inl zero_bytes ↦
        let size_zero : length r.hashed ≡ 0 =
          ground (arith, count, zero_bytes, ==_iff r.offset 0) in
        rw (zero_bytes, same_path_refl path) (sym (no_bytes r.hashed size_zero))
    | inr some_bytes ↦ rw some_bytes (holds (ground (arith, some_bytes, ==_iff r.offset 0)))
  ]

  write_body-Matches :
      (resumed r : Resumed) (body : List (List ℕ)) (h k : Host)
      → Matches first path resumed h
      → Returns (write_body path descriptor resumed body) h r k
      → (k.world ≡ h.world)
        × (resumed.offset ≤ r.offset)
        × (r.offset ≡ length r.hashed)
        × (content_of first path k.trace ≡ r.hashed)
  unfolding write_body content_of pure
  write_body-Matches resumed r body h k m returned =
      let (u, c, wrote, closed) = Returns-finally _ _ _ k r (behind_call _ _ h k r returned) in
      let (received, v, streamed, later) = Returns-bind _ _ _ u r wrote in
      let opened = called (if resumed.offset == 0 then open_file path else append_file path) h in
      let ((count, fed, bound, traced), calm) =
        write_chunks-Returns path descriptor.size body resumed received opened v streamed in
      let synced = behind_call _ _ v u r later in
      let same : r ≡ received = cc in
      let last : u ≡ called (sync_file path) v = cc in
      let size : received.offset ≡ length received.hashed =
        count
        ∙ omega (arith, m.0, length-append resumed.hashed (concat body))
        ∙ ap length (sym fed) in
      let content : content_of first path v.trace ≡ received.hashed =
        ap (content_of first path) traced
        ∙ content-writes first path body opened.trace
        ∙ ap (λ held. append held (concat body)) (opened_content resumed h m)
        ∙ sym fed in
      let after : k ≡ called (close_file path) (called (sync_file path) v) =
        perform-Returns _ u k c closed ∙ ap (called (close_file path)) last in
      rw (same, after) (calm, omega (arith, count), size, content)

  download_remainder-Matches :
      (url : String) (resumed r : Resumed) (h k : Host)
      → Matches first path resumed h
      → Returns (download_remainder url path descriptor resumed) h r k
      → (k.world ≡ h.world)
        × (resumed.offset ≤ r.offset)
        × (r.offset ≡ length r.hashed)
        × (content_of first path k.trace ≡ r.hashed)
  unfolding download_remainder content_of
  download_remainder-Matches url resumed r h k m returned =
      let asked = called (http_get url resumed.offset) h in
      let answered =
        Returns-gets _ _ _ k r (Returns-gets _ _ _ k r (behind_call _ _ h k r returned)) in
      let (body, u, lifted, later) = Returns-bind _ _ asked k r answered in
      let (_, same) = Returns-lift _ asked u body lifted in
      let (agreed, written) = Returns-refuse _ _ _ u k r (Returns-gets _ _ u k r later) in
      write_body-Matches resumed r body asked k m
        (subst (λ v. Returns (write_body path descriptor resumed body) v r k) same written)

  pub verify_or_discard-Returns :
      (r : Resumed) (h k : Host) (a : Unit {0})
      → Returns (verify_or_discard path descriptor r.offset r.hashed) h a k
      → (k ≡ h) × (r.offset ≡ descriptor.size) × (h.world.sha256 r.hashed ≡ descriptor.sha256)
  unfolding verify_or_discard done throw
  verify_or_discard-Returns r h k a returned =
      let test = r.offset == descriptor.size && h.world.sha256 r.hashed === descriptor.sha256 in
      let discard = perform (remove path) >>= λ _.
      throw {A = Unit {0}} (firemig_error artifact_hash_mismatch true (some 422)) in
      elim (Returns-if test done discard h k a (Returns-gets _ _ h k a returned)) [
        | inl (fits, left) ↦ (
          cc,
          ground (arith, fits, ==_iff r.offset descriptor.size),
          ground (arith, fits, eq_iff (h.world.sha256 r.hashed) descriptor.sha256),
        )
        | inr (differs, dropped) ↦ let thrown = behind_call _ _ h k a dropped in absurd (cc)
      ]

  -- What is downloaded, or was there in full.
  pub received-Matches :
      (url : String) (resumed r : Resumed) (h k : Host)
      → Matches first path resumed h
      → Returns
          (if ltb resumed.offset descriptor.size
            then download_remainder url path descriptor resumed
            else pure resumed)
          h
          r
          k
      → (k.world ≡ h.world) × (resumed.offset ≤ r.offset) × Matches first path r k
  unfolding pure
  received-Matches url resumed r h k m returned =
      let download = download_remainder url path descriptor resumed in
      elim (Returns-if (ltb resumed.offset descriptor.size) download (pure resumed) h k r
        returned) [
          | inl (short, fetched) ↦
              let (calm, grown, count, holds) =
                download_remainder-Matches url resumed r h k m fetched in
              (calm, grown, (count, λ some_bytes. holds))
          | inr (whole, left) ↦
              let same : r ≡ resumed = cc in
              let still : k ≡ h = cc in rw (same, still) (refl, omega arith, m)
        ]

pub same_path_up : (name : String) (up : FilePath) → same_path up (name ∷ up) ≡ false
same_path_up name [] = refl
same_path_up name (a ∷ rest) = ground (arith, same_path_up a rest)
