-- ===== src/Artifacts/Range/Bounds.antt =====
-- The bytes that packages/agent/src/artifacts/artifact-range.ts gives for a request.
use firemig.Prelude.{
  ℕ, ◌+◌, ◌≤◌, ◌<◌, ◌≡◌, refl, String, not, ◌||◌, inl, inr, Option, none, some, arith, ◌==◌,
  Bool-cases, ◌∷◌, Option-cases,
}
use firemig.Common.Errors.{plain}
use firemig.Common.Types.{FilePath, ArtifactDescriptor}
use firemig.Exec.{Settled, fulfilled, rejected, ◌>>=◌, ◌>>◌, lift, pure, refuse}
use firemig.Platform.Host.{Host, perform, stat}
use firemig.Artifacts.Range.{
  ArtifactRange, range_error, match_range, check_range, parse_range_header, ArtifactServeResult,
  serve_range, is_negative_end, open_artifact_range,
}

-- What a range header may come to, for a file of `size` bytes.
abbrev pub InFile : ℕ → Option String → Settled (Option ArtifactRange) → Type 0
InFile size none o = o ≡ fulfilled none
InFile size (some header) (fulfilled none) = ⊥
InFile size (some header) (fulfilled (some range)) = (range.start ≤ range.end) × (range.end < size)
InFile size (some header) (rejected t) = t ≡ range_error

check_range-InFile :
    (header : String) (m : Option (ℕ × Option ℕ)) (size : ℕ)
    → InFile size (some header) (check_range m size)
unfolding check_range
check_range-InFile header none size = refl
check_range-InFile header (some (start, requested)) size = ground arith

-- A header is turned into a range that lies in the file, or refused with 416; no header is no range.
pub parse_range_header-InFile :
    (header : Option String) (size : ℕ) → InFile size header (parse_range_header header size)
unfolding parse_range_header
parse_range_header-InFile none size = refl
parse_range_header-InFile (some header) size = check_range-InFile header (match_range header) size

-- What a request may be answered with: a slice of the file that the descriptor measures, which is
-- not empty, and the whole of it without a header. A refusal has looked at the file and no more.
abbrev pub Serves :
    FilePath
    → ArtifactDescriptor
    → Option String
    → Host
    → Settled ArtifactServeResult × Host
    → Type 0
Serves path descriptor header h (rejected t, h') = h'.trace ≡ (stat path ∷ h.trace)
Serves path descriptor header h (fulfilled r, h') =
    (h'.trace ≡ (stat path ∷ h.trace))
    × (r.path ≡ path)
    × (r.start + r.content_length ≡ r.after)
    × (0 < r.content_length)
    × (r.after ≤ descriptor.size)
    × (header ≡ none → (r.status ≡ 200) × (r.content_length ≡ descriptor.size))

served :
    (path : FilePath) (descriptor : ArtifactDescriptor) (size : ℕ) (header : Option String)
    (h h' : Host) (o : Settled (Option ArtifactRange))
    → size ≡ descriptor.size
    → h'.trace ≡ (stat path ∷ h.trace)
    → InFile size header o
    → Serves path descriptor header h (
        (lift o >>= λ range.
        refuse (is_negative_end size range) (plain "ERR_OUT_OF_RANGE")
        >> pure (serve_range path descriptor size range))
          h')
unfolding serve_range ◌>>=◌
served path descriptor size none h h' o same traced within = elim (Bool-cases (size == 0)) [
  | inl empty ↦ rw (within, empty) traced
  | inr held ↦
      rw (within, held)
        (traced, refl, omega arith, ground (arith, held), omega (arith, same), λ _. (refl, same))
]
served path descriptor size (some header) h h' (fulfilled none) same traced within = absurd within
served path descriptor size (some header) h h' (fulfilled (some range)) same traced within = (
  traced,
  refl,
  omega (arith, within),
  omega arith,
  omega (arith, same, within),
  λ e. ground (arith, e),
)
served path descriptor size (some header) h h' (rejected t) same traced within = traced

-- Whatever the host answers, an artifact is served as one slice of its file within the size of its
-- descriptor, as long as its content-length says, with at least one byte, and as a whole without a
-- header; an empty artifact is never served. If it is refused, only its `stat` was called.
pub open_artifact_range-Serves :
    (path : FilePath) (descriptor : ArtifactDescriptor) (header : Option String) (h : Host)
    → Serves path descriptor header h (open_artifact_range path descriptor header h)
unfolding open_artifact_range perform ◌>>=◌
open_artifact_range-Serves path descriptor header h =
    elim (Option-cases (h.world.settles h.trace (stat path))) [
      | inr (fault, e) ↦ rw e refl
      | inl e ↦
          let h' = record h { trace = stat path ∷ h.trace } in
          let size = h.world.size h'.trace path in
          elim (Bool-cases (not (h.world.is_file h'.trace path) || not (size == descriptor.size))) [
            | inl changed ↦ rw (e, changed) refl
            | inr same ↦
                rw (e, same)
                  (served path descriptor size header h h' (parse_range_header header size)
                    (ground arith) refl (parse_range_header-InFile header size))
          ]
    ]
