-- ===== src/Artifacts/Pull/Stream.antt =====
-- The loop that writes the body of a download, `writeBody` of packages/agent/src/artifacts/transfer.ts.
use mathlib.Core.List.{append_assoc, append-nil}
use firemig.Prelude.{
  ℕ, ◌+◌, ◌≤◌, ◌≡◌, refl, sym, ◌∙◌, false, inl, inr, List, [], ◌∷◌, length, concat, length-append,
  arith, ltb, Bool-cases, Option-cases,
}
use firemig.Prelude.{◌++◌ as append}
use firemig.Common.Types.{FilePath}
use firemig.Exec.{Settled, fulfilled, rejected, ◌>>=◌}
use firemig.Exec.Keeps.{Outcome}
use firemig.Platform.Host.{Host, Trace, write_chunk, perform}
use firemig.Artifacts.Pull.{Resumed, write_chunks}

-- The calls that write the chunks, behind an earlier trace.
abbrev pub writes : FilePath → List (List ℕ) → Trace → Trace
writes path [] t = t
writes path (chunk ∷ rest) t = writes path rest (write_chunk path chunk ∷ t)

-- What holds of a body that was written whole.
abbrev pub Streamed : FilePath → ℕ → List (List ℕ) → ℕ → List ℕ → Host → Resumed → Host → Type 0
Streamed path size chunks offset hashed h r h' =
    (r.offset ≡ offset + length (concat chunks))
    × (r.hashed ≡ append hashed (concat chunks))
    × (offset ≤ size → r.offset ≤ size)
    × (h'.trace ≡ writes path chunks h.trace)

-- A body that is written whole is fed to the hash byte by byte in order, is counted in full, stays
-- within the declared size, and is written to the partial file chunk by chunk and nowhere else.
pub write_chunks-Streamed :
    (path : FilePath) (size : ℕ) (chunks : List (List ℕ)) (offset : ℕ) (hashed : List ℕ) (h : Host)
    → Outcome
        (Streamed path size chunks offset hashed h)
        (λ _. Unit {0})
        (write_chunks path size chunks offset hashed h)
unfolding write_chunks perform ◌>>=◌
write_chunks-Streamed path size [] offset hashed h =
    (omega arith, sym (append-nil hashed), λ fits. fits, refl)
write_chunks-Streamed path size (chunk ∷ rest) offset hashed h =
    let h1 = record h { trace = write_chunk path chunk ∷ h.trace } in
    elim (Option-cases (h.world.settles h.trace (write_chunk path chunk))) [
      | inr (fault, e) ↦ rw e tt
      | inl e ↦ elim (Bool-cases (ltb size (offset + length chunk))) [
        | inl over ↦ rw (e, over) tt
        | inr fits ↦
            rw (e, fits)
              (finish fits
                (write_chunks path size rest (offset + length chunk) (append hashed chunk) h1)
                (write_chunks-Streamed path size rest (offset + length chunk) (append hashed chunk)
                  h1))
      ]
    ]
  where
    finish :
        ltb size (offset + length chunk) ≡ false
        → (o : Settled Resumed × Host)
        → Outcome
            (Streamed path size rest
              (offset + length chunk)
              (append hashed chunk)
              (record h { trace = write_chunk path chunk ∷ h.trace }))
            (λ _. Unit {0})
            o
        → Outcome (Streamed path size (chunk ∷ rest) offset hashed h) (λ _. Unit {0}) o
    finish fits (rejected t, h') s = tt
    finish fits (fulfilled r, h') (count, fed, bound, traced) = (
      omega (arith, count, length-append chunk (concat rest)),
      fed ∙ append_assoc hashed chunk (concat rest),
      λ _. bound (ground (arith, fits)),
      traced,
    )
