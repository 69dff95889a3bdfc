-- ===== src/Artifacts/Pull/Partial.antt =====
-- `resumeFromPartial` of packages/agent/src/artifacts/artifact-partial.ts: what the partial file
-- holds.
use mathlib.Core.List.{append_assoc, append-nil}
use firemig.Prelude.{
  concat, ℕ, ◌<◌, ◌≡◌, refl, sym, ap, ◌∙◌, not, ◌||◌, inl, inr, List, [], ◌∷◌, length, arith, ltb,
  if◌then◌else◌,
}
use firemig.Prelude.{◌++◌ as append}
use firemig.Common.Types.{FilePath}
use firemig.Common.Errors.{Thrown, outside, enoent, eexist, other_fault, failure, plain}
use firemig.Exec.{Exec, Settled, pure, gets, throw, ◌>>=◌, ◌>>◌}
use firemig.Exec.Keeps.{Keeps, keeps_rules}
use firemig.Exec.Returns.{Returns, Returns-bind, Returns-gets, Returns-if, Returns-catch}
use firemig.Platform.Paths.{same_path, same_path_refl}
use firemig.Platform.Host.{
  Effect, World, Host, Trace, open_file, remove, write_chunk, rename, link, stat, read_file,
  perform,
}
use firemig.Artifacts.Pull.{Resumed, nothing, missing_is_nothing, resume_from_partial}
use firemig.Artifacts.Pull.Stream.{writes}

abbrev pub called : Effect → Host → Host
called e h = record h { trace = e ∷ h.trace }

pub perform-Returns :
    (e : Effect) (h k : Host) (a : Unit {0}) → Returns (perform e) h a k → k ≡ called e h
unfolding perform
perform-Returns e h k a r = cc

pub behind_call :
    {B : Type 0} (e : Effect) (f : Unit {0} → Exec Host B) (h k : Host) (b : B)
    → Returns (perform e >>= f) h b k
    → Returns (f tt) (called e h) b k
behind_call e f h k b r =
    let (a, u, now, later) = Returns-bind (perform e) f h k b r in
    rw (sym (perform-Returns e h u a now)) later

-- The bytes of a file behind a trace: a file that is opened for writing is emptied, and a file that
-- is renamed takes its bytes along.
module _ (first : FilePath → List ℕ) where
  unfoldable pub content_of : FilePath → Trace → List ℕ
  content_of path [] = first path
  content_of path (open_file file ∷ before) =
      let held = content_of path before in if same_path file path then [] else held
  content_of path (remove file ∷ before) =
      let held = content_of path before in if same_path file path then [] else held
  content_of path (write_chunk file chunk ∷ before) =
      let held = content_of path before in if same_path file path then append held chunk else held
  content_of path (rename from to ∷ before) =
      let held = content_of path before in
      if same_path to path then content_of from before else if same_path from path then [] else held
  content_of path (link from to ∷ before) =
      let held = content_of path before in
      if same_path to path then content_of from before else held
  content_of path (_ ∷ before) = content_of path before

  -- The host's files are what the calls have made them.
  pub record Files (world : World) : Type 0 where
    pub bytes : (trace : Trace) (path : FilePath) → world.content trace path ≡ content_of path trace
    pub sizes :
        (trace : Trace) (path : FilePath) → world.size trace path ≡ length (content_of path trace)

  pub content-writes :
      (path : FilePath) (chunks : List (List ℕ)) (trace : Trace)
      → content_of path (writes path chunks trace) ≡ append (content_of path trace) (concat chunks)
  unfolding content_of
  content-writes path [] trace = sym (append-nil _)
  content-writes path (chunk ∷ rest) trace =
      content-writes path rest (write_chunk path chunk ∷ trace)
      ∙ rw (same_path_refl path) (append_assoc (content_of path trace) chunk (concat rest))

-- What was hashed is what the partial file holds, unless the download starts anew.
abbrev pub Matches : (FilePath → List ℕ) → FilePath → Resumed → Host → Type 0
Matches first path r h =
    (r.offset ≡ length r.hashed) × (0 < r.offset → content_of first path h.trace ≡ r.hashed)

-- An action on the host never changes what the host would answer.
pub perform-SameWorld : (world : World) (e : Effect) → Keeps (λ h. h.world ≡ world) (perform e)
unfolding perform
perform-SameWorld world e = record { at = λ h same. same }

missing_is_nothing_lem :
    (x : Thrown) (h k : Host) (r : Resumed)
    → Returns (missing_is_nothing x) h r k
    → (r ≡ nothing) × (k ≡ h)
unfolding pure throw
missing_is_nothing_lem (outside enoent) h k r e = (cc, cc)
missing_is_nothing_lem (outside eexist) h k r e = absurd (cc)
missing_is_nothing_lem (outside other_fault) h k r e = absurd (cc)
missing_is_nothing_lem (failure x) h k r e = absurd (cc)
missing_is_nothing_lem (plain x) h k r e = absurd (cc)

module _ (first : FilePath → List ℕ) (path : FilePath) (size : ℕ) where
  abbrev start_anew : Exec Host Resumed
  start_anew = perform (remove path) >>= λ _. pure nothing

  abbrev go_on : ℕ → Exec Host Resumed
  go_on found = perform (read_file path) >>= λ _.
      gets λ h. record { offset = found; hashed = h.world.content h.trace path }

  abbrev look : Exec Host Resumed
  look = do
    perform (stat path)
    found ← gets (λ h. h.world.size h.trace path)
    is_file ← gets (λ h. h.world.is_file h.trace path)
    if not is_file || ltb size found then start_anew else go_on found

  look-SameWorld : (world : World) → Keeps (λ h. h.world ≡ world) look
  look-SameWorld world = search (keeps_rules, perform-SameWorld) depth 20

  look-Matches :
      (h k : Host) (r : Resumed)
      → Files first h.world
      → Returns look h r k
      → (k.world ≡ h.world) × Matches first path r k
  unfolding content_of pure gets
  look-Matches h k r files returned =
      let back = Returns-gets _ _ _ k r (Returns-gets _ _ _ k r (behind_call _ _ h k r returned)) in
      let at_stat = called (stat path) h in
      let found_size = h.world.size at_stat.trace path in
      let test = not (h.world.is_file at_stat.trace path) || ltb size found_size in
      elim (Returns-if test start_anew (go_on found_size) at_stat k r back) [
        | inl (gone, removed) ↦
            let left = behind_call _ _ _ k r removed in
            let found : r ≡ nothing = cc in
            let after : k ≡ called (remove path) at_stat = cc in
            rw (found, after) (refl, (refl, λ some_bytes. absurd (omega (arith, some_bytes))))
        | inr (there, kept) ↦
            let left = behind_call _ _ _ k r kept in
            let read = called (read_file path) at_stat in
            let found : r
                ≡ record { offset = found_size; hashed = h.world.content read.trace path } =
              cc in
            let after : k ≡ read = cc in
            rw (found, after)
              (
                refl,
                (
                  files.sizes _ path ∙ ap length (sym (files.bytes read.trace path)),
                  λ some_bytes. sym (files.bytes read.trace path),
                ),
              )
      ]

  pub resume-Matches :
      (h k : Host) (r : Resumed)
      → Files first h.world
      → Returns (resume_from_partial path size) h r k
      → (k.world ≡ h.world) × Matches first path r k
  unfolding resume_from_partial
  resume-Matches h k r files returned =
      elim (Returns-catch look missing_is_nothing h k r returned) [
        | inl found ↦ look-Matches h k r files found
        | inr (x, u, thrown, handled) ↦
            let (none_found, same) = missing_is_nothing_lem x u k r handled in
            let calm : u.world ≡ h.world =
              ap (λ (o : Settled Resumed × Host). o.1.world) (sym thrown)
              ∙ (look-SameWorld h.world).at h refl in
            rw (none_found, same) (calm, (refl, λ some_bytes. absurd (omega (arith, some_bytes))))
      ]
