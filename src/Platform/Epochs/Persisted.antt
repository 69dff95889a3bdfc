-- ===== src/Platform/Epochs/Persisted.antt =====
-- `persist` of packages/agent/src/platform/epochs.ts: what it leaves in the file.
use firemig.Prelude.{
  ℕ, ◌≡◌, refl, sym, String, true, Option, none, some, List, [], ◌∷◌, if◌then◌else◌, All,
}
use firemig.Common.Types.{FilePath}
use firemig.Exec.{Exec, ◌>>=◌, within}
use firemig.Exec.Returns.{Returns, Returns-bind, Returns-finally, Returns-gets}
use firemig.Platform.Paths.{same_path, same_path_refl, is_safe_integer, dirname}
use firemig.Platform.Host.{
  Effect, Trace, write_epochs, rename, EpochText, unreadable, document, perform,
}
use firemig.Platform.Epochs.{EpochStore, on_host, persist}

-- The epochs that were last written to a file.
unfoldable pub written_to : FilePath → Trace → Option (List (String × ℕ))
written_to path [] = none
written_to path (write_epochs file epochs ∷ before) =
    let earlier = written_to path before in if same_path file path then some epochs else earlier
written_to path (_ ∷ before) = written_to path before

-- The epochs in the file that was last renamed to the path.
unfoldable pub held_by : FilePath → Trace → Option (List (String × ℕ))
held_by path [] = none
held_by path (rename from to ∷ before) =
    let earlier = held_by path before in
    if same_path to path then written_to from before else earlier
held_by path (_ ∷ before) = held_by path before

abbrev pub entries_of : List (String × ℕ) → List (String × Option ℕ)
entries_of [] = []
entries_of ((id, epoch) ∷ rest) = (id, some epoch) ∷ entries_of rest

-- What a new process reads of such a file.
abbrev pub text_of : Option (List (String × ℕ)) → EpochText
text_of none = unreadable
text_of (some epochs) = document 1 (entries_of epochs)

abbrev pub AreSafe : List (String × ℕ) → Type 0
AreSafe epochs = All (λ e. is_safe_integer e.1 ≡ true) epochs

abbrev pub called : Effect → EpochStore → EpochStore
called e s = record s { host = record s.host { trace = e ∷ s.host.trace } }

call-Returns :
    (e : Effect) (s t : EpochStore) (a : Unit {0})
    → Returns (on_host (perform e)) s a t
    → t ≡ called e s
unfolding on_host perform within
call-Returns e s t a h = cc

behind_call :
    {B : Type 0} (e : Effect) (f : Unit {0} → Exec EpochStore B) (s t : EpochStore) (b : B)
    → Returns (on_host (perform e) >>= f) s b t
    → Returns (f tt) (called e s) b t
behind_call e f s t b h =
    let (a, u, first, later) = Returns-bind (on_host (perform e)) f s t b h in
    rw (sym (call-Returns e s u a first)) later

pub persist-Returns :
    (s t : EpochStore) (a : Unit {0})
    → Returns persist s a t
    → held_by s.path t.host.trace ≡ some s.epochs
unfolding persist held_by written_to
persist-Returns s t a h =
    let h1 = behind_call _ _ _ t a (behind_call _ _ _ t a (Returns-gets _ _ s t a h)) in
    let (b, u, wrote, h2) = Returns-bind _ _ _ t a h1 in
    let (v, c, body, closed) = Returns-finally _ _ _ u b wrote in
    let synced = behind_call _ _ _ v b (Returns-gets _ _ _ v b body) in
    let (w, d, last_sync, last_close) =
      Returns-finally _ _ _ t a (behind_call _ _ _ t a (behind_call _ _ _ t a h2)) in
    rw
      (
        call-Returns _ w t d last_close,
        call-Returns _ _ w a last_sync,
        call-Returns _ v u c closed,
        call-Returns _ _ v b synced,
        same_path_refl s.path,
        same_path_refl (dirname s.path),
      )
      refl
