-- ===== src/Platform/Epochs.antt =====
-- packages/agent/src/platform/epochs.ts: the fencing epochs that a worker has accepted, in memory
-- and in epochs.json. `accept` is one step, since the store chains its mutations on one promise.
pub mod Persisted
pub mod Laws
pub mod Durable
use Prim.Native.String.{◌++◌}
use firemig.Prelude.{
  ℕ, String, Bool, true, false, not, ◌&&◌, Option, none, some, List, [], ◌∷◌, ltb, leb, ◌==◌,
  if◌then◌else◌,
}
use firemig.Prelude.Entries.{lookup, insert, erase}
use firemig.Common.Errors.{Fault, enoent, Thrown, plain, outside, firemig_error, fenced}
use firemig.Common.Types.{FilePath}
use firemig.Exec.{
  Exec, pure, throw, gets, modify, done, refuse, ◌>>=◌, ◌>>◌, finally, catch, within,
}
use firemig.Platform.Paths.{dirname, is_safe_integer}
use firemig.Platform.Host.{
  Host, Effect, mkdir, open_file, sync_file, close_file, read_file, write_epochs, rename, EpochText,
  unreadable, document, perform,
}

pub record EpochStore : Type 0 where
  pub epochs : List (String × ℕ)
  pub path : FilePath
  pub host : Host

abbrev value_or_zero : Option ℕ → ℕ
value_or_zero none = 0
value_or_zero (some n) = n

-- `get`: an id that was never accepted has epoch 0.
abbrev pub epoch_of : List (String × ℕ) → String → ℕ
epoch_of epochs id = value_or_zero (lookup id epochs)

unfoldable pub on_host : {A : Type 0} → Exec Host A → Exec EpochStore A
unfolding within
on_host = within (λ s. s.host) (λ s h. record s { host = h })

abbrev call : Effect → Exec EpochStore (Unit {0})
call e = on_host (perform e)

-- The name of the temporary file holds the process and the time.
abbrev temporary_name : String
temporary_name = ".epochs.tmp"

-- Write beside, sync, rename, and sync the directory.
unfoldable pub persist : Exec EpochStore (Unit {0})
persist = do
  path ← gets (λ s. s.path)
  let directory = dirname path
  call (mkdir directory)
  let temporary = temporary_name ∷ directory
  call (open_file temporary)
  finally
      (do
        epochs ← gets (λ s. s.epochs)
        call (write_epochs temporary epochs)
        call (sync_file temporary))
      (call (close_file temporary))
  call (rename temporary path)
  call (open_file directory)
  finally (call (sync_file directory)) (call (close_file directory))

pub record Accepted : Type 0 where
  pub previous : ℕ
  pub advanced : Bool

abbrev set_epoch : String → ℕ → EpochStore → EpochStore
set_epoch id n s = record s { epochs = insert id n s.epochs }

-- The rollback of a failed write: the id is dropped if it had no epoch.
abbrev pub restore : String → ℕ → EpochStore → EpochStore
restore id previous s =
    if previous == 0
    then record s { epochs = erase id s.epochs }
    else record s { epochs = insert id previous s.epochs }

-- The branch where the epoch advances.
unfoldable pub advance : String → ℕ → ℕ → Exec EpochStore (Unit {0})
advance id previous requested = do
  modify (set_epoch id requested)
  catch persist (λ error. do modify (restore id previous); throw error)

unfoldable pub accept : String → ℕ → Exec EpochStore Accepted
accept id requested = do
  refuse (not (is_safe_integer requested)) (plain "Invalid epoch")
  previous ← gets (λ s. epoch_of s.epochs id)
  refuse (ltb requested previous) (firemig_error fenced false (some 409))
  if ltb previous requested then advance id previous requested else done
  pure (record { previous = previous; advanced = ltb previous requested })

abbrev safe_epoch : Option ℕ → Bool
safe_epoch none = false
safe_epoch (some n) = is_safe_integer n

-- The loop of `load`. What was set before a bad entry stays set.
unfoldable pub load_entries : List (String × Option ℕ) → Exec EpochStore (Unit {0})
load_entries [] = done
load_entries ((id, none) ∷ rest) = throw (plain "Invalid epoch for")
load_entries ((id, some n) ∷ rest) =
    let continue = modify (set_epoch id n) >>= λ _. load_entries rest in
    if is_safe_integer n then continue else throw (plain "Invalid epoch for")

unfoldable pub load_text : EpochText → Exec EpochStore (Unit {0})
load_text unreadable = throw (plain "Invalid epoch document")
load_text (document version entries) =
    if version == 1
    then (modify (λ s. record s { epochs = [] }) >>= λ _. load_entries entries)
    else throw (plain "Invalid epoch document")

-- Only a missing file is no error.
unfoldable pub ignore_missing : Thrown → Exec EpochStore (Unit {0})
ignore_missing (outside enoent) = done
ignore_missing error = throw error

unfoldable pub load : Exec EpochStore (Unit {0})
load =
    catch
      (do
        path ← gets (λ s. s.path)
        call (read_file path)
        text ← gets (λ s. s.host.world.epoch_text s.host.trace)
        load_text text)
      ignore_missing
