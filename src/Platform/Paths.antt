-- ===== src/Platform/Paths.antt =====
-- packages/agent/src/platform/paths.ts. A path is resolved already: its segments, the last first.
pub mod Containment
use Prim.Native.Char.{code}
use Prim.Native.String
use Prim.Native.String.{◌++◌}
use firemig.Prelude.{
  ◌≡◌, refl, arith, eq_iff, ℕ, String, Bool, true, false, ◌&&◌, ◌||◌, not, List, [], ◌∷◌, leb, ◌==◌,
  ◌===◌, if◌then◌else◌,
}
use firemig.Common.Errors.{plain}
use firemig.Common.Types.{FilePath}
use firemig.Exec.{Settled, fulfilled, rejected, reject_if}
use firemig.Platform.Decimal.{decimal}

abbrev pub max_safe_integer : ℕ
max_safe_integer = 9007199254740991

abbrev pub is_safe_integer : ℕ → Bool
is_safe_integer n = leb n max_safe_integer

abbrev is_alphanumeric : ℕ → Bool
is_alphanumeric c =
    (leb b'a' c && leb c b'z') || ((leb b'A' c && leb c b'Z') || (leb b'0' c && leb c b'9'))

abbrev is_identifier_tail : String → Bool
is_identifier_tail String.[] = true
is_identifier_tail (String.◌∷◌ c rest) =
    (is_alphanumeric (code c) || (code c == b'_' || code c == b'-')) && is_identifier_tail rest

-- /^[a-zA-Z0-9][a-zA-Z0-9_-]{0,127}$/
unfoldable pub safe_identifier : String → Bool
safe_identifier String.[] = false
safe_identifier (String.◌∷◌ c rest) =
    is_alphanumeric (code c) && (is_identifier_tail rest && leb (String.count rest) 127)

unfoldable pub assert_identifier : String → Settled (Unit {0})
assert_identifier value =
    if safe_identifier value then fulfilled tt else rejected (plain "Invalid identifier")

pub record SandboxPaths : Type 0 where
  pub physical_directory : FilePath
  pub canonical_directory : FilePath
  pub api_socket : FilePath
  pub physical_rootfs : FilePath
  pub canonical_rootfs : FilePath
  pub physical_vsock : FilePath
  pub canonical_vsock : FilePath
  pub state : FilePath
  pub memory : FilePath
  pub quarantine : String → Settled FilePath

pub record PathModel : Type 0 where
  pub worker_root : FilePath
  pub canonical_root : FilePath

-- `path.dirname`.
abbrev pub dirname : FilePath → FilePath
dirname [] = []
dirname (_ ∷ up) = up

-- `path.resolve` steps over one segment.
abbrev pub resolve_part : String → FilePath → FilePath
resolve_part part base =
    if part === "" || part === "."
    then base
    else if part === ".."
    then dirname base
    else part ∷ base

abbrev pub same_path : FilePath → FilePath → Bool
same_path [] [] = true
same_path [] (_ ∷ _) = false
same_path (_ ∷ _) [] = false
same_path (a ∷ p) (b ∷ q) = a === b && same_path p q

pub same_path_refl : (path : FilePath) → same_path path path ≡ true
same_path_refl [] = refl
same_path_refl (a ∷ p) = ground (arith, eq_iff a a, same_path_refl p)

-- The text of a path.
unfoldable pub render : FilePath → String
render [] = ""
render (segment ∷ up) = render up ++ "/" ++ segment

-- The path lies strictly below the base.
abbrev pub is_under : FilePath → FilePath → Bool
is_under base [] = false
is_under base (_ ∷ up) = same_path up base || is_under base up

abbrev pub is_root : FilePath → Bool
is_root [] = true
is_root (_ ∷ _) = false

-- `path.startsWith(base + sep)`. The text of the root is "/", and no path starts with "//".
abbrev pub is_below : FilePath → FilePath → Bool
is_below base path = not (is_root base) && is_under base path

unfoldable pub resolve_all : FilePath → List String → FilePath
resolve_all base [] = base
resolve_all base (part ∷ parts) = resolve_all (resolve_part part base) parts

unfoldable pub inside_worker : PathModel → List String → Settled FilePath
unfolding resolve_all
inside_worker model parts =
    let path = resolve_all model.worker_root parts in
    if not (same_path path model.worker_root) && not (is_below model.worker_root path)
    then rejected (plain "Path escaped worker root")
    else fulfilled path

infixl 10 ◌>>=◌ ◌>>◌
abbrev pub ◌>>=◌ : {A B : Type 0} → Settled A → (A → Settled B) → Settled B
fulfilled a >>= f = f a
rejected t >>= f = rejected t

abbrev pub ◌>>◌ : {A B : Type 0} → Settled A → Settled B → Settled B
m >> n = m >>= λ _. n

unfoldable pub sandbox_paths : PathModel → String → ℕ → Settled SandboxPaths
unfolding inside_worker assert_identifier safe_identifier decimal
sandbox_paths model id generation = do
  assert_identifier id
  reject_if (not (is_safe_integer generation)) (plain "Invalid generation")
  physical ← inside_worker model ("sandboxes" ∷ id ∷ [])
  socket ← inside_worker model ("sockets" ∷ (id ++ ".socket") ∷ [])
  let canonical = id ∷ model.canonical_root
  fulfilled (record {
    physical_directory = physical;
    canonical_directory = canonical;
    api_socket = socket;
    physical_rootfs = "rootfs.ext4" ∷ physical;
    canonical_rootfs = "rootfs.ext4" ∷ canonical;
    physical_vsock = "vsock.socket" ∷ physical;
    canonical_vsock = "vsock.socket" ∷ canonical;
    state = ("snapshot-" ++ decimal generation ++ ".state") ∷ physical;
    memory = ("memory-" ++ decimal generation ++ ".mem") ∷ physical;
    quarantine = λ migration_id. do
      assert_identifier migration_id
      inside_worker model ("quarantine" ∷ migration_id ∷ id ∷ []);
  })
