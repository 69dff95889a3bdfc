-- ===== src/Server/Requests.antt =====
-- packages/agent/src/server/server-requests.ts: what a route reads from its request.
pub mod EpochHeader
use firemig.Prelude.{
  ℕ, ◌+◌, ◌-◌, ◌*◌, String, Bool, true, false, not, ◌&&◌, ◌||◌, Option, none, some, leb, ◌===◌,
  if◌then◌else◌,
}
use firemig.Prelude.Integers.{ℤ, pos, negsuc}
use firemig.Common.Errors.{Thrown, firemig_error, bad_request}
use firemig.Common.Json.{Json, null, text, number, array, object, integer, member}
use firemig.Exec.{Settled, fulfilled, rejected, reject_if}
use firemig.Platform.Decimal.{value, all_digits}
use firemig.Platform.Paths.{is_safe_integer}
use firemig.Worker.Types.{Stage, reserve, prestage, PreparedSandbox, PrepareMigrationRequest}

abbrev pub bad_request_error : Thrown
bad_request_error = firemig_error bad_request false (some 400)

-- `epoch(request)`: a number above the safe integers is rounded to one that is not safe either.
unfoldable pub epoch_of_header : Option String → Settled ℕ
unfolding all_digits value
epoch_of_header none = rejected bad_request_error
epoch_of_header (some header) =
    if not (header === "") && all_digits header && is_safe_integer (value 0 header)
    then fulfilled (value 0 header)
    else rejected bad_request_error

infixl 5 ◌>>=◌ ◌>>◌
abbrev ◌>>=◌ : {A B : Type 0} → Settled A → (A → Settled B) → Settled B
fulfilled a >>= f = f a
rejected t >>= f = rejected t

abbrev ◌>>◌ : {B : Type 0} → Settled (Unit {0}) → Settled B → Settled B
m >> k = m >>= λ _. k

unfoldable pub required_string : Option Json → Settled String
required_string (some (text s)) = if s === "" then rejected bad_request_error else fulfilled s
required_string _ = rejected bad_request_error

-- The worker's numbers are natural in the model, so a negative one is taken for none.
unfoldable pub required_integer : Option Json → Settled ℕ
required_integer (some (number (integer (pos n)))) =
    if is_safe_integer n then fulfilled n else rejected bad_request_error
required_integer _ = rejected bad_request_error

-- `a ?? b`
abbrev or_else : Option Json → Option Json → Option Json
or_else none other = other
or_else (some null) other = other
or_else (some value) other = some value

abbrev is_object : Option Json → Bool
is_object (some (object fields)) = true
is_object (some (array items)) = true
is_object _ = false

abbrev value_or_null : Option Json → Json
value_or_null none = null
value_or_null (some value) = value

abbrev stage_of : Option Json → Settled Stage
stage_of (some (text s)) =
    if s === "reserve"
    then fulfilled reserve
    else if s === "prestage"
    then fulfilled prestage
    else rejected bad_request_error
stage_of _ = rejected bad_request_error

abbrev optional_string : Option Json → Settled (Option String)
optional_string none = fulfilled none
optional_string (some null) = fulfilled none
optional_string (some value) = required_string (some value) >>= λ s. fulfilled (some s)

unfoldable pub normalize_prepare_request : String → String → Json → Settled PrepareMigrationRequest
unfolding required_string required_integer
normalize_prepare_request id migration_id body = do
  reject_if (not (is_object (member "sandbox" body))) bad_request_error
  let values = value_or_null (member "sandbox" body)
  stage ← stage_of (member "stage" body)
  cpu ← required_integer (member "cpu" values)
  memory_mb ← required_integer (or_else (member "memoryMb" values) (member "memory_mb" values))
  body_migration_id ← required_string (
      or_else (or_else (member "migrationId" body) (member "migration_id" body))
        (some (text migration_id)))
  reject_if (not (body_migration_id === migration_id)) bad_request_error
  source ← required_string (member "source" body)
  destination ← required_string (member "destination" body)
  sandbox_id ← required_string (or_else (member "id" values) (some (text id)))
  boot_id ← optional_string (or_else (member "bootId" values) (member "boot_id" values))
  fulfilled (record {
    migration_id = body_migration_id;
    stage = stage;
    source = source;
    destination = destination;
    sandbox = record { id = sandbox_id; cpu = cpu; memory_mb = memory_mb; boot_id = boot_id };
  })

-- `migrationId(body)` of routes-migration.ts.
unfoldable pub migration_id_of : Json → Settled String
unfolding required_string
migration_id_of body =
    required_string (or_else (member "migrationId" body) (member "migration_id" body))
