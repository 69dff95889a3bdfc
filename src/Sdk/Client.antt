-- ===== src/Sdk/Client.antt =====
-- packages/sdk/src/client.ts and client/sandbox.ts, and the paths of client/migration.ts: the
-- operations of the SDK as the requests that they send.
pub mod Keys
use Prim.Native.Char.{code}
use Prim.Native.String
use Prim.Native.String.{◌++◌}
use firemig.Prelude.{
  ℕ, ◌+◌, ◌-◌, ◌/◌, ◌%◌, String, Bool, true, false, ◌&&◌, ◌||◌, Option, none, some, List, [], ◌∷◌,
  ltb, leb, ◌==◌, ◌===◌, if◌then◌else◌,
}
use firemig.Prelude.Integers.{pos}
use firemig.Common.Json.{Json, null, number, text, object, integer, Fields, end, field, member}
use firemig.Platform.Decimal.{decimal}
use firemig.Sdk.Request.{RequestOptions, Method, post_method, put_method, get_method, or_default}
use firemig.Sdk.Phoenix.Commands.{set_field}

-- `encodeURIComponent`: the UTF-8 bytes of what is not unreserved, as %XX.
abbrev hex : ℕ → String
hex d =
    if d == 10
    then "A"
    else if d == 11
    then "B"
    else if d == 12
    then "C"
    else if d == 13
    then "D"
    else if d == 14
    then "E"
    else if d == 15
    then "F"
    else decimal d

abbrev percent : ℕ → String
percent b = "%" ++ hex (b / 16) ++ hex (b % 16)

abbrev utf8 : ℕ → String
utf8 c =
    if ltb c 128
    then percent c
    else if ltb c 2048
    then percent (192 + c / 64) ++ percent (128 + c % 64)
    else if ltb c 65536
    then percent (224 + c / 4096) ++ percent (128 + c / 64 % 64) ++ percent (128 + c % 64)
    else percent (240 + c / 262144)
      ++ percent (128 + c / 4096 % 64)
      ++ percent (128 + c / 64 % 64)
      ++ percent (128 + c % 64)

abbrev within_range : ℕ → ℕ → ℕ → Bool
within_range low high c = leb low c && leb c high

abbrev is_unreserved : ℕ → Bool
is_unreserved c =
    within_range b'A' b'Z' c
    || within_range b'a' b'z' c
    || within_range b'0' b'9' c
    || c == b'-'
    || c == b'_'
    || c == b'.'
    || c == b'!'
    || c == b'~'
    || c == b'*'
    || within_range b'\'' b')' c

unfoldable pub encode_uri_component : String → String
encode_uri_component String.[] = ""
encode_uri_component (String.◌∷◌ c rest) =
    (if is_unreserved (code c) then String.◌∷◌ c "" else utf8 (code c)) ++ encode_uri_component rest

abbrev pub sandbox_path : String → String
sandbox_path id = "/v1/sandboxes/" ++ encode_uri_component id

-- `statusPath` of a migration.
abbrev pub status_path : String → String → String
status_path sandbox_id migration_id =
    sandbox_path sandbox_id ++ "/migrations/" ++ encode_uri_component migration_id

-- What `files.write` is given, with `Buffer.from(content).toString("base64")` of bytes.
pub data FileContent : Type 0 where
  written_text : String → FileContent
  written_bytes : String → FileContent

abbrev mode_field : Option ℕ → Fields
mode_field none = end
mode_field (some mode) = field "mode" (number (integer (pos mode))) end

abbrev content_field : FileContent → Fields → Fields
content_field (written_text s) rest = field "content" (text s) rest
content_field (written_bytes base64) rest = field "contentBase64" (text base64) rest

unfoldable pub file_body : String → FileContent → Option ℕ → Json
file_body path content mode =
    object (field "path" (text path) (content_field content (mode_field mode)))

-- The operations of the client, of a sandbox and of a migration that go over HTTP. The key is the
-- `idempotencyKey` of the caller's options.
pub data Operation : Type 0 where
  create_sandbox : Json → Option String → Operation
  get_sandbox : String → Operation
  refresh : String → Operation
  write_file : String → String → FileContent → Option ℕ → Option String → Operation
  expose_port : String → Json → Option String → Operation
  migrate : String → Json → Option String → Operation
  get_migration : String → String → Operation

unfoldable pub path_of : Operation → String
path_of (create_sandbox request key) = "/v1/sandboxes"
path_of (get_sandbox id) = sandbox_path id
path_of (refresh id) = sandbox_path id
path_of (write_file id path content mode key) = sandbox_path id ++ "/files"
path_of (expose_port id request key) = sandbox_path id ++ "/ports"
path_of (migrate id request key) = sandbox_path id ++ "/migrations"
path_of (get_migration id migration_id) = status_path id migration_id

abbrev pub reading : RequestOptions
reading = record {
  method = none;
  body = none;
  idempotent = none;
  idempotency_key = none;
  accept = none;
  headers = none;
}

abbrev pub mutating : Method → Json → Option String → RequestOptions
mutating method body key = record {
  method = some method;
  body = some body;
  idempotent = some true;
  idempotency_key = key;
  accept = none;
  headers = none;
}

unfoldable pub options_of : Operation → RequestOptions
unfolding file_body
options_of (create_sandbox request key) = mutating post_method request key
options_of (get_sandbox id) = reading
options_of (refresh id) = reading
options_of (write_file id path content mode key) =
    mutating put_method (file_body path content mode) key
options_of (expose_port id request key) = mutating post_method request key
options_of (migrate id request key) = mutating post_method request key
options_of (get_migration id migration_id) = reading

-- `info.bytesTransferred ?? 0` and `info.bytesTotal ?? 0` of `migrate`, whose answer is an object.
abbrev or_zero : Option Json → Json
or_zero (some null) = number (integer (pos 0))
or_zero none = number (integer (pos 0))
or_zero (some value) = value

unfoldable pub migration_info : Json → Json
migration_info (object fields) = object (
    set_field "bytesTotal" (or_zero (member "bytesTotal" (object fields)))
      (set_field "bytesTransferred" (or_zero (member "bytesTransferred" (object fields))) fields))
migration_info value = value

-- What `runCommand` hands to the command transport: the id, and whether it waits for the end.
abbrev or_false : Option Bool → Bool
or_false none = false
or_false (some b) = b

unfoldable pub command_options : String → Option String → Option Bool → String × Bool
command_options random_uuid key await_completion =
    (or_default random_uuid key, or_false await_completion)

-- `options.baseUrl.replace(/\/$/, "")`
unfoldable pub base_url_of : String → String
base_url_of String.[] = ""
base_url_of (String.◌∷◌ c rest) =
    let tail = String.◌∷◌ c (base_url_of rest) in if rest === "" && code c == b'/' then "" else tail
