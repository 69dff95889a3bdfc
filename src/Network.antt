-- ===== src/Network.antt =====
-- packages/agent/src/runtime/network.ts. SHA-256 is a parameter: the bytes of the digest of a text.
pub mod Allocator
pub mod Relay
use Prim.Native.Char.{code}
use Prim.Native.String
use Prim.Native.String.{◌++◌}
use firemig.Prelude.{
  ℕ, ◌+◌, ◌-◌, ◌*◌, ◌/◌, ◌%◌, String, not, ◌||◌, List, ltb, leb, ◌==◌, if◌then◌else◌,
}
use firemig.Common.Errors.{plain}
use firemig.Exec.{Settled, fulfilled, rejected, reject_if}
use firemig.Platform.Decimal.{decimal}
use firemig.Platform.Paths.{is_safe_integer, ◌>>=◌, ◌>>◌}

pub record NetworkIdentity : Type 0 where
  pub netns : String
  pub host_veth : String
  pub host_address : String
  pub namespace_address : String
  pub subnet : String

abbrev hex_digit : ℕ → String
hex_digit d =
    if ltb d 10
    then decimal d
    else if d == 10
    then "a"
    else if d == 11
    then "b"
    else if d == 12
    then "c"
    else if d == 13
    then "d"
    else if d == 14
    then "e"
    else "f"

abbrev hex_byte : ℕ → String
hex_byte b = hex_digit (b / 16) ++ hex_digit (b % 16)

-- What is hashed: the texts with NUL between them.
abbrev pub hash_key : String → String → ℕ → String
hash_key worker_id sandbox_id n = worker_id ++ "\0" ++ sandbox_id ++ "\0" ++ decimal n

module _ (digest : String → ℕ → ℕ) where
  unfoldable pub derive_network_identity : String → String → ℕ → NetworkIdentity
  derive_network_identity worker_id sandbox_id attempt =
      let bytes = digest (hash_key worker_id sandbox_id attempt) in
      let name =
        hex_byte (bytes 0)
        ++ hex_byte (bytes 1)
        ++ hex_byte (bytes 2)
        ++ hex_byte (bytes 3)
        ++ hex_byte (bytes 4)
        ++ hex_digit (bytes 5 / 16) in
      let second = 64 + bytes 6 % 64 in
      let third = bytes 7 in
      let fourth = (bytes 8 % 64) * 4 in
      let prefix = "10." ++ decimal second ++ "." ++ decimal third ++ "." in
      record {
        netns = "fmn" ++ name;
        host_veth = "fmv" ++ name;
        host_address = prefix ++ decimal (fourth + 1) ++ "/30";
        namespace_address = prefix ++ decimal (fourth + 2) ++ "/30";
        subnet = prefix ++ decimal fourth ++ "/30";
      }

  unfoldable pub deterministic_host_port : ℕ → String → String → ℕ → Settled ℕ
  deterministic_host_port port_base worker_id sandbox_id guest_port = do
    reject_if (ltb port_base 1 || ltb 65535 port_base)
        (plain "portBase must be between 1 and 65535")
    reject_if (ltb guest_port 1 || ltb 65535 guest_port) (plain "Invalid guest port")
    let available = 65536 - port_base
    let bytes = digest (hash_key worker_id sandbox_id guest_port)
    let word = ((bytes 0 * 256 + bytes 1) * 256 + bytes 2) * 256 + bytes 3
    fulfilled (port_base + word % available)

-- `address.split("/", 1)[0]`
unfoldable pub address_without_prefix : String → String
address_without_prefix String.[] = String.[]
address_without_prefix (String.◌∷◌ c rest) =
    if code c == b'/' then String.[] else String.◌∷◌ c (address_without_prefix rest)
