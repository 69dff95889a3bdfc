-- ===== src/Artifacts/Compatibility.antt =====
-- packages/agent/src/artifacts/manifest.ts: whether a host can restore a snapshot.
pub mod Equality
use Prim.Native.String.{◌++◌}
use firemig.Prelude.{String, Bool, true, false, List, [], ◌∷◌, some, ◌===◌, if◌then◌else◌}
use firemig.Common.Errors.{firemig_error, snapshot_consumed, incompatible_destination}
use firemig.Common.Types.{CompatibilityManifest, HugePages, no_huge_pages, huge_2m}
use firemig.Exec.{Settled, fulfilled, rejected, reject_if}
use firemig.Platform.Paths.{◌>>=◌, ◌>>◌}

pub record HostCompatibility : Type 0 where
  pub firecracker_version : String
  pub firecracker_digest : String
  pub snapshot_format_version : String
  pub host_kernel_version : String
  pub architecture : String
  pub cpu_vendor : String
  pub cpu_model : String
  pub cpu_family : String
  pub cpu_stepping : String
  pub guest_kernel_digest : String
  pub cpu_template : String
  pub smt : Bool
  pub huge_pages : HugePages

-- The values are compared by the texts that `String(…)` gives them.
abbrev pub smt_text : Bool → String
smt_text true = "true"
smt_text false = "false"

abbrev pub huge_pages_text : HugePages → String
huge_pages_text no_huge_pages = "None"
huge_pages_text huge_2m = "2M"

pub record Check : Type 0 where
  pub name : String
  pub source : String
  pub destination : String

abbrev check : String → String → String → Check
check name source destination = record { name = name; source = source; destination = destination }

unfoldable pub checks : CompatibilityManifest → HostCompatibility → List Check
checks manifest host =
    check "Firecracker version" manifest.firecracker_version host.firecracker_version
    ∷ check "Firecracker digest" manifest.firecracker_digest host.firecracker_digest
    ∷ check "snapshot format" manifest.snapshot_format_version host.snapshot_format_version
    ∷ check "host kernel" manifest.host_kernel_version host.host_kernel_version
    ∷ check "CPU architecture" manifest.cpu.architecture host.architecture
    ∷ check "CPU vendor" manifest.cpu.vendor host.cpu_vendor
    ∷ check "CPU model" manifest.cpu.model host.cpu_model
    ∷ check "CPU family" manifest.cpu.family host.cpu_family
    ∷ check "CPU stepping" manifest.cpu.stepping host.cpu_stepping
    ∷ check "guest kernel" manifest.guest_kernel_digest host.guest_kernel_digest
    ∷ check "CPU template" manifest.cpu_template host.cpu_template
    ∷ check "SMT" (smt_text manifest.smt) (smt_text host.smt)
    ∷ check "huge pages" (huge_pages_text manifest.huge_pages) (huge_pages_text host.huge_pages)
    ∷ []

-- `filter` and `map` in one pass.
unfoldable pub failed_checks : List Check → List String
failed_checks [] = []
failed_checks (c ∷ rest) =
    let later = failed_checks rest in
    if c.source === c.destination
    then later
    else (c.name ++ ": source=" ++ c.source ++ " destination=" ++ c.destination) ∷ later

unfoldable pub compatibility_problems : CompatibilityManifest → HostCompatibility → List String
compatibility_problems manifest host = failed_checks (checks manifest host)

abbrev pub is_empty {ℓ} : {A : Type ℓ} → List A → Bool
is_empty [] = true
is_empty (_ ∷ _) = false

unfoldable pub assert_compatible : CompatibilityManifest → HostCompatibility → Settled (Unit {0})
assert_compatible manifest host =
    if manifest.consumed
    then rejected (firemig_error snapshot_consumed false (some 409))
    else if is_empty (compatibility_problems manifest host)
    then fulfilled tt
    else rejected (firemig_error incompatible_destination false (some 412))
