-- ===== src/Common/Types.antt =====
-- packages/common/src/types: the records that cross the worker's API.
use firemig.Prelude.{ℕ, ◌==◌, String, Bool, Option, List}
use firemig.Common.Phases.{SandboxState}

pub data ArtifactKind : Type 0 where
  state mem disk : ArtifactKind

abbrev rank : ArtifactKind → ℕ
rank state = 0
rank mem = 1
rank disk = 2

abbrev pub kind_eq : ArtifactKind → ArtifactKind → Bool
kind_eq a b = rank a == rank b

pub record ArtifactDescriptor : Type 0 where
  pub kind : ArtifactKind
  pub name : String
  pub size : ℕ
  pub sha256 : String

pub record CpuFingerprint : Type 0 where
  pub architecture : String
  pub vendor : String
  pub model : String
  pub family : String
  pub stepping : String

pub record PortExposure : Type 0 where
  pub guest_port : ℕ
  pub proxy_host : String
  pub proxy_port : ℕ
  pub url : String

pub data HugePages : Type 0 where
  no_huge_pages huge_2m : HugePages

-- A path of the host: its segments, the last one first.
abbrev pub FilePath : Type 0
FilePath = List String

pub record CompatibilityManifest : Type 0 where
  pub migration_id : String
  pub sandbox_id : String
  pub source_epoch : ℕ
  pub firecracker_version : String
  pub firecracker_digest : String
  pub snapshot_format_version : String
  pub host_kernel_version : String
  pub cpu : CpuFingerprint
  pub guest_kernel_digest : String
  pub cpu_template : String
  pub vcpu_count : ℕ
  pub mem_size_mib : ℕ
  pub smt : Bool
  pub huge_pages : HugePages
  pub drive_canonical_path : FilePath
  pub tap_name : String
  pub vsock_canonical_path : FilePath
  pub artifacts : ArtifactKind → ArtifactDescriptor
  pub ports : Option (List PortExposure)
  pub consumed : Bool

pub record SandboxInfo : Type 0 where
  pub id : String
  pub region : String
  pub worker : String
  pub state : SandboxState
  pub epoch : ℕ
  pub cpu : ℕ
  pub memory_mb : ℕ
  pub created_at : String
  pub boot_id : Option String
  pub booted_at : Option String
  pub ports : Option (List PortExposure)
  pub active_migration_id : Option String

pub record RunCommandRequest : Type 0 where
  pub command : String
  pub background : Option Bool
  pub cwd : Option String
  pub env : Option (List (String × String))
  pub timeout_ms : Option ℕ

pub record WriteFileRequest : Type 0 where
  pub path : String
  pub content : Option String
  pub content_base64 : Option String
  pub mode : Option ℕ
