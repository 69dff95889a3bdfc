-- ===== src/Tests/Samples.antt =====
-- Concrete hosts, manifests and workers.
use firemig.Prelude.{String, Bool, true, false, Option, none, some, [], ◌∷◌, put}
use firemig.Common.Phases.{SandboxState, running, paused}
use firemig.Common.Types.{ArtifactKind, ArtifactDescriptor, CompatibilityManifest, no_huge_pages}
use firemig.Exec.{fulfilled}
use firemig.Platform.Host.{World, Host, unreadable}
use firemig.Network.Allocator.{Allocator}
use firemig.Artifacts.Compatibility.{HostCompatibility}
use firemig.Worker.Types.{WorkerConfiguration, SandboxRecord, WorkerCore}

-- A host where every call succeeds.
abbrev pub world : World
world = record {
  settles = λ t e. none;
  status_code = λ t. 204;
  guest_error = λ t. none;
  boot_id = λ t. "boot-1";
  size = λ t p. 10;
  is_file = λ t p. true;
  content = λ t p. [];
  sha256 = λ bytes. "digest";
  hash_bytes = λ text i. i;
  http_status = λ t. 200;
  http_sha256 = λ t. none;
  http_body = λ t. some [];
  pid = λ t. 7;
  iso_time = λ t. "2026-01-01T00:00:00.000Z";
  now = λ t. 0;
  watch_events = λ t. [];
  epoch_text = λ t. unreadable;
}

abbrev pub host : Host
host = record { world = world; trace = [] }

abbrev pub fingerprint_of_host : HostCompatibility
fingerprint_of_host = record {
  firecracker_version = "1.7.0";
  firecracker_digest = "fc";
  snapshot_format_version = "2";
  host_kernel_version = "6.1";
  architecture = "x64";
  cpu_vendor = "intel";
  cpu_model = "85";
  cpu_family = "6";
  cpu_stepping = "7";
  guest_kernel_digest = "vmlinux";
  cpu_template = "None";
  smt = false;
  huge_pages = no_huge_pages;
}

abbrev pub descriptor : ArtifactKind → ArtifactDescriptor
descriptor kind = record { kind = kind; name = "artifact"; size = 10; sha256 = "digest" }

abbrev pub manifest : CompatibilityManifest
manifest = record {
  migration_id = "m1";
  sandbox_id = "sb";
  source_epoch = 1;
  firecracker_version = "1.7.0";
  firecracker_digest = "fc";
  snapshot_format_version = "2";
  host_kernel_version = "6.1";
  cpu = record {
    architecture = "x64";
    vendor = "intel";
    model = "85";
    family = "6";
    stepping = "7";
  };
  guest_kernel_digest = "vmlinux";
  cpu_template = "None";
  vcpu_count = 1;
  mem_size_mib = 512;
  smt = false;
  huge_pages = no_huge_pages;
  drive_canonical_path = "rootfs.ext4" ∷ "sb" ∷ "fm" ∷ [];
  tap_name = "fmtap0";
  vsock_canonical_path = "vsock.socket" ∷ "sb" ∷ "fm" ∷ [];
  artifacts = descriptor;
  ports = some [];
  consumed = false;
}

abbrev pub allocator : Allocator
allocator = record {
  worker_id = "w1";
  port_base = none;
  network_owners = λ key. none;
  port_owners = λ port. none;
}

abbrev pub configuration : WorkerConfiguration
configuration = record {
  worker_id = "w1";
  region = "eu";
  worker_root = "firemig" ∷ [];
  canonical_root = "fm" ∷ [];
  firecracker_binary = "firecracker";
  kernel_path = "vmlinux";
  base_rootfs_path = "rootfs.ext4";
  proxy_host = "127.0.0.1";
  port_base = none;
  peer_urls = λ worker. none;
  shared_worker_root = none;
  host_compatibility = fingerprint_of_host;
}

abbrev pub sandbox : SandboxState → Option String → SandboxRecord
sandbox st loaded = record {
  info = record {
    id = "sb";
    region = "eu";
    worker = "w1";
    state = st;
    epoch = 2;
    cpu = 1;
    memory_mb = 512;
    created_at = "2026-01-01T00:00:00.000Z";
    boot_id = none;
    booted_at = none;
    ports = some [];
    active_migration_id = none;
  };
  paths = record {
    physical_directory = "sb" ∷ "sandboxes" ∷ "firemig" ∷ [];
    canonical_directory = "sb" ∷ "fm" ∷ [];
    api_socket = "sb.socket" ∷ "sockets" ∷ "firemig" ∷ [];
    physical_rootfs = "rootfs.ext4" ∷ "sb" ∷ "sandboxes" ∷ "firemig" ∷ [];
    canonical_rootfs = "rootfs.ext4" ∷ "sb" ∷ "fm" ∷ [];
    physical_vsock = "vsock.socket" ∷ "sb" ∷ "sandboxes" ∷ "firemig" ∷ [];
    canonical_vsock = "vsock.socket" ∷ "sb" ∷ "fm" ∷ [];
    state = "snapshot-0.state" ∷ "sb" ∷ "sandboxes" ∷ "firemig" ∷ [];
    memory = "memory-0.mem" ∷ "sb" ∷ "sandboxes" ∷ "firemig" ∷ [];
    quarantine = λ migration_id. fulfilled (migration_id ∷ "quarantine" ∷ "firemig" ∷ []);
  };
  netns = "fmn0";
  host_veth = "fmv0";
  namespace_address = "10.64.0.2/30";
  guest = "vsock.socket" ∷ "sb" ∷ "sandboxes" ∷ "firemig" ∷ [];
  firecracker = "sb.socket" ∷ "sockets" ∷ "firemig" ∷ [];
  generation = 0;
  artifacts = λ kind. none;
  loaded_migration_id = loaded;
  network_keys = [];
  quarantine_path = none;
}

-- A worker that holds one sandbox, at epoch 2.
abbrev pub worker : SandboxRecord → (String → Bool) → WorkerCore
worker r consumed = record {
  configuration = configuration;
  host = host;
  epochs = ("sb", 2) ∷ [];
  allocator = allocator;
  processes = λ id. none;
  relays = λ id. [];
  sandboxes = put (λ id. none) "sb" r;
  consumed_snapshots = consumed;
  migrations = λ key. none;
  manifests = λ id. none;
}

abbrev pub loaded_worker : (String → Bool) → WorkerCore
loaded_worker = worker (sandbox paused (some "m1"))

abbrev pub running_worker : WorkerCore
running_worker = worker (sandbox running none) (λ m. false)
