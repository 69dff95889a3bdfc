-- ===== src/Worker/Create/Boot.antt =====
-- packages/agent/src/worker/lifecycle/worker-boot.ts and `claimPhysicalDirectory`, with `configure`
-- of packages/agent/src/runtime/firecracker.ts.
use firemig.Prelude.{String, false, Option, none, some, [], ◌===◌, put, if◌then◌else◌}
use firemig.Common.Errors.{Thrown, eexist, outside, firemig_error, bad_request}
use firemig.Common.Phases.{booting, running}
use firemig.Common.Types.{FilePath}
use firemig.Exec.{Exec, pure, throw, gets, modify, ◌>>=◌, ◌>>◌, catch}
use firemig.Platform.Paths.{SandboxPaths}
use firemig.Platform.Host.{
  Host, BootConfiguration, boot_source, rootfs_drive, network_interface, vsock_device,
  machine_config, instance_start, mkdir, call_firecracker,
}
use firemig.Planning.{or_else}
use firemig.Network.{NetworkIdentity}
use firemig.Network.Allocator.{network_keys}
use firemig.Worker.Types.{CreateWorkerSandboxRequest, SandboxRecord, WorkerCore}
use firemig.Worker.Core.{on_host, call, write_record}
use firemig.Worker.Files.{wait_for_guest}

-- `configure` of FirecrackerClient.
unfoldable pub configure : FilePath → BootConfiguration → Exec Host (Unit {0})
configure socket config = do
  call_firecracker socket (boot_source config)
  call_firecracker socket (rootfs_drive config)
  call_firecracker socket (network_interface config)
  call_firecracker socket (vsock_device config)
  call_firecracker socket (machine_config config)

unfoldable pub register_record :
    CreateWorkerSandboxRequest → SandboxPaths → NetworkIdentity → Exec WorkerCore SandboxRecord
register_record request paths network = do
  core ← gets (λ core. core)
  let r =
      let new : SandboxRecord = record {
        info = record {
          id = request.id;
          region = core.configuration.region;
          worker = core.configuration.worker_id;
          state = booting;
          epoch = request.epoch;
          cpu = request.cpu;
          memory_mb = request.memory_mb;
          created_at = core.host.world.iso_time core.host.trace;
          boot_id = none;
          booted_at = none;
          ports = some [];
          active_migration_id = none;
        };
        paths = paths;
        netns = network.netns;
        host_veth = network.host_veth;
        namespace_address = network.namespace_address;
        guest = paths.physical_vsock;
        firecracker = paths.api_socket;
        generation = 0;
        artifacts = λ _. none;
        loaded_migration_id = none;
        network_keys = network_keys network;
        quarantine_path = none;
      } in
      new
  modify (λ c. record c { sandboxes = put c.sandboxes request.id r })
  pure r

abbrev template_of : String → Option String
template_of t = if t === "None" then none else some t

abbrev with_boot : String → String → SandboxRecord → SandboxRecord
with_boot boot_id time r = record r {
  info = record (r.info) { state = running; boot_id = some boot_id; booted_at = some time };
}

unfoldable pub boot_guest : CreateWorkerSandboxRequest → SandboxRecord → Exec WorkerCore (Unit {0})
boot_guest request r = do
  configuration ← gets (λ core. core.configuration)
  on_host (
      configure r.firecracker (record {
        kernel_path =
            or_else request.kernel_path (or_else request.kernel configuration.kernel_path);
        rootfs_path = r.paths.canonical_rootfs;
        vsock_path = r.paths.canonical_vsock;
        vcpu_count = request.cpu;
        mem_size_mib = request.memory_mb;
        cpu_template = template_of configuration.host_compatibility.cpu_template;
        mtu = request.mtu;
      }))
  on_host (call_firecracker r.firecracker instance_start)
  boot_id ← on_host (wait_for_guest r.guest 30000)
  time ← gets (λ core. core.host.world.iso_time core.host.trace)
  write_record request.id (with_boot boot_id time)

abbrev occupied : Thrown → Thrown
occupied (outside eexist) = firemig_error bad_request false (some 409)
occupied error = error

unfoldable pub claim_physical_directory : FilePath → Exec WorkerCore (Unit {0})
claim_physical_directory path = catch (call (mkdir path)) (λ error. throw (occupied error))
