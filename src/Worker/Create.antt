-- ===== src/Worker/Create.antt =====
-- packages/agent/src/worker/lifecycle/worker-create.ts and worker-boot.ts, with `configure` and
-- `start` of packages/agent/src/runtime/firecracker.ts.
pub mod Boot
use firemig.Prelude.{
  ℕ, String, Bool, true, false, Option, none, some, [], ◌∷◌, ◌===◌, put, delete, if◌then◌else◌,
}
use firemig.Common.Errors.{Thrown, eexist, outside, firemig_error, bad_request}
use firemig.Common.Phases.{booting, running}
use firemig.Common.Types.{SandboxInfo, FilePath}
use firemig.Exec.{
  Settled, fulfilled, rejected, Exec, pure, throw, gets, settle, lift, modify, done, refuse, ◌>>=◌,
  ◌>>◌, catch,
}
use firemig.Platform.Paths.{SandboxPaths, dirname, render, sandbox_paths}
use firemig.Platform.Host.{
  Host, BootConfiguration, boot_source, rootfs_drive, network_interface, vsock_device,
  machine_config, instance_start, mkdir, remove, run, spawn, kill, call_firecracker,
}
use firemig.Platform.Epochs.{accept}
use firemig.Planning.{
  plan, or_else, network_create_plan, mount_namespace_setup_plan, firecracker_launch_plan,
}
use firemig.Network.{NetworkIdentity}
use firemig.Network.Allocator.{NetworkRequest, network_keys, allocate_network, release_network}
use firemig.Artifacts.Pull.{run_abortable_operations}
use firemig.Worker.Types.{
  CreateWorkerSandboxRequest, Mode, boot, restore, SandboxRecord, WorkerCore, validate_machine_size,
}
use firemig.Worker.Core.{
  paths_of, on_host, on_epochs, on_allocator, call, record_of, write_record, run_plans, launch,
  stop_processes, run_cleanup_plans,
}
use firemig.Worker.Files.{wait_for_file, wait_for_guest}
use firemig.Worker.Create.Boot.{register_record, boot_guest, claim_physical_directory}

abbrev boots : Option Mode → Bool
boots none = true
boots (some boot) = true
boots (some restore) = false

abbrev network_request : CreateWorkerSandboxRequest → NetworkRequest
network_request request = record {
  id = request.id;
  netns = request.netns;
  host_veth = request.host_veth;
  host_address = request.host_address;
  namespace_address = request.namespace_address;
}

-- The body of the `try` behind `startMountNamespace`, up to the launch of Firecracker.
unfoldable pub set_up :
    CreateWorkerSandboxRequest → SandboxPaths → NetworkIdentity → ℕ → Exec WorkerCore (Unit {0})
set_up request paths network mount_namespace = do
  plans ← lift (
      network_create_plan (record {
        sandbox_id = request.id;
        netns = network.netns;
        host_veth = network.host_veth;
        host_address = network.host_address;
        namespace_address = network.namespace_address;
        guest_address = none;
        tap_name = none;
        mtu = request.mtu;
      }))
  run_plans plans
  mounts ← lift (mount_namespace_setup_plan mount_namespace paths)
  run_plans mounts
  binary ← gets (λ core. core.configuration.firecracker_binary)
  launched ← lift (firecracker_launch_plan mount_namespace network.netns binary paths.api_socket)
  launch request.id mount_namespace launched
  done

-- Behind the launch: wait for the API socket, register the sandbox, and boot it if asked to.
unfoldable pub bring_up :
    CreateWorkerSandboxRequest → SandboxPaths → NetworkIdentity → Exec WorkerCore SandboxInfo
bring_up request paths network = do
  on_host (wait_for_file paths.api_socket)
  r ← register_record request paths network
  if boots request.mode then boot_guest request r else done
  latest ← record_of request.id
  pure latest.info

-- The `catch` block: undo everything, and throw the error again.
unfoldable pub undo_create :
    CreateWorkerSandboxRequest
    → SandboxPaths
    → NetworkIdentity
    → Exec WorkerCore (Unit {0})
    → Thrown
    → Exec WorkerCore SandboxInfo
undo_create request paths network stop error = do
  stop
  run_cleanup_plans network.netns network.host_veth
  on_allocator (release_network request.id (network_keys network))
  call (remove paths.physical_directory)
  modify (λ core. record core { sandboxes = delete core.sandboxes request.id })
  throw error

abbrev copy_rootfs : CreateWorkerSandboxRequest → SandboxPaths → Exec WorkerCore (Unit {0})
copy_rootfs request paths = gets (λ core. core.configuration.base_rootfs_path) >>= λ base. call (
    run (
      plan "cp" (
        "--sparse=always"
        ∷ "--reflink=auto"
        ∷ "--"
        ∷ or_else request.rootfs_path (or_else request.rootfs base)
        ∷ render paths.physical_rootfs
        ∷ [])))

abbrev kill_quietly : ℕ → Exec WorkerCore (Unit {0})
kill_quietly pid = settle (call (kill pid)) >>= λ _. done

-- Behind the set-up, whose rejection kills the mount namespace and undoes the rest.
abbrev pub then_bring_up :
    CreateWorkerSandboxRequest
    → SandboxPaths
    → NetworkIdentity
    → ℕ
    → Settled (Unit {0})
    → Exec WorkerCore SandboxInfo
then_bring_up request paths network pid (rejected error) =
    undo_create request paths network (kill_quietly pid) error
then_bring_up request paths network pid (fulfilled _) =
    catch (bring_up request paths network)
      (undo_create request paths network (stop_processes request.id))

-- Behind the start of the mount namespace.
abbrev pub then_set_up :
    CreateWorkerSandboxRequest
    → SandboxPaths
    → NetworkIdentity
    → Settled ℕ
    → Exec WorkerCore SandboxInfo
then_set_up request paths network (rejected error) = undo_create request paths network done error
then_set_up request paths network (fulfilled pid) =
    settle (set_up request paths network pid) >>= then_bring_up request paths network pid

unfoldable pub start_sandbox :
    CreateWorkerSandboxRequest → SandboxPaths → NetworkIdentity → Exec WorkerCore SandboxInfo
start_sandbox request paths network =
    settle (do
      if boots request.mode then copy_rootfs request paths else done
      call (
          spawn (
            plan "unshare"
              ("--mount" ∷ "--propagation" ∷ "private" ∷ "--" ∷ "sleep" ∷ "infinity" ∷ [])))
      gets (λ core. core.host.world.pid core.host.trace))
    >>= then_set_up request paths network

abbrev is_there {ℓ} : {A : Type ℓ} → Option A → Bool
is_there none = false
is_there (some _) = true

unfoldable pub create_sandbox : CreateWorkerSandboxRequest → Exec WorkerCore SandboxInfo
create_sandbox request = do
  existing ← gets (λ core. core.sandboxes request.id)
  refuse (is_there existing) (firemig_error bad_request false (some 409))
  lift (validate_machine_size request.cpu request.memory_mb)
  on_epochs (accept request.id request.epoch)
  located ← gets (λ core. sandbox_paths (paths_of core) request.id 0)
  paths ← lift located
  run_abortable_operations (
      call (mkdir (dirname paths.physical_directory))
      ∷ call (mkdir (dirname paths.api_socket))
      ∷ [])
  claim_physical_directory paths.physical_directory
  digest ← gets (λ core. core.host.world.hash_bytes)
  network ←
      catch (on_allocator (allocate_network digest (network_request request)))
        (λ error. do call (remove paths.physical_directory); throw error)
  start_sandbox request paths network
