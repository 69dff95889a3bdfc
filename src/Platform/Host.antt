-- ===== src/Platform/Host.antt =====
-- What the worker calls outside its own code: packages/agent/src/platform/adapters.ts (files and
-- child processes), the Firecracker API socket, the guest agent and the relays. The host is a
-- parameter: it answers each call as it likes, by what has been called before.
use firemig.Prelude.{ℕ, String, Bool, Option, none, some, List, ◌∷◌, not, ◌&&◌, leb, ltb}
use firemig.Common.Errors.{Fault, outside, firemig_error, firecracker_api, ErrorCode}
use firemig.Common.Types.{FilePath, RunCommandRequest, WriteFileRequest}
use firemig.Exec.{Settled, Exec, gets, lift, refuse, ◌>>=◌, ◌>>◌}
use firemig.Planning.{CommandPlan}

pub record LoadSnapshotRequest : Type 0 where
  pub snapshot_path : FilePath
  pub memory_path : FilePath
  pub resume : Bool
  pub clock_realtime : Bool

pub record BootConfiguration : Type 0 where
  pub kernel_path : String
  pub rootfs_path : FilePath
  pub vsock_path : FilePath
  pub vcpu_count : ℕ
  pub mem_size_mib : ℕ
  pub cpu_template : Option String
  pub mtu : Option ℕ

-- The requests of packages/agent/src/runtime/firecracker.ts.
pub data ApiCall : Type 0 where
  boot_source rootfs_drive network_interface vsock_device machine_config :
      BootConfiguration → ApiCall
  instance_start vm_paused vm_resumed : ApiCall
  snapshot_create : FilePath → FilePath → ApiCall
  snapshot_load : LoadSnapshotRequest → ApiCall

-- The calls of packages/agent/src/runtime/vsock.ts.
pub data GuestCall : Type 0 where
  ready sync_clock : GuestCall
  run_command : RunCommandRequest → GuestCall
  write_file : WriteFileRequest → GuestCall

pub data Effect : Type 0 where
  mkdir open_file append_file sync_file close_file remove stat read_file watch : FilePath → Effect
  write_epochs : FilePath → List (String × ℕ) → Effect
  rename link : FilePath → FilePath → Effect
  write_chunk : FilePath → List ℕ → Effect
  http_get : String → ℕ → Effect
  run spawn : CommandPlan → Effect
  kill sleep : ℕ → Effect
  api : FilePath → ApiCall → Effect
  guest : FilePath → GuestCall → Effect
  relay_start : ℕ → String → ℕ → Effect
  relay_close : ℕ → Effect

-- The calls made so far, the latest first.
abbrev pub Trace : Type 0
Trace = List Effect

pub data EpochText : Type 0 where
  unreadable : EpochText
  document : ℕ → List (String × Option ℕ) → EpochText

-- The outside world. `settles` says whether a call fails, and the rest what its answer holds.
pub record World : Type 0 where
  pub settles : Trace → Effect → Option Fault
  pub status_code : Trace → ℕ
  pub guest_error : Trace → Option ErrorCode
  pub boot_id : Trace → String
  pub size : Trace → FilePath → ℕ
  pub is_file : Trace → FilePath → Bool
  pub content : Trace → FilePath → List ℕ
  pub sha256 : List ℕ → String
  pub hash_bytes : String → ℕ → ℕ
  pub http_status : Trace → ℕ
  pub http_sha256 : Trace → Option String
  pub http_body : Trace → Option (List (List ℕ))
  pub pid : Trace → ℕ
  pub iso_time : Trace → String
  pub now : Trace → ℕ
  pub watch_events : Trace → List (Option String)
  pub epoch_text : Trace → EpochText

pub record Host : Type 0 where
  pub world : World
  pub trace : Trace

abbrev settled : Option Fault → Settled (Unit {0})
settled none = Settled.fulfilled tt
settled (some f) = Settled.rejected (outside f)

-- One call outside. It stands in the trace whether it fails or not.
unfoldable pub perform : Effect → Exec Host (Unit {0})
perform e h = (settled (h.world.settles h.trace e), record h { trace = e ∷ h.trace })

-- `request` of FirecrackerClient: a status outside 200 to 299 is an error.
unfoldable pub call_firecracker : FilePath → ApiCall → Exec Host (Unit {0})
call_firecracker socket call = do
  perform (api socket call)
  status ← gets (λ h. h.world.status_code h.trace)
  refuse (not (leb 200 status && ltb status 300))
      (firemig_error firecracker_api (leb 500 status) (some status))

-- `call` of VsockGuestClient: the guest answers, or refuses with a code of its own.
abbrev answer_of : Option ErrorCode → Settled (Unit {0})
answer_of none = Settled.fulfilled tt
answer_of (some code) = Settled.rejected (firemig_error code Bool.false none)

unfoldable pub call_guest : FilePath → GuestCall → Exec Host (Unit {0})
call_guest socket call = do
  perform (guest socket call)
  refusal ← gets (λ h. h.world.guest_error h.trace)
  lift (answer_of refusal)
