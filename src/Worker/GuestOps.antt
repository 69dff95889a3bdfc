-- ===== src/Worker/GuestOps.antt =====
-- packages/agent/src/worker/lifecycle/worker-guest-ops.ts.
use Prim.Native.String.{◌++◌}
use firemig.Prelude.{
  ℕ, String, Bool, true, false, Option, none, some, List, [], ◌∷◌, ◌==◌, if◌then◌else◌,
}
use firemig.Prelude.{◌++◌ as append}
use firemig.Common.Types.{PortExposure, RunCommandRequest, WriteFileRequest}
use firemig.Exec.{Exec, pure, throw, gets, lift, refuse, ◌>>=◌, ◌>>◌, catch}
use firemig.Platform.Decimal.{decimal}
use firemig.Platform.Host.{run_command, write_file, call_guest}
use firemig.Planning.{expose_port_plan, or_else}
use firemig.Network.{address_without_prefix}
use firemig.Network.Allocator.{allocate_port, release_port}
use firemig.Worker.Types.{SandboxRecord, WorkerCore, worker_bad_request}
use firemig.Worker.Core.{
  on_host, on_allocator, write_record, start_relay, run_plans, mutable_record,
}

-- The result is the guest's own, passed on.
unfoldable pub run_guest_command : String → ℕ → RunCommandRequest → Exec WorkerCore (Unit {0})
run_guest_command id epoch request = do
  r ← mutable_record id epoch none
  on_host (
      call_guest r.guest
        (run_command (record request { background = some (or_else request.background false) })))

abbrev same_presence : Option String → Option String → Bool
same_presence none none = true
same_presence none (some _) = false
same_presence (some _) none = false
same_presence (some _) (some _) = true

unfoldable pub write_guest_file : String → ℕ → WriteFileRequest → Exec WorkerCore (Unit {0})
write_guest_file id epoch request = do
  r ← mutable_record id epoch none
  refuse (same_presence request.content request.content_base64) worker_bad_request
  on_host (call_guest r.guest (write_file request))

unfoldable pub find_port_exposure : ℕ → List PortExposure → Option PortExposure
find_port_exposure guest_port [] = none
find_port_exposure guest_port (p ∷ rest) =
    if p.guest_port == guest_port then some p else find_port_exposure guest_port rest

abbrev with_port : PortExposure → SandboxRecord → SandboxRecord
with_port p r = record r {
  info = record (r.info) { ports = some (append (or_else r.info.ports []) (p ∷ [])) };
}

-- The branch of a port that is not exposed yet.
unfoldable pub expose_new_port : SandboxRecord → String → ℕ → Exec WorkerCore PortExposure
expose_new_port r id guest_port = do
  plans ← lift (expose_port_plan r.netns r.namespace_address guest_port "fmtap0")
  run_plans plans
  digest ← gets (λ core. core.host.world.hash_bytes)
  proxy_port ← on_allocator (allocate_port digest id guest_port)
  catch (start_relay id guest_port proxy_port (address_without_prefix r.namespace_address))
      (λ error. do on_allocator (release_port proxy_port); throw error)
  host ← gets (λ core. core.configuration.proxy_host)
  let exposure =
      let p : PortExposure = record {
        guest_port = guest_port;
        proxy_host = host;
        proxy_port = proxy_port;
        url = "tcp://" ++ host ++ ":" ++ decimal proxy_port;
      } in
      p
  write_record id (with_port exposure)
  pure exposure

abbrev pub existing_or :
    Option PortExposure → Exec WorkerCore PortExposure → Exec WorkerCore PortExposure
existing_or none action = action
existing_or (some p) action = pure p

unfoldable pub expose_guest_port : String → ℕ → ℕ → Exec WorkerCore PortExposure
expose_guest_port id epoch guest_port = do
  r ← mutable_record id epoch none
  existing_or (find_port_exposure guest_port (or_else r.info.ports []))
      (expose_new_port r id guest_port)
