-- ===== src/Planning.antt =====
-- packages/agent/src/planning: the commands that set a sandbox's network and processes up.
use Prim.Native.String.{◌++◌}
use firemig.Prelude.{ℕ, String, Option, none, some, List, [], ◌∷◌, not, ◌||◌, leb, ltb}
use firemig.Common.Errors.{plain}
use firemig.Common.Types.{FilePath}
use firemig.Exec.{Settled, fulfilled, reject_if}
use firemig.Platform.Decimal.{decimal}
use firemig.Platform.Paths.{SandboxPaths, assert_identifier, is_safe_integer, render, ◌>>◌}

pub record CommandPlan : Type 0 where
  pub file : String
  pub args : List String

abbrev pub plan : String → List String → CommandPlan
plan file args = record { file = file; args = args }

-- `ip netns exec <netns> …`
abbrev pub ns_exec : String → List String → CommandPlan
ns_exec netns args = plan "ip" ("netns" ∷ "exec" ∷ netns ∷ args)

pub record NetworkPlanOptions : Type 0 where
  pub sandbox_id : String
  pub netns : String
  pub host_veth : String
  pub host_address : String
  pub namespace_address : String
  pub guest_address : Option String
  pub tap_name : Option String
  pub mtu : Option ℕ

abbrev pub or_else {ℓ} : {A : Type ℓ} → Option A → A → A
or_else none fallback = fallback
or_else (some a) fallback = a

-- `nft add chain <family> <table> <name> { type … hook … priority … ; policy accept ; }`
abbrev chain : String → String → String → String → String → List String
chain family table name type priority =
    "nft" ∷ "add" ∷ "chain" ∷ family ∷ table ∷ name ∷ "{" ∷ "type" ∷ type ∷ "hook" ∷ name
    ∷ "priority" ∷ priority ∷ ";" ∷ "policy" ∷ "accept" ∷ ";" ∷ "}" ∷ []

-- `slice(1)` of a text.
abbrev rest_of : String → String
rest_of String.[] = String.[]
rest_of (String.◌∷◌ _ rest) = rest

unfoldable pub network_create_plan : NetworkPlanOptions → Settled (List CommandPlan)
unfolding assert_identifier
network_create_plan options = do
  assert_identifier options.sandbox_id
  assert_identifier options.netns
  assert_identifier options.host_veth
  let netns = options.netns
  let host_veth = options.host_veth
  let tap = or_else options.tap_name "fmtap0"
  let mtu = decimal (or_else options.mtu 1500)
  let peer_veth = "p" ++ rest_of host_veth
  fulfilled (
      plan "ip" ("netns" ∷ "add" ∷ netns ∷ [])
      ∷ plan "ip" ("link" ∷ "add" ∷ host_veth ∷ "type" ∷ "veth" ∷ "peer" ∷ "name" ∷ peer_veth ∷ [])
      ∷ plan "ip" ("link" ∷ "set" ∷ peer_veth ∷ "netns" ∷ netns ∷ [])
      ∷ ns_exec netns ("ip" ∷ "link" ∷ "set" ∷ peer_veth ∷ "name" ∷ "fmv0" ∷ [])
      ∷ plan "ip" ("addr" ∷ "add" ∷ options.host_address ∷ "dev" ∷ host_veth ∷ [])
      ∷ plan "ip" ("link" ∷ "set" ∷ host_veth ∷ "mtu" ∷ mtu ∷ "up" ∷ [])
      ∷ ns_exec netns ("ip" ∷ "addr" ∷ "add" ∷ options.namespace_address ∷ "dev" ∷ "fmv0" ∷ [])
      ∷ ns_exec netns ("ip" ∷ "link" ∷ "set" ∷ "fmv0" ∷ "mtu" ∷ mtu ∷ "up" ∷ [])
      ∷ ns_exec netns ("ip" ∷ "tuntap" ∷ "add" ∷ "dev" ∷ tap ∷ "mode" ∷ "tap" ∷ [])
      ∷ ns_exec netns ("ip" ∷ "addr" ∷ "add" ∷ "172.16.0.1/30" ∷ "dev" ∷ tap ∷ [])
      ∷ ns_exec netns ("ip" ∷ "link" ∷ "set" ∷ tap ∷ "mtu" ∷ mtu ∷ "up" ∷ [])
      ∷ ns_exec netns ("sysctl" ∷ "-w" ∷ "net.ipv4.ip_forward=1" ∷ [])
      ∷ ns_exec netns ("nft" ∷ "add" ∷ "table" ∷ "ip" ∷ "nat" ∷ [])
      ∷ ns_exec netns (chain "ip" "nat" "prerouting" "nat" "dstnat")
      ∷ ns_exec netns (chain "ip" "nat" "postrouting" "nat" "srcnat")
      ∷ ns_exec netns ("nft" ∷ "add" ∷ "table" ∷ "inet" ∷ "filter" ∷ [])
      ∷ ns_exec netns (chain "inet" "filter" "forward" "filter" "filter")
      ∷ [])

unfoldable pub network_delete_plan : String → String → Settled (List CommandPlan)
unfolding assert_identifier
network_delete_plan netns host_veth = do
  assert_identifier netns
  assert_identifier host_veth
  fulfilled (
      plan "ip" ("netns" ∷ "delete" ∷ netns ∷ [])
      ∷ plan "ip" ("link" ∷ "delete" ∷ host_veth ∷ [])
      ∷ [])

abbrev guest_address : String
guest_address = "172.16.0.2"

unfoldable pub expose_port_plan : String → String → ℕ → String → Settled (List CommandPlan)
unfolding assert_identifier
expose_port_plan netns namespace_address guest_port tap_name = do
  assert_identifier netns
  reject_if (ltb guest_port 1 || ltb 65535 guest_port) (plain "Invalid guest port")
  let port = decimal guest_port
  fulfilled (
      ns_exec netns (
        "nft"
        ∷ "add"
        ∷ "rule"
        ∷ "ip"
        ∷ "nat"
        ∷ "prerouting"
        ∷ "iifname"
        ∷ "fmv0"
        ∷ "tcp"
        ∷ "dport"
        ∷ port
        ∷ "dnat"
        ∷ "to"
        ∷ (guest_address ++ ":" ++ port)
        ∷ [])
      ∷ ns_exec netns (
          "nft" ∷ "add" ∷ "rule" ∷ "ip" ∷ "nat" ∷ "postrouting" ∷ "oifname" ∷ tap_name ∷ "ip"
          ∷ "daddr" ∷ guest_address ∷ "masquerade" ∷ [])
      ∷ ns_exec netns (
          "nft" ∷ "add" ∷ "rule" ∷ "inet" ∷ "filter" ∷ "forward" ∷ "tcp" ∷ "flags" ∷ "syn" ∷ "tcp"
          ∷ "option" ∷ "maxseg" ∷ "size" ∷ "set" ∷ "1360" ∷ [])
      ∷ [])

abbrev mount_of : ℕ → String
mount_of pid = "--mount=/proc/" ++ decimal pid ++ "/ns/mnt"

unfoldable pub mount_namespace_setup_plan : ℕ → SandboxPaths → Settled (List CommandPlan)
mount_namespace_setup_plan pid paths = do
  reject_if (not (is_safe_integer pid) || leb pid 0) (plain "Invalid mount namespace PID")
  let canonical = render paths.canonical_directory
  fulfilled (
      plan "nsenter" (mount_of pid ∷ "--" ∷ "mkdir" ∷ "-p" ∷ canonical ∷ [])
      ∷ plan "nsenter" (
          mount_of pid
          ∷ "--"
          ∷ "mount"
          ∷ "--bind"
          ∷ render paths.physical_directory
          ∷ canonical
          ∷ [])
      ∷ [])

unfoldable pub firecracker_launch_plan : ℕ → String → String → FilePath → Settled CommandPlan
unfolding assert_identifier
firecracker_launch_plan pid netns binary api_socket = do
  assert_identifier netns
  fulfilled (
      plan "nsenter" (
        mount_of pid
        ∷ ("--net=/var/run/netns/" ++ netns)
        ∷ "--"
        ∷ binary
        ∷ "--api-sock"
        ∷ render api_socket
        ∷ []))
