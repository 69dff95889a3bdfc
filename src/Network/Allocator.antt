-- ===== src/Network/Allocator.antt =====
-- packages/agent/src/worker/core/worker-allocator.ts: who owns which network names and relay ports.
pub mod Ports
pub mod Keys
pub mod Release
use Prim.Native.String
use Prim.Native.String.{◌++◌}
use text.Mathlib.Text.{starts_with}
use firemig.Prelude.{
  ℕ, zero, suc, ◌+◌, ◌-◌, ◌%◌, String, Bool, true, false, not, ◌&&◌, ◌||◌, Option, none, some, List,
  [], ◌∷◌, any, ltb, ◌===◌, if◌then◌else◌, put, put_at, delete, delete_at,
}
use firemig.Common.Errors.{Thrown, plain, firemig_error, no_capacity}
use firemig.Exec.{
  Settled, fulfilled, rejected, Exec, pure, throw, gets, lift, modify, done, ◌>>=◌, ◌>>◌,
}
use firemig.Platform.Decimal.{decimal}
use firemig.Network.{
  NetworkIdentity, derive_network_identity, deterministic_host_port, address_without_prefix,
}

pub record Allocator : Type 0 where
  pub worker_id : String
  pub port_base : Option ℕ
  pub network_owners : String → Option String
  pub port_owners : ℕ → Option String

-- The fields of a creation request that may pin a network.
pub record NetworkRequest : Type 0 where
  pub id : String
  pub netns : Option String
  pub host_veth : Option String
  pub host_address : Option String
  pub namespace_address : Option String

abbrev is_some {ℓ} : {A : Type ℓ} → Option A → Bool
is_some none = false
is_some (some _) = true

abbrev pinned : NetworkRequest → Bool
pinned r =
    is_some r.netns || is_some r.host_veth || is_some r.host_address || is_some r.namespace_address

abbrev pinned_or : Option String → String → String
pinned_or none derived = derived
pinned_or (some given) derived = given

abbrev pub network_keys : NetworkIdentity → List String
network_keys network =
    ("netns:" ++ network.netns)
    ∷ ("veth:" ++ network.host_veth)
    ∷ ("subnet:"
        ++ address_without_prefix network.host_address
        ++ ":"
        ++ address_without_prefix network.namespace_address)
    ∷ []

-- A key is taken if another sandbox owns it.
abbrev pub owned_by_other : Option String → String → Bool
owned_by_other none id = false
owned_by_other (some owner) id = not (owner === id)

abbrev pub taken : (String → Option String) → String → String → Bool
taken owners id key = owned_by_other (owners key) id

-- `for (const key of keys) owners.set(key, id);`
unfoldable pub own_all : List String → String → (String → Option String) → String → Option String
own_all [] id owners = owners
own_all (key ∷ keys) id owners = own_all keys id (put owners key id)

unfoldable pub disown_all : List String → String → (String → Option String) → String → Option String
disown_all [] id owners = owners
disown_all (key ∷ keys) id owners =
    disown_all keys id
      (λ j. if key === j && not (owned_by_other (owners j) id) then none else owners j)

module _ (digest : String → ℕ → ℕ) where
  unfoldable pub derive_network : String → NetworkRequest → ℕ → NetworkIdentity
  derive_network worker_id r attempt =
      let derived = derive_network_identity digest worker_id r.id attempt in
      record derived {
        netns = pinned_or r.netns derived.netns;
        host_veth = pinned_or r.host_veth derived.host_veth;
        host_address = pinned_or r.host_address derived.host_address;
        namespace_address = pinned_or r.namespace_address derived.namespace_address;
      }

  abbrev too_long : NetworkIdentity → Bool
  too_long network = ltb 15 (String.count network.netns) || ltb 15 (String.count network.host_veth)

  -- One pass of the loop: `none` goes on with the next attempt.
  unfoldable pub try_network : Allocator → NetworkRequest → ℕ → Option (Settled NetworkIdentity)
  try_network a r attempt =
      let network = derive_network a.worker_id r attempt in
      let collision = any (taken a.network_owners r.id) (network_keys network) in
      if too_long network
      then some
          (rejected (plain "Network namespace and host veth names must be at most 15 characters"))
      else if collision && not (pinned r)
      then none
      else if collision
      then some (rejected (firemig_error no_capacity true (some 409)))
      else some (fulfilled network)

  -- The loop, with the attempts that are left; the code makes 1,024.
  unfoldable pub find_network : ℕ → Allocator → NetworkRequest → ℕ → Settled NetworkIdentity
  find_network zero a r attempt = rejected (firemig_error no_capacity true (some 503))
  find_network (suc left) a r attempt = elim (try_network a r attempt) [
    | some outcome ↦ outcome
    | none ↦ find_network left a r (attempt + 1)
  ]

  unfoldable pub allocate_network : NetworkRequest → Exec Allocator NetworkIdentity
  allocate_network r = do
    found ← gets (λ a. find_network 1024 a r 0)
    network ← lift found
    modify (λ a. record a { network_owners = own_all (network_keys network) r.id a.network_owners })
    pure network

unfoldable pub release_network : String → List String → Exec Allocator (Unit {0})
release_network id keys =
    modify (λ a. record a { network_owners = disown_all keys id a.network_owners })

abbrev pub port_base_of : Option ℕ → ℕ
port_base_of none = 20000
port_base_of (some base) = base

abbrev pub port_owner : String → ℕ → String
port_owner id guest_port = id ++ ":" ++ decimal guest_port

abbrev pub is_free : Option String → String → Bool
is_free none owner = true
is_free (some existing) owner = existing === owner

-- The loop of `allocatePort`, with the offsets that are left.
unfoldable pub find_port : ℕ → (ℕ → Option String) → ℕ → ℕ → ℕ → String → Option ℕ
find_port zero owners base start offset owner = none
find_port (suc left) owners base start offset owner =
    let port = base + (start + offset) % (65536 - base) in
    let rest = find_port left owners base start (offset + 1) owner in
    if is_free (owners port) owner then some port else rest

-- The end of the loop: the port is taken, or there is none.
unfoldable pub take_port : String → Option ℕ → Exec Allocator ℕ
take_port owner none = throw (firemig_error no_capacity true (some 503))
take_port owner (some port) = do
  modify (λ a. record a { port_owners = put_at a.port_owners port owner })
  pure port

module _ (digest : String → ℕ → ℕ) where
  unfoldable pub allocate_port : String → ℕ → Exec Allocator ℕ
  allocate_port id guest_port = do
    base ← gets (λ a. port_base_of a.port_base)
    worker_id ← gets (λ a. a.worker_id)
    preferred ← lift (deterministic_host_port digest base worker_id id guest_port)
    let owner = port_owner id guest_port
    found ← gets (λ a. find_port (65536 - base) a.port_owners base (preferred - base) 0 owner)
    take_port owner found

unfoldable pub release_port : ℕ → Exec Allocator (Unit {0})
release_port port = modify (λ a. record a { port_owners = delete_at a.port_owners port })

abbrev owner_starts : Option String → String → Bool
owner_starts none prefix = false
owner_starts (some owner) prefix = starts_with owner prefix

unfoldable pub release_ports : String → Exec Allocator (Unit {0})
release_ports id = modify (λ a. record a {
  port_owners =
      λ port. if owner_starts (a.port_owners port) (id ++ ":") then none else a.port_owners port;
})
