-- ===== src/Tests/Networks.antt =====
-- A network that is allocated to a sandbox of an empty host, and released.
use firemig.Prelude.{◌≡◌, refl, String, some, ℕ}
use firemig.Exec.{◌>>=◌}
use firemig.Network.{NetworkIdentity}
use firemig.Network.Allocator.{
  Allocator, NetworkRequest, network_keys, derive_network, try_network, find_network,
  allocate_network, release_network,
}
use firemig.Network.Allocator.Release.{release_network-allocate_network}
use firemig.Tests.Samples.{allocator}

abbrev wanted : NetworkRequest
wanted = record {
  id = "sb";
  netns = some "ns";
  host_veth = some "veth";
  host_address = some "10.0.0.1/30";
  namespace_address = some "10.0.0.2/30";
}

abbrev zeros : String → ℕ → ℕ
zeros text i = 0

abbrev given : NetworkIdentity
given = derive_network zeros "w1" wanted 0

abbrev claimed : Allocator
claimed = (allocate_network zeros wanted allocator).1

release_network-allocate_network_example :
    ((key : String)
      → (release_network "sb" (network_keys given) claimed).1.network_owners key
        ≡ allocator.network_owners key)
    × ((release_network "sb" (network_keys given) claimed).1.port_owners ≡ allocator.port_owners)
unfolding allocate_network try_network find_network derive_network ◌>>=◌
release_network-allocate_network_example =
    release_network-allocate_network zeros wanted allocator claimed given (λ key e. absurd (cc))
      refl
