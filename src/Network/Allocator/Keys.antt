-- ===== src/Network/Allocator/Keys.antt =====
-- `allocateNetwork` of packages/agent/src/worker/core/worker-allocator.ts.
use firemig.Prelude.{
  ℕ, zero, suc, ◌+◌, ◌≡◌, refl, String, Bool, false, inl, inr, Option, none, some, List, [], ◌∷◌,
  any, arith, ◌===◌, put, Bool-cases, if◌then◌else◌,
}
use firemig.Exec.{Settled, fulfilled, rejected, ◌>>=◌}
use firemig.Network.{NetworkIdentity}
use firemig.Network.Allocator.{
  Allocator, NetworkRequest, pinned, network_keys, taken, own_all, derive_network, too_long,
  try_network, find_network, allocate_network,
}

-- No key of the network belongs to another sandbox.
abbrev IsFree : Allocator → String → Settled NetworkIdentity → Type 0
IsFree a id (rejected t) = Unit
IsFree a id (fulfilled network) = any (taken a.network_owners id) (network_keys network) ≡ false

abbrev TriedFree : Allocator → String → Option (Settled NetworkIdentity) → Type 0
TriedFree a id none = Unit
TriedFree a id (some o) = IsFree a id o

module _ (digest : String → ℕ → ℕ) (a : Allocator) (r : NetworkRequest) where
  abbrev network_at : ℕ → NetworkIdentity
  network_at attempt = derive_network digest a.worker_id r attempt

  try_network-IsFree : (attempt : ℕ) → TriedFree a r.id (try_network digest a r attempt)
  unfolding try_network
  try_network-IsFree attempt = elim (Bool-cases (too_long digest (network_at attempt))) [
    | inl long ↦ rw long tt
    | inr short ↦
        elim (Bool-cases (any (taken a.network_owners r.id) (network_keys (network_at attempt)))) [
          | inr free ↦ rw (short, free) free
          | inl collision ↦ elim (Bool-cases (pinned r)) [
            | inl fixed ↦ rw (short, collision, fixed) tt
            | inr derived ↦ rw (short, collision, derived) tt
          ]
        ]
  ]

  find_network-IsFree : (left attempt : ℕ) → IsFree a r.id (find_network digest left a r attempt)
  unfolding find_network
  find_network-IsFree zero attempt = tt
  find_network-IsFree (suc left) attempt =
      go (find_network-IsFree left (attempt + 1)) (try_network digest a r attempt) refl
        (try_network-IsFree attempt)
    where
      go :
          IsFree a r.id (find_network digest left a r (attempt + 1))
          → (o : Option (Settled NetworkIdentity)) → try_network digest a r attempt ≡ o
          → TriedFree a r.id o
          → IsFree a r.id (find_network digest (suc left) a r attempt)
      go later none e free = rw (e, IsFree) later
      go later (some o) e free = rw (e, IsFree) free

abbrev pub named : List String → String → Bool
named keys j = any (λ key. key === j) keys

own_all_lem :
    (keys : List String) (id : String) (owners : String → Option String) (j : String)
    → own_all keys id owners j ≡ (if named keys j then some id else owners j)
unfolding own_all
own_all_lem [] id owners j = refl
own_all_lem (key ∷ keys) id owners j = ground (arith, own_all_lem keys id (put owners key id) j)

-- What `allocate_network` may come to.
abbrev pub Claims : String → Allocator → Settled NetworkIdentity × Allocator → Type 0
Claims id a (rejected t, a') = a' ≡ a
Claims id a (fulfilled network, a') =
    (any (taken a.network_owners id) (network_keys network) ≡ false)
    × ((key : String)
        → a'.network_owners key
          ≡ (if named (network_keys network) key then some id else a.network_owners key))
    × (a'.port_owners ≡ a.port_owners)

-- A network is allocated only if no other sandbox owns one of its keys; then the sandbox owns them
-- all, and no other entry changes. A refusal changes nothing.
pub allocate_network-Claims :
    (digest : String → ℕ → ℕ) (r : NetworkRequest) (a : Allocator)
    → Claims r.id a (allocate_network digest r a)
unfolding allocate_network ◌>>=◌
allocate_network-Claims digest r a =
    go (find_network digest 1024 a r 0) refl (find_network-IsFree digest a r 1024 0)
  where
    go :
        (o : Settled NetworkIdentity)
        → find_network digest 1024 a r 0 ≡ o
        → IsFree a r.id o
        → Claims r.id a (allocate_network digest r a)
    go (rejected t) e free = rw e refl
    go (fulfilled network) e free =
        rw e (free, own_all_lem (network_keys network) r.id a.network_owners, refl)
