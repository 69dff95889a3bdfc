-- ===== src/Network/Allocator/Release.antt =====
-- `releaseNetwork` of packages/agent/src/worker/core/worker-allocator.ts, behind `allocateNetwork`.
use firemig.Prelude.{
  ℕ, ◌≡◌, ◌≢◌, refl, ap, subst, ◌∙◌, String, Bool, true, false, not, ◌&&◌, inl, inr, Option, none,
  some, List, [], ◌∷◌, any, arith, eq_iff, ◌===◌, Bool-cases, if◌then◌else◌,
}
use firemig.Exec.{Settled, fulfilled, modify}
use firemig.Exec.Returns.{Returns}
use firemig.Network.{NetworkIdentity}
use firemig.Network.Allocator.{
  Allocator, NetworkRequest, taken, owned_by_other, network_keys, disown_all, allocate_network,
  release_network,
}
use firemig.Network.Allocator.Keys.{named, Claims, allocate_network-Claims}

disown_all_lem :
    (keys : List String) (id : String) (owners : String → Option String) (j : String)
    → disown_all keys id owners j
      ≡ (if named keys j && not (owned_by_other (owners j) id) then none else owners j)
unfolding disown_all
disown_all_lem [] id owners j = refl
disown_all_lem (key ∷ keys) id owners j = ground (
  arith,
  disown_all_lem keys id
      (λ i. if key === i && not (owned_by_other (owners i) id) then none else owners i) j,
)

-- A key that no other sandbox owned belongs to this one, or to none.
unowned_key :
    (keys : List String) (id : String) (owners : String → Option String) (j : String)
    → any (taken owners id) keys ≡ false
    → named keys j ≡ true
    → owned_by_other (owners j) id ≡ false
unowned_key [] id owners j free there = absurd (cc)
unowned_key (key ∷ keys) id owners j free there = elim (Bool-cases (key === j)) [
  | inl same ↦
      subst (λ k. owned_by_other (owners k) id ≡ false) ((eq_iff key j).0 same)
        (ground (arith, free))
  | inr other ↦ unowned_key keys id owners j (ground (arith, free)) (ground (arith, there, other))
]

-- The owner of one key, claimed and given up.
given_up :
    (is_named : Bool) (id : String) (before : Option String)
    → before ≢ some id
    → (is_named ≡ true → owned_by_other before id ≡ false)
    → (if is_named && not (owned_by_other (if is_named then some id else before) id)
        then none
        else if is_named
        then some id
        else before)
      ≡ before
given_up false id before mine free = refl
given_up true id none mine free = ground (arith, eq_iff id id)
given_up true id (some owner) mine free =
    let other : owner ≢ id = λ e. mine (ap some e) in
    absurd (other (ground (arith, free refl, eq_iff owner id)))

claimed :
    (id : String) (a b : Allocator) (network : NetworkIdentity)
    (o : Settled NetworkIdentity × Allocator)
    → o ≡ (fulfilled network, b)
    → Claims id a o
    → Claims id a (fulfilled network, b)
claimed id a b network o e c = rw e at c

-- A sandbox that owned no network key, and releases those of the network that it was allocated,
-- leaves the owners of all keys, and of all ports, as they were before.
pub release_network-allocate_network :
    (digest : String → ℕ → ℕ) (r : NetworkRequest) (a b : Allocator) (network : NetworkIdentity)
    → ((key : String) → a.network_owners key ≢ some r.id)
    → Returns (allocate_network digest r) a network b
    → ((key : String)
        → (release_network r.id (network_keys network) b).1.network_owners key
          ≡ a.network_owners key)
      × ((release_network r.id (network_keys network) b).1.port_owners ≡ a.port_owners)
unfolding release_network modify
release_network-allocate_network digest r a b network owns_none allocated =
    let (free, owned, ports) =
      claimed r.id a b network (allocate_network digest r a) allocated
        (allocate_network-Claims digest r a) in
    (
      λ key.
          disown_all_lem (network_keys network) r.id b.network_owners key
          ∙ rw (owned key) (
              given_up (named (network_keys network) key) r.id (a.network_owners key)
                (owns_none key)
                (unowned_key (network_keys network) r.id a.network_owners key free)),
      ports,
    )
