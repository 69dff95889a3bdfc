-- ===== src/Network/Allocator/Ports.antt =====
-- `allocatePort` of packages/agent/src/worker/core/worker-allocator.ts.
use native.Mathlib.Nat.{mod-lt, mod-eq_of_lt, add-mod_right}
use native.Mathlib.Numerals.{unary_clauses}
use firemig.Prelude.{
  ℕ, zero, suc, ◌+◌, ◌-◌, ◌%◌, ◌≤◌, ◌<◌, ◌≡◌, refl, ap, subst, ◌∙◌, String, true, false, ◌||◌, inl,
  inr, Option, none, some, arith, ltb, put_at, Bool-cases,
}
use firemig.Exec.{Settled, fulfilled, rejected, ◌>>=◌}
use firemig.Network.{deterministic_host_port}
use firemig.Network.Allocator.{
  Allocator, is_free, find_port, port_base_of, port_owner, take_port, allocate_port,
}

module _ (owners : ℕ → Option String) (base start : ℕ) (owner : String) where
  abbrev port_at : ℕ → ℕ
  port_at offset = base + (start + offset) % (65536 - base)

  -- What the search finds from `offset` on, with `left` offsets left.
  abbrev Found : ℕ → ℕ → Option ℕ → Type 0
  Found left offset (some port) =
      (is_free (owners port) owner ≡ true) × (base ≤ port) × (port < 65536)
  Found left offset none =
      (k : ℕ) → k < left → is_free (owners (port_at (offset + k))) owner ≡ false

  widen :
      (left offset : ℕ) (o : Option ℕ)
      → is_free (owners (port_at offset)) owner ≡ false
      → Found left (offset + 1) o
      → Found (suc left) offset o
  widen left offset none taken later = first
    where
      first : (k : ℕ) → k < suc left → is_free (owners (port_at (offset + k))) owner ≡ false
      first zero below = simp unary_clauses taken
      first (suc k) below =
          let here : offset + suc k ≡ offset + 1 + k = omega arith in
          rw here (later k (omega arith))
  widen left offset (some port) taken later = later

  find_port-Found :
      (left offset : ℕ)
      → base < 65536
      → Found left offset (find_port left owners base start offset owner)
  unfolding find_port
  find_port-Found zero offset below = λ k lt. ground (arith, lt)
  find_port-Found (suc left) offset below =
      let within = mod-lt (start + offset) {m = 65536 - base} (omega arith) in
      elim (Bool-cases (is_free (owners (port_at offset)) owner)) [
        | inl free ↦ rw free (free, omega arith, omega (arith, within))
        | inr taken ↦ rw taken (widen left offset _ taken (find_port-Found left (offset + 1) below))
      ]

  -- The offsets go through every port from the base up.
  offset_of :
      (port : ℕ)
      → base ≤ port
      → port < 65536
      → start < 65536 - base
      → (k : ℕ) × (k < 65536 - base) × (port_at k ≡ port)
  offset_of port above below fits = elim (Bool-cases (ltb (port - base) start)) [
    | inr later ↦
        let e : start + (port - base - start) ≡ port - base = ground arith in
        (
          port - base - start,
          omega arith,
          ap (λ n. base + n % (65536 - base)) e
              ∙ ap (λ n. base + n) (mod-eq_of_lt (omega arith))
              ∙ omega arith,
        )
    | inl earlier ↦
        let e : start + (port - base + (65536 - base) - start) ≡ port - base + (65536 - base) =
          ground arith in
        (
          port - base + (65536 - base) - start,
          ground arith,
          ap (λ n. base + n % (65536 - base)) e
              ∙ ap (λ n. base + n) (add-mod_right (port - base) (65536 - base))
              ∙ ap (λ n. base + n) (mod-eq_of_lt (omega arith))
              ∙ omega arith,
        )
  ]

-- What `find_port` may give for a base: a free port, or none when another owner has every port.
abbrev pub FreePort : (ℕ → Option String) → ℕ → String → Option ℕ → Type 0
FreePort owners base owner (some port) =
    (is_free (owners port) owner ≡ true) × (base ≤ port) × (port < 65536)
FreePort owners base owner none =
    (port : ℕ) → base ≤ port → port < 65536 → is_free (owners port) owner ≡ false

-- The search for a relay port, which starts at a port derived from the sandbox, gives a port between
-- the base and 65535 that nobody else owns, and gives up only if others own every one of them.
pub find_port-FreePort :
    (owners : ℕ → Option String) (base start : ℕ) (owner : String)
    → base < 65536
    → start < 65536 - base
    → FreePort owners base owner (find_port (65536 - base) owners base start 0 owner)
find_port-FreePort owners base start owner below fits =
    finish (find_port (65536 - base) owners base start 0 owner)
      (find_port-Found owners base start owner (65536 - base) 0 below)
  where
    finish :
        (o : Option ℕ)
        → Found owners base start owner (65536 - base) 0 o
        → FreePort owners base owner o
    finish (some port) found = found
    finish none taken = λ port above under.
        let (k, fits', e) = offset_of owners base start owner port above under fits in
        let from_start : 0 + k ≡ k = omega arith in
        subst (λ n. is_free (owners n) owner ≡ false) e (rw from_start at (taken k fits'))

-- What `allocate_port` may come to.
abbrev pub Allocates : String → ℕ → Allocator → Settled ℕ × Allocator → Type 0
Allocates id guest_port a (rejected t, a') = a' ≡ a
Allocates id guest_port a (fulfilled port, a') =
    (is_free (a.port_owners port) (port_owner id guest_port) ≡ true)
    × (port_base_of a.port_base ≤ port)
    × (port < 65536)
    × (a' ≡ record a { port_owners = put_at a.port_owners port (port_owner id guest_port) })

-- The port that is preferred lies between the base and 65535.
abbrev Preferred : ℕ → Settled ℕ → Type 0
Preferred base (rejected t) = Unit
Preferred base (fulfilled preferred) = (base < 65536) × (preferred - base < 65536 - base)

wrapped : (base n : ℕ) → base < 65536 → base + n % (65536 - base) - base < 65536 - base
wrapped base n below =
    let within = mod-lt n {m = 65536 - base} (omega arith) in omega (arith, within)

deterministic_host_port-Preferred :
    (digest : String → ℕ → ℕ) (base : ℕ) (worker_id id : String) (guest_port : ℕ)
    → Preferred base (deterministic_host_port digest base worker_id id guest_port)
unfolding deterministic_host_port
deterministic_host_port-Preferred digest base worker_id id guest_port =
    elim (Bool-cases (ltb base 1 || ltb 65535 base)) [
      | inl bad ↦ rw bad tt
      | inr base_fits ↦ elim (Bool-cases (ltb guest_port 1 || ltb 65535 guest_port)) [
        | inl bad ↦ rw (base_fits, bad) tt
        | inr port_fits ↦
            rw (base_fits, port_fits)
              (ground (arith, base_fits), wrapped base _ (ground (arith, base_fits)))
      ]
    ]

take_port-Allocates :
    (id : String) (guest_port : ℕ) (a : Allocator) (o : Option ℕ)
    → FreePort a.port_owners (port_base_of a.port_base) (port_owner id guest_port) o
    → Allocates id guest_port a (take_port (port_owner id guest_port) o a)
unfolding take_port ◌>>=◌
take_port-Allocates id guest_port a none taken = refl
take_port-Allocates id guest_port a (some port) (free, above, below) = (free, above, below, refl)

-- A relay port is allocated between the worker's base and 65535, where nobody but the same guest port
-- of the same sandbox owned it, and only that entry changes; a refusal changes nothing.
pub allocate_port-Allocates :
    (digest : String → ℕ → ℕ) (id : String) (guest_port : ℕ) (a : Allocator)
    → Allocates id guest_port a (allocate_port digest id guest_port a)
unfolding allocate_port ◌>>=◌
allocate_port-Allocates digest id guest_port a =
    go (deterministic_host_port digest (port_base_of a.port_base) a.worker_id id guest_port) refl (
      deterministic_host_port-Preferred digest (port_base_of a.port_base) a.worker_id id guest_port)
  where
    go :
        (o : Settled ℕ)
        → deterministic_host_port digest (port_base_of a.port_base) a.worker_id id guest_port ≡ o
        → Preferred (port_base_of a.port_base) o
        → Allocates id guest_port a (allocate_port digest id guest_port a)
    go (rejected t) e p = rw e refl
    go (fulfilled preferred) e (below, fits) = rw e (
        take_port-Allocates id guest_port a _ (
          find_port-FreePort a.port_owners (port_base_of a.port_base)
            (preferred - port_base_of a.port_base) (port_owner id guest_port) below fits))
