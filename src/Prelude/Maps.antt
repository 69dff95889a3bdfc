-- ===== src/Prelude/Maps.antt =====
-- A JavaScript `Map` whose order of entries is never observed: a function from keys to values.
use Prim.Native.String.{String}
use Prim.Native.Nat.{ℕ}
use mathlib.Core.Option.{Option, none, some}
use firemig.Prelude.Tests.{◌==◌, ◌===◌, if◌then◌else◌}

module _ {ℓ} {V : Type ℓ} where
  -- `m.set(k, v)` and `m.delete(k)`.
  abbrev pub put : (String → Option V) → String → V → String → Option V
  put m k v j = if k === j then some v else m j

  abbrev pub delete : (String → Option V) → String → String → Option V
  delete m k j = if k === j then none else m j

  abbrev pub put_at : (ℕ → Option V) → ℕ → V → ℕ → Option V
  put_at m k v j = if k == j then some v else m j

  abbrev pub delete_at : (ℕ → Option V) → ℕ → ℕ → Option V
  delete_at m k j = if k == j then none else m j
