-- ===== src/Prelude/Entries.antt =====
-- A JavaScript `Map` from texts whose entries are walked in the order of insertion.
use mathlib.Core.Path.{◌≡◌, refl}
use mathlib.Core.Option.{Option, none, some}
use mathlib.Core.List.{List, [], ◌∷◌, ◌++◌}
use native.Mathlib.Omega.{arith}
use text.Mathlib.TextEquality.{eq_iff}
use Prim.Native.String.{String}
use firemig.Prelude.Tests.{◌===◌, if◌then◌else◌}

module _ {ℓ} {V : Type ℓ} where
  unfoldable pub lookup : String → List (String × V) → Option V
  lookup key [] = none
  lookup key ((name, value) ∷ rest) = if name === key then some value else lookup key rest

  -- A key that is there keeps its place.
  unfoldable pub insert : String → V → List (String × V) → List (String × V)
  insert key value [] = (key, value) ∷ []
  insert key value ((name, held) ∷ rest) =
      if name === key then (name, value) ∷ rest else (name, held) ∷ insert key value rest

  unfoldable pub erase : String → List (String × V) → List (String × V)
  erase key [] = []
  erase key ((name, held) ∷ rest) = if name === key then rest else (name, held) ∷ erase key rest

  -- No key twice.
  abbrev pub Distinct : List (String × V) → Type ℓ
  Distinct [] = Unit
  Distinct ((name, held) ∷ rest) = (lookup name rest ≡ none) × Distinct rest

  pub lookup-insert :
      (key name : String) (value : V) (rest : List (String × V))
      → lookup name (insert key value rest)
        ≡ (if key === name then some value else lookup name rest)
  unfolding lookup insert
  lookup-insert key name value [] = refl
  lookup-insert key name value ((other, held) ∷ rest) = ground (
    arith,
    eq_iff key name,
    eq_iff other key,
    eq_iff other name,
    lookup-insert key name value rest,
  )

  pub lookup-erase :
      (key name : String) (rest : List (String × V))
      → Distinct rest
      → lookup name (erase key rest) ≡ (if key === name then none else lookup name rest)
  unfolding lookup erase
  lookup-erase key name [] d = ground arith
  lookup-erase key name ((other, held) ∷ rest) d = ground (
    arith,
    eq_iff key name,
    eq_iff other key,
    eq_iff other name,
    lookup-erase key name rest d.1,
    d.0,
  )

  pub insert-Distinct :
      (key : String) (value : V) (rest : List (String × V))
      → Distinct rest
      → Distinct (insert key value rest)
  unfolding insert lookup
  insert-Distinct key value [] d = (refl, tt)
  insert-Distinct key value ((other, held) ∷ rest) d = ground (
    arith,
    eq_iff other key,
    eq_iff key other,
    lookup-insert key other value rest,
    insert-Distinct key value rest d.1,
    d.0,
  )

  pub erase-Distinct :
      (key : String) (rest : List (String × V)) → Distinct rest → Distinct (erase key rest)
  unfolding erase lookup
  erase-Distinct key [] d = tt
  erase-Distinct key ((other, held) ∷ rest) d = ground (
    arith,
    eq_iff other key,
    eq_iff key other,
    lookup-erase key other rest d.1,
    erase-Distinct key rest d.1,
    d.0,
  )

  -- A new key goes to the end.
  pub insert_fresh :
      (key : String) (value : V) (rest : List (String × V))
      → lookup key rest ≡ none
      → insert key value rest ≡ rest ++ (key, value) ∷ []
  unfolding lookup insert
  insert_fresh key value [] h = refl
  insert_fresh key value ((other, held) ∷ rest) h = ground (arith, insert_fresh key value rest)
