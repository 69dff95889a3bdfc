-- ===== src/Platform/Paths/Containment.antt =====
-- Safe identifiers in `insideWorker` of packages/agent/src/platform/paths.ts.
use firemig.Prelude.{
  ◌≡◌, refl, ap, String, true, false, ◌||◌, All, List, [], ◌∷◌, inl, inr, arith, ◌===◌, eq_iff,
  Bool-cases,
}
use firemig.Common.Types.{FilePath}
use firemig.Common.Errors.{plain}
use firemig.Exec.{Settled, fulfilled, rejected}
use firemig.Platform.Paths.{
  safe_identifier, PathModel, resolve_part, same_path, is_under, resolve_all, inside_worker,
}

pub same_path_refl : (p : FilePath) → same_path p p ≡ true
same_path_refl [] = refl
same_path_refl (s ∷ p) = ground (arith, eq_iff s s, same_path_refl p)

differs_from :
    (id t : String) → safe_identifier id ≡ true → safe_identifier t ≡ false → (id === t) ≡ false
differs_from id t safe unsafe = elim (Bool-cases (id === t)) [
  | inr apart ↦ apart
  | inl same ↦
      let equal : id ≡ t = ground (arith, eq_iff id t, same) in
      ground (arith, safe, unsafe, ap safe_identifier equal)
]

empty_unsafe : safe_identifier "" ≡ false
unfolding safe_identifier
empty_unsafe = refl

dot_unsafe : safe_identifier "." ≡ false
unfolding safe_identifier
dot_unsafe = refl

dots_unsafe : safe_identifier ".." ≡ false
unfolding safe_identifier
dots_unsafe = refl

resolve_part_lem :
    (id : String) (base : FilePath) → safe_identifier id ≡ true → resolve_part id base ≡ id ∷ base
resolve_part_lem id base safe =
    rw
      (
        differs_from id "" safe empty_unsafe,
        differs_from id "." safe dot_unsafe,
        differs_from id ".." safe dots_unsafe,
      )
      refl

-- Every part is a safe identifier.
abbrev pub AllSafe : List String → Type 0
AllSafe parts = All (λ part. safe_identifier part ≡ true) parts

-- The parts on top of a base, the last part first.
abbrev pub stacked : List String → FilePath → FilePath
stacked [] base = base
stacked (part ∷ parts) base = stacked parts (part ∷ base)

resolve_all_lem :
    (parts : List String) (base : FilePath)
    → AllSafe parts
    → resolve_all base parts ≡ stacked parts base
unfolding resolve_all
resolve_all_lem [] base safe = refl
resolve_all_lem (part ∷ parts) base (first, rest) =
    rw (resolve_part_lem part base first) (resolve_all_lem parts (part ∷ base) rest)

-- A path that is the base or lies below it.
abbrev Inside : FilePath → FilePath → Type 0
Inside base path = (same_path path base || is_under base path) ≡ true

-- Something on top of the root is not the root.
stacked_not_root :
    (parts : List String) (part : String) (base : FilePath)
    → same_path (stacked parts (part ∷ base)) [] ≡ false
stacked_not_root [] part base = refl
stacked_not_root (next ∷ parts) part base = stacked_not_root parts next (part ∷ base)

stacked-Inside :
    (base : FilePath) (parts : List String) (path : FilePath)
    → Inside base path
    → Inside base (stacked parts path)
stacked-Inside base [] path h = h
stacked-Inside base (part ∷ parts) path h =
    stacked-Inside base parts (part ∷ path) (ground (arith, h))

-- What becomes of safe identifiers under a root: below "/" they are refused, if there are any.
abbrev pub Descends : FilePath → List String → Settled FilePath → Type 0
Descends [] (part ∷ parts) result = result ≡ rejected (plain "Path escaped worker root")
Descends [] [] result = result ≡ fulfilled []
Descends (name ∷ up) parts result = result ≡ fulfilled (stacked parts (name ∷ up))

inside-Descends :
    (root canonical : FilePath) (parts : List String)
    → AllSafe parts
    → Descends root parts
        (inside_worker (record { worker_root = root; canonical_root = canonical }) parts)
unfolding inside_worker resolve_all
inside-Descends [] canonical [] safe = refl
inside-Descends [] canonical (part ∷ parts) safe =
    rw (resolve_all_lem (part ∷ parts) [] safe, stacked_not_root parts part []) refl
inside-Descends (name ∷ up) canonical parts safe =
    let root = name ∷ up in
    let within = stacked-Inside root parts root (ground (arith, same_path_refl root)) in
    rw (resolve_all_lem parts root safe) (ground (arith, within))

-- Safe identifiers never leave a worker's root that is not "/": the path of a list of them is
-- accepted, and goes down from the root by exactly one step for each of them, in order. Under the
-- root "/" the path of any is refused.
pub inside_worker-Descends :
    (model : PathModel) (parts : List String)
    → AllSafe parts
    → Descends model.worker_root parts (inside_worker model parts)
inside_worker-Descends model parts safe =
    inside-Descends model.worker_root model.canonical_root parts safe
