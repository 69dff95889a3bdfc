-- ===== src/Platform/Epochs/Durable.antt =====
-- `persist` and `load` of packages/agent/src/platform/epochs.ts: the epochs through a restart.
use firemig.Prelude.{
  ℕ, ◌≡◌, refl, sym, ap, ◌∙◌, String, Bool, true, false, none, some, List, [], ◌∷◌, arith, eq_iff,
  ◌===◌, if◌then◌else◌, inl, inr, Bool-cases, ltb,
}
use firemig.Prelude.Entries.{lookup, insert, Distinct, lookup-insert, insert-Distinct}
use firemig.Common.Types.{FilePath}
use firemig.Exec.{Exec, fulfilled, rejected, Settled, Settled-cases, pure, ◌>>=◌, within}
use firemig.Exec.Returns.{Returns, Returns-bind, Returns-gets, Returns-refuse}
use firemig.Platform.Paths.{is_safe_integer}
use firemig.Platform.Host.{Trace, perform, read_file}
use firemig.Platform.Epochs.{
  EpochStore, Accepted, epoch_of, on_host, persist, restore, advance, accept, load_entries,
  load_text, load,
}
use firemig.Platform.Epochs.Laws.{epochs-persist}
use firemig.Platform.Epochs.Persisted.{
  held_by, entries_of, text_of, AreSafe, called, persist-Returns,
}

insert-AreSafe :
    (id : String) (n : ℕ) (epochs : List (String × ℕ))
    → is_safe_integer n ≡ true
    → AreSafe epochs
    → AreSafe (insert id n epochs)
unfolding insert
insert-AreSafe id n [] safe all = (safe, tt)
insert-AreSafe id n ((other, held) ∷ rest) safe all = elim (Bool-cases (other === id)) [
  | inl same ↦ rw same (safe, all.1)
  | inr differs ↦ rw differs (all.0, insert-AreSafe id n rest safe all.1)
]

-- What the entries of a document leave in a map.
abbrev read_into : List (String × ℕ) → List (String × ℕ) → List (String × ℕ)
read_into [] held = held
read_into ((id, n) ∷ rest) held = read_into rest (insert id n held)

load_entries-AreSafe :
    (epochs : List (String × ℕ)) (s : EpochStore)
    → AreSafe epochs
    → load_entries (entries_of epochs) s
      ≡ (fulfilled tt, record s { epochs = read_into epochs s.epochs })
unfolding load_entries ◌>>=◌
load_entries-AreSafe [] s all = refl
load_entries-AreSafe ((id, n) ∷ rest) s all =
    rw (all.0) (load_entries-AreSafe rest (record s { epochs = insert id n s.epochs }) all.1)

lookup-read_into :
    (j : String) (epochs held : List (String × ℕ))
    → Distinct epochs
    → lookup j (read_into epochs held)
      ≡ elim (lookup j epochs) [ none ↦ lookup j held | some n ↦ some n ]
unfolding lookup
lookup-read_into j [] held d = refl
lookup-read_into j ((id, n) ∷ rest) held d = ground (
  arith,
  eq_iff id j,
  d.0,
  lookup-read_into j rest (insert id n held) d.1,
  lookup-insert id j n held,
)

-- `u` is a new process, which reads what the trace has left at the path.
pub record Restarted (path : FilePath) (trace : Trace) (u : EpochStore) : Type 0 where
  pub same_file : u.path ≡ path
  pub is_read : u.host.world.settles u.host.trace (read_file path) ≡ none
  pub text : u.host.world.epoch_text (read_file path ∷ u.host.trace) ≡ text_of (held_by path trace)

load_text-AreSafe :
    (epochs : List (String × ℕ)) (s : EpochStore)
    → AreSafe epochs
    → load_text (text_of (some epochs)) s
      ≡ (fulfilled tt, record s { epochs = read_into epochs [] })
unfolding load_text ◌>>=◌
load_text-AreSafe epochs s safe = load_entries-AreSafe epochs (record s { epochs = [] }) safe

load-Restarted :
    (path : FilePath) (trace : Trace) (epochs : List (String × ℕ)) (u : EpochStore)
    → Restarted path trace u
    → held_by path trace ≡ some epochs
    → AreSafe epochs
    → load u ≡ (fulfilled tt, record (called (read_file path) u) { epochs = read_into epochs [] })
unfolding load on_host perform within ◌>>=◌
load-Restarted path trace epochs u restarted held safe =
    let text : u.host.world.epoch_text (read_file path ∷ u.host.trace) ≡ text_of (some epochs) =
      restarted.text ∙ ap text_of held in
    rw (restarted.same_file, restarted.is_read, text) (rw (load_text-AreSafe epochs _ safe) refl)

advance-Returns :
    (id : String) (previous requested : ℕ) (s t : EpochStore) (a : Unit {0})
    → Returns (advance id previous requested) s a t
    → (t.epochs ≡ insert id requested s.epochs) × (held_by s.path t.host.trace ≡ some t.epochs)
unfolding advance ◌>>=◌
advance-Returns id previous requested s t a h =
    let moved = record s { epochs = insert id requested s.epochs } in
    elim (Settled-cases (persist moved)) [
      | inl (b, u, e) ↦
          let q : Returns (λ (w : EpochStore). (fulfilled b, u)) s a t = rw e at h in
          let same : t ≡ u = cc in
          let kept : u.epochs ≡ moved.epochs =
            ap (λ (r : Settled (Unit {0}) × EpochStore). r.1.epochs) (sym e)
            ∙ epochs-persist moved in
          rw (same, kept) (refl, persist-Returns moved u b e)
      | inr (x, u, e) ↦
          let q : Returns {A = Unit {0}} (λ (w : EpochStore). (rejected x, restore id previous u)) s
              a t =
            rw e at h in
          absurd (cc)
    ]

branch_taken :
    (test : Bool) (m n : Exec EpochStore (Unit {0})) (s t : EpochStore) (a : Unit {0})
    → test ≡ true
    → Returns (if test then m else n) s a t
    → Returns m s a t
branch_taken true m n s t a e h = h
branch_taken false m n s t a e h = absurd (cc)

accept-advanced :
    (id : String) (requested : ℕ) (s t : EpochStore) (a : Accepted)
    → Returns (accept id requested) s a t
    → a.advanced ≡ true
    → (is_safe_integer requested ≡ true)
      × (t.epochs ≡ insert id requested s.epochs)
      × (held_by s.path t.host.trace ≡ some t.epochs)
unfolding accept pure
accept-advanced id requested s t a h up =
    let (safe, h1) = Returns-refuse _ _ _ s t a h in
    let (fresh, h2) = Returns-refuse _ _ _ s t a (Returns-gets _ _ s t a h1) in
    let (c, u, moved, last) = Returns-bind _ _ s t a h2 in
    let newer : ltb (epoch_of s.epochs id) requested ≡ true = cc in
    let there : t ≡ u = cc in
    let (grown, held) =
      advance-Returns id _ requested s u c (branch_taken _ _ _ s u c newer moved) in
    (ground (arith, safe), rw there grown, rw there held)

-- A worker that is restarted right after a request has moved an epoch loads the epochs that it
-- held: the one that moved, and each other as it was. That is for a store that holds no id twice
-- and only safe epochs, and a restart that can read the file, where it finds the epochs that were
-- written last to what was last renamed there.
pub accept_survives :
    (id : String) (requested : ℕ) (s t u : EpochStore) (a : Accepted)
    → Distinct s.epochs
    → AreSafe s.epochs
    → Returns (accept id requested) s a t
    → a.advanced ≡ true
    → Restarted s.path t.host.trace u
    → ((load u).0 ≡ fulfilled tt)
      × ((j : String)
          → epoch_of (load u).1.epochs j ≡ (if id === j then requested else epoch_of s.epochs j))
unfolding lookup
accept_survives id requested s t u a distinct all_safe accepted up restarted =
    let (safe, moved, held) = accept-advanced id requested s t a accepted up in
    let loaded =
      load-Restarted s.path t.host.trace (insert id requested s.epochs) u restarted
        (held ∙ ap some moved) (insert-AreSafe id requested s.epochs safe all_safe) in
    (
      rw loaded refl,
      λ j. rw loaded (
          ground (
            arith,
            lookup-read_into j (insert id requested s.epochs) []
                (insert-Distinct id requested s.epochs distinct),
            lookup-insert id j requested s.epochs,
            eq_iff id j,
          )),
    )
