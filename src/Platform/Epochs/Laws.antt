-- ===== src/Platform/Epochs/Laws.antt =====
-- `accept` of packages/agent/src/platform/epochs.ts, on each of its branches.
use firemig.Prelude.{
  ℕ, ◌≤◌, ◌<◌, ◌≡◌, refl, sym, ap, ◌∙◌, String, true, List, arith, eq_iff, ltb, ◌==◌, ◌===◌,
  if◌then◌else◌, inl, inr, Bool-cases,
}
use firemig.Prelude.Entries.{
  insert, Distinct, lookup-insert, lookup-erase, insert-Distinct, erase-Distinct,
}
use firemig.Exec.{Settled, Settled-cases, fulfilled, rejected, Exec, pure, ◌>>=◌}
use firemig.Exec.Keeps.{Keeps, keeps_rules}
use firemig.Platform.Paths.{is_safe_integer}
use firemig.Platform.Host.{Host}
use firemig.Platform.Epochs.{
  EpochStore, Accepted, epoch_of, on_host, persist, restore, advance, accept,
}

-- Calls outside leave the map alone.
abbrev HasEpochs : List (String × ℕ) → EpochStore → Type 0
HasEpochs epochs s = s.epochs ≡ epochs

on_host-HasEpochs :
    {A : Type 0} (epochs : List (String × ℕ)) (m : Exec Host A)
    → Keeps (HasEpochs epochs) (on_host m)
unfolding on_host
on_host-HasEpochs epochs m = record { at = λ s h. h }

persist-HasEpochs : (epochs : List (String × ℕ)) → Keeps (HasEpochs epochs) persist
unfolding persist
persist-HasEpochs epochs = search (keeps_rules, on_host-HasEpochs) depth 24

pub epochs-persist : (s : EpochStore) → (persist s).1.epochs ≡ s.epochs
epochs-persist s = (persist-HasEpochs s.epochs).at s refl

-- What holds once `advance` has settled: the epoch is `requested`, or it is back at `previous`.
abbrev Moved : String → ℕ → EpochStore → Settled (Unit {0}) × EpochStore → Type 0
Moved id requested s (fulfilled _, t) =
    Distinct t.epochs
    × ((j : String) → epoch_of t.epochs j ≡ (if id === j then requested else epoch_of s.epochs j))
Moved id requested s (rejected _, t) =
    Distinct t.epochs × ((j : String) → epoch_of t.epochs j ≡ epoch_of s.epochs j)

restored :
    (id : String) (requested : ℕ) (s t : EpochStore)
    → Distinct s.epochs
    → t.epochs ≡ insert id requested s.epochs
    → Distinct (restore id (epoch_of s.epochs id) t).epochs
      × ((j : String)
          → epoch_of (restore id (epoch_of s.epochs id) t).epochs j ≡ epoch_of s.epochs j)
restored id requested s t d e = elim (Bool-cases (epoch_of s.epochs id == 0)) [
  | inl zero_before ↦
      rw (zero_before, e)
        (
          erase-Distinct id _ (insert-Distinct id requested _ d),
          λ j. ground (
            arith,
            lookup-erase id j (insert id requested s.epochs) (insert-Distinct id requested _ d),
            lookup-insert id j requested s.epochs,
            eq_iff id j,
          ),
        )
  | inr before ↦
      rw (before, e)
        (
          insert-Distinct id _ _ (insert-Distinct id requested _ d),
          λ j. ground (
            arith,
            lookup-insert id j (epoch_of s.epochs id) (insert id requested s.epochs),
            lookup-insert id j requested s.epochs,
            eq_iff id j,
          ),
        )
]

advance-Moved :
    (id : String) (requested : ℕ) (s : EpochStore)
    → Distinct s.epochs
    → Moved id requested s (advance id (epoch_of s.epochs id) requested s)
unfolding advance ◌>>=◌
advance-Moved id requested s d =
    let t = record s { epochs = insert id requested s.epochs } in
    elim (Settled-cases (persist t)) [
      | inl (_, u, e) ↦
          let same : u.epochs ≡ t.epochs =
            ap (λ (r : Settled (Unit {0}) × EpochStore). r.1.epochs) (sym e) ∙ epochs-persist t in
          rw e (
            rw same (
              insert-Distinct id requested _ d,
              λ j. ground (arith, lookup-insert id j requested s.epochs),
            ))
      | inr (_, u, e) ↦
          let same : u.epochs ≡ t.epochs =
            ap (λ (r : Settled (Unit {0}) × EpochStore). r.1.epochs) (sym e) ∙ epochs-persist t in
          rw e (restored id requested s u d same)
    ]

abbrev pub Accepts : String → ℕ → EpochStore → Settled Accepted × EpochStore → Type 0
Accepts id requested s (fulfilled a, t) =
    (a.previous ≡ epoch_of s.epochs id)
    × (a.previous ≤ requested)
    × (a.advanced ≡ ltb a.previous requested)
    × Distinct t.epochs
    × ((j : String) → epoch_of t.epochs j ≡ (if id === j then requested else epoch_of s.epochs j))
Accepts id requested s (rejected _, t) =
    Distinct t.epochs × ((j : String) → epoch_of t.epochs j ≡ epoch_of s.epochs j)

advanced :
    (id : String) (requested : ℕ) (s : EpochStore)
    → Distinct s.epochs
    → epoch_of s.epochs id < requested
    → Accepts id requested s (
        (advance id (epoch_of s.epochs id) requested >>= λ _.
        pure (record { previous = epoch_of s.epochs id; advanced = true }))
          s)
unfolding ◌>>=◌
advanced id requested s d h =
    let moved = advance-Moved id requested s d in
    elim (Settled-cases (advance id (epoch_of s.epochs id) requested s)) [
      | inl (a, t, e) ↦
          let m : Moved id requested s (fulfilled a, t) = rw e at moved in
          rw e (refl, omega arith, ground arith, m.0, m.1)
      | inr (x, t, e) ↦ rw e (rw e at moved)
    ]

-- Accepting an epoch moves that id to it and leaves every other alone; an epoch that is refused, or
-- that could not be written, leaves every id where it was.
pub accept-Accepts :
    (id : String) (requested : ℕ) (s : EpochStore)
    → Distinct s.epochs
    → Accepts id requested s (accept id requested s)
unfolding accept ◌>>=◌
accept-Accepts id requested s d = elim (Bool-cases (is_safe_integer requested)) [
  | inr unsafe ↦ rw unsafe (d, λ j. refl)
  | inl safe ↦ elim (Bool-cases (ltb requested (epoch_of s.epochs id))) [
    | inl stale ↦ rw (safe, stale) (d, λ j. refl)
    | inr fresh ↦ elim (Bool-cases (ltb (epoch_of s.epochs id) requested)) [
      | inl newer ↦ rw (safe, fresh, newer) (advanced id requested s d (ground arith))
      | inr same ↦
          rw (safe, fresh, same) (refl, ground arith, sym same, d, λ j. ground (arith, eq_iff id j))
    ]
  ]
]
