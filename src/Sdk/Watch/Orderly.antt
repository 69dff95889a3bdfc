-- ===== src/Sdk/Watch/Orderly.antt =====
-- packages/sdk/src/client/migration.ts: a watcher ends where the migration does.
use firemig.Prelude.{
  ◌≡◌, refl, ◌⊎◌, inl, inr, String, Bool, true, false, ◌||◌, Option, none, some, List, [], ◌∷◌,
  ◌++◌, if◌then◌else◌, arith, Option-cases, Bool-cases,
}
use firemig.Common.Phases.{is_terminal_phase, is_failure}
use firemig.Sdk.Progress.{
  Phase, known, unknown, terminal, failing, Progress, WatchError, Parsed, parsed, refused,
  progress_in,
}
use firemig.Sdk.Sse.{Text, SseEvent, codes, same_text}
use firemig.Sdk.Watch.{
  Behind, closes, breaks, stays_open, End, returned, threw, Watched, Coordinator, Polled, status,
  poll_failed, migration_error, hear, event_end, before_rest, or_last,
}

failing_is_terminal : (p : Phase) → terminal p ≡ false → failing p ≡ false
unfolding is_terminal_phase is_failure
failing_is_terminal (known p) h = ground arith
failing_is_terminal (unknown s) h = refl

module _ (migration_id : String) (coordinator : Coordinator) where
  -- How a watcher ends at a progress that it yielded last.
  abbrev pub EndsAt : Progress → End → Type 0
  EndsAt p end =
      (terminal p.phase ≡ false)
      ⊎ ((failing p.phase ≡ false) × (end ≡ returned))
      ⊎ (end ≡ threw (migration_error migration_id p))

  -- No progress but the last has a phase at which the migration is over.
  abbrev pub Orderly : List Progress → End → Type 0
  Orderly [] end = Unit
  Orderly (p ∷ []) end = EndsAt p end
  Orderly (p ∷ q ∷ rest) end = (terminal p.phase ≡ false) × Orderly (q ∷ rest) end

  -- All of them are short of the end.
  abbrev pub Running : List Progress → Type 0
  Running [] = Unit
  Running (p ∷ rest) = (terminal p.phase ≡ false) × Running rest

  Orderly-append :
      (yields rest : List Progress) (end : End)
      → Running yields
      → Orderly rest end
      → Orderly (yields ++ rest) end
  Orderly-append [] rest end r o = o
  Orderly-append (p ∷ []) [] end r o = inl r.0
  Orderly-append (p ∷ []) (q ∷ rest) end r o = (r.0, o)
  Orderly-append (p ∷ q ∷ yields) rest end r o = (r.0, Orderly-append (q ∷ yields) rest end r.1 o)

  -- The fuel was enough for an outcome, and that is an orderly one.
  abbrev pub OrderlyWatch : Option Watched → Type 0
  OrderlyWatch none = ⊥
  OrderlyWatch (some w) = Orderly w.yields w.end

  pub before_rest-Orderly :
      (yields : List Progress) (rest : Option Watched)
      → Running yields
      → OrderlyWatch rest
      → OrderlyWatch (before_rest yields rest)
  before_rest-Orderly yields none r o = o
  before_rest-Orderly yields (some w) r o = Orderly-append yields w.yields w.end r o

  pub Running-Orderly : (yields : List Progress) (end : End) → Running yields → Orderly yields end
  Running-Orderly [] end r = tt
  Running-Orderly (p ∷ []) end r = inl r.0
  Running-Orderly (p ∷ q ∷ rest) end r = (r.0, Running-Orderly (q ∷ rest) end r.1)

  pub once-Orderly :
      (same : Bool) (p : Progress) (end : End)
      → EndsAt p end
      → Orderly (if same then [] else p ∷ []) end
  once-Orderly true p end e = tt
  once-Orderly false p end e = e

  pub once-Running :
      (same : Bool) (p : Progress)
      → terminal p.phase ≡ false
      → Running (if same then [] else p ∷ [])
  once-Running true p h = tt
  once-Running false p h = (h, tt)

  pub Polled-cases :
      (p : Polled) → ((q : Progress) × (p ≡ status q)) ⊎ ((e : WatchError) × (p ≡ poll_failed e))
  Polled-cases (status q) = inl (q, refl)
  Polled-cases (poll_failed e) = inr (e, refl)

  event_end-EndsAt :
      (event : SseEvent) (p : Progress) (end : End)
      → event_end migration_id coordinator event p ≡ some end
      → EndsAt p end
  event_end-EndsAt event p end h =
      elim (Bool-cases (same_text event.event (codes "error") || failing p.phase)) [
        | inl bad ↦ inr (
            inr (
              let q : some (threw (migration_error migration_id p)) ≡ some end = rw bad at h in cc))
        | inr good ↦ elim (Bool-cases (same_text event.event (codes "done") || terminal p.phase)) [
          | inl over ↦
              let q : some returned ≡ some end = rw (good, over) at h in
              inr (inl (ground arith, cc))
          | inr more ↦
              let q : ◌≡◌ {A = Option End} none (some end) = rw (good, more) at h in absurd (cc)
        ]
      ]

  event_end-Running :
      (event : SseEvent) (p : Progress)
      → event_end migration_id coordinator event p ≡ none
      → terminal p.phase ≡ false
  event_end-Running event p h = elim (Bool-cases (terminal p.phase)) [
    | inr under_way ↦ under_way
    | inl over ↦ ground arith
  ]

  -- A stream that ends without an end of the watcher yielded only progress on the way.
  abbrev pub HeardWell : List Progress → Option End → Type 0
  HeardWell heard none = Running heard
  HeardWell heard (some end) = Orderly heard end

  heard-cons :
      (p : Progress) (heard : List Progress) (ended : Option End)
      → terminal p.phase ≡ false
      → HeardWell heard ended
      → HeardWell (p ∷ heard) ended
  heard-cons p heard none h w = (h, w)
  heard-cons p heard (some end) h w = Orderly-append (p ∷ []) heard end (h, tt) w

  pub Parsed-cases :
      (r : Parsed) → ((p : Progress) × (r ≡ parsed p)) ⊎ ((e : WatchError) × (r ≡ refused e))
  Parsed-cases (parsed p) = inl (p, refl)
  Parsed-cases (refused e) = inr (e, refl)

  pub hear-HeardWell :
      (events : List SseEvent) (behind : Behind) (last_id : Option Text)
      → let h = hear migration_id coordinator events behind last_id in HeardWell h.heard h.ended
  unfolding hear
  hear-HeardWell [] closes last_id = tt
  hear-HeardWell [] breaks last_id = tt
  hear-HeardWell [] stays_open last_id = tt
  hear-HeardWell (event ∷ rest) behind last_id =
      elim (Parsed-cases (progress_in (coordinator.parse_json event.content) event.id)) [
        | inr (error, e) ↦ rw (e, hear) tt
        | inl (p, e) ↦ elim (Option-cases (event_end migration_id coordinator event p)) [
          | inr (end, over) ↦ rw (e, over, hear) (event_end-EndsAt event p end over)
          | inl going ↦
              let later = hear-HeardWell rest behind (or_last event.id last_id) in
              rw (e, going, hear) (heard-cons p _ _ (event_end-Running event p going) later)
        ]
      ]
