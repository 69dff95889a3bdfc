-- ===== src/Sdk/Watch/Causes.antt =====
-- packages/sdk/src/client/migration.ts: why a watcher ends as it does.
use firemig.Prelude.{
  ℕ, zero, suc, ◌+◌, ◌≡◌, refl, subst, String, true, false, ◌||◌, Option, none, some, List, [], ◌∷◌,
  ◌⊎◌, inl, inr, Option-cases, Bool-cases,
}
use firemig.Sdk.Progress.{
  terminal, failing, Progress, WatchError, interrupted, stream_broken, parsed, refused, progress_in,
}
use firemig.Sdk.Sse.{Text, SseEvent, codes, same_text}
use firemig.Sdk.Watch.{
  End, returned, listening, threw, Watched, Coordinator, Stream, Behind, closes, breaks, stays_open,
  end_behind, status, poll_failed, migration_error, poll, hear, event_end, follow, watch,
  before_rest, or_two, or_last,
}
use firemig.Sdk.Watch.Orderly.{Polled-cases, Parsed-cases}

abbrev pub OneOf : SseEvent → List SseEvent → Type 0
OneOf event [] = ⊥
OneOf event (e ∷ rest) = (event ≡ e) ⊎ OneOf event rest

module _ (migration_id : String) (coordinator : Coordinator) where
  -- The event stands in a stream that was opened, and is read as the progress.
  pub record Brought (event : SseEvent) (p : Progress) : Type 0 where
    pub nth : ℕ
    pub last_id : Option Text
    pub stream : Stream
    pub opens : coordinator.open_stream nth last_id ≡ some stream
    pub among : OneOf event stream.events
    pub reads : progress_in (coordinator.parse_json event.content) event.id ≡ parsed p

  -- Why a watcher ends so.
  pub data Cause : End → Type 0 where
    status_over :
        (i : ℕ) (p : Progress)
        → coordinator.poll_status i ≡ status p
        → failing p.phase ≡ false
        → terminal p.phase ≡ true
        → Cause returned
    status_failed :
        (i : ℕ) (p : Progress)
        → coordinator.poll_status i ≡ status p
        → failing p.phase ≡ true
        → Cause (threw (migration_error migration_id p))
    request_failed :
        (i : ℕ) (error : WatchError)
        → coordinator.poll_status i ≡ poll_failed error
        → Cause (threw error)
    poll_aborted : (i : ℕ) → coordinator.poll_sleep_rejects i ≡ true → Cause (threw interrupted)
    stream_aborted : (n : ℕ) → coordinator.stream_sleep_rejects n ≡ true → Cause (threw interrupted)
    event_over :
        (event : SseEvent) (p : Progress)
        → Brought event p
        → (same_text event.event (codes "error") || failing p.phase) ≡ false
        → (same_text event.event (codes "done") || terminal p.phase) ≡ true
        → Cause returned
    event_failed :
        (event : SseEvent) (p : Progress)
        → Brought event p
        → (same_text event.event (codes "error") || failing p.phase) ≡ true
        → Cause (threw (migration_error migration_id p))
    event_refused :
        (n : ℕ) (last_id : Option Text) (stream : Stream) (event : SseEvent) (error : WatchError)
        → coordinator.open_stream n last_id ≡ some stream
        → OneOf event stream.events
        → progress_in (coordinator.parse_json event.content) event.id ≡ refused error
        → Cause (threw error)
    stream_breaks :
        (n : ℕ) (last_id : Option Text) (stream : Stream)
        → coordinator.open_stream n last_id ≡ some stream
        → stream.behind ≡ breaks
        → Cause (threw stream_broken)
    stream_stays_open :
        (n : ℕ) (last_id : Option Text) (stream : Stream)
        → coordinator.open_stream n last_id ≡ some stream
        → stream.behind ≡ stays_open
        → Cause listening

  abbrev pub Caused : Option Watched → Type 0
  Caused none = Unit
  Caused (some w) = Cause w.end

  before_rest-Caused :
      (yields : List Progress) (rest : Option Watched)
      → Caused rest
      → Caused (before_rest yields rest)
  before_rest-Caused yields none c = tt
  before_rest-Caused yields (some w) c = c

  poll-Caused :
      (fuel i : ℕ) (before : Option Progress) → Caused (poll migration_id coordinator fuel i before)
  unfolding poll
  poll-Caused zero i before = tt
  poll-Caused (suc fuel) i before =
      elim (Polled-cases migration_id coordinator (coordinator.poll_status i)) [
        | inr (error, e) ↦ rw (e, poll) (request_failed i error e)
        | inl (p, e) ↦ elim (Bool-cases (failing p.phase)) [
          | inl bad ↦ rw (e, bad, poll) (status_failed i p e bad)
          | inr good ↦ elim (Bool-cases (terminal p.phase)) [
            | inl over ↦ rw (e, good, over, poll) (status_over i p e good over)
            | inr under_way ↦ elim (Bool-cases (coordinator.poll_sleep_rejects i)) [
              | inl woken ↦ rw (e, good, under_way, woken, poll) (poll_aborted i woken)
              | inr slept ↦
                  rw (e, good, under_way, slept, poll)
                    (before_rest-Caused _ _ (poll-Caused fuel (i + 1) (some p)))
            ]
          ]
        ]
      ]

  abbrev HeardCause : Option End → Type 0
  HeardCause none = Unit
  HeardCause (some end) = Cause end

  module _ (n : ℕ) (opened_from : Option Text) (stream : Stream)
      (opens : coordinator.open_stream n opened_from ≡ some stream) where
    behind-HeardCause : (b : Behind) → stream.behind ≡ b → HeardCause (end_behind b)
    behind-HeardCause closes e = tt
    behind-HeardCause breaks e = stream_breaks n opened_from stream opens e
    behind-HeardCause stays_open e = stream_stays_open n opened_from stream opens e

    event_end-HeardCause :
        (event : SseEvent) (p : Progress)
        → Brought event p
        → HeardCause (event_end migration_id coordinator event p)
    event_end-HeardCause event p brought =
        elim (Bool-cases (same_text event.event (codes "error") || failing p.phase)) [
          | inl bad ↦ rw bad (event_failed event p brought bad)
          | inr good ↦
              elim (Bool-cases (same_text event.event (codes "done") || terminal p.phase)) [
                | inl over ↦ rw (good, over) (event_over event p brought good over)
                | inr more ↦ rw (good, more) tt
              ]
        ]

    hear-HeardCause :
        (events : List SseEvent) (last_id : Option Text)
        → ((event : SseEvent) → OneOf event events → OneOf event stream.events)
        → HeardCause (hear migration_id coordinator events stream.behind last_id).ended
    unfolding hear
    hear-HeardCause [] last_id inside = behind-HeardCause stream.behind refl
    hear-HeardCause (event ∷ rest) last_id inside =
        let here = inside event (inl refl) in
        elim (Parsed-cases migration_id coordinator
          (progress_in (coordinator.parse_json event.content) event.id)) [
            | inr (error, e) ↦
                rw (e, hear) (event_refused n opened_from stream event error opens here e)
            | inl (p, e) ↦
                let brought : Brought event p = record {
                  nth = n;
                  last_id = opened_from;
                  stream = stream;
                  opens = opens;
                  among = here;
                  reads = e;
                } in
                let cause = event_end-HeardCause event p brought in
                elim (Option-cases (event_end migration_id coordinator event p)) [
                  | inr (end, over) ↦ rw (e, over, hear) (subst HeardCause over cause)
                  | inl going ↦
                      rw (e, going, hear)
                        (hear-HeardCause rest (or_last event.id last_id)
                          (λ other among. inside other (inr among)))
                ]
          ]

  follow-Caused :
      (fuel left n : ℕ) (last_id : Option Text)
      → Caused (follow migration_id coordinator fuel left n last_id)
  unfolding follow
  follow-Caused fuel zero n last_id = elim (Option-cases (coordinator.open_stream n last_id)) [
    | inl absent ↦ rw (absent, follow) (poll-Caused fuel 0 none)
    | inr (stream, e) ↦
        let h = hear migration_id coordinator stream.events stream.behind last_id in
        let cause =
          hear-HeardCause n last_id stream e stream.events last_id (λ other among. among) in
        elim (Option-cases h.ended) [
          | inr (end, ended) ↦ rw (e, ended, follow) (subst HeardCause ended cause)
          | inl going ↦
              rw (e, going, follow) (before_rest-Caused h.heard _ (poll-Caused fuel 0 none))
        ]
  ]
  follow-Caused fuel (suc left) n last_id =
      elim (Option-cases (coordinator.open_stream n last_id)) [
        | inl absent ↦ rw (absent, follow) (poll-Caused fuel 0 none)
        | inr (stream, e) ↦
            let h = hear migration_id coordinator stream.events stream.behind last_id in
            let cause =
              hear-HeardCause n last_id stream e stream.events last_id (λ other among. among) in
            elim (Option-cases h.ended) [
              | inr (end, ended) ↦ rw (e, ended, follow) (subst HeardCause ended cause)
              | inl going ↦ elim (Bool-cases (coordinator.stream_sleep_rejects n)) [
                | inl woken ↦ rw (e, going, woken, follow) (stream_aborted n woken)
                | inr slept ↦
                    rw (e, going, slept, follow)
                      (before_rest-Caused h.heard _ (follow-Caused fuel left (n + 1) h.last_id))
              ]
            ]
      ]

  pub watch-Caused :
      (fuel : ℕ) (max_sse_reconnects : Option ℕ)
      → Caused (watch migration_id coordinator fuel max_sse_reconnects)
  unfolding watch
  watch-Caused fuel max_sse_reconnects = follow-Caused fuel (or_two max_sse_reconnects) 0 none
