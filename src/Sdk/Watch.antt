-- ===== src/Sdk/Watch.antt =====
-- packages/sdk/src/client/migration.ts and migration-progress.ts: following a migration by events,
-- and by polling where there is no stream of events.
pub mod Orderly
pub mod Causes
pub mod Ends
use firemig.Prelude.{
  ℕ, zero, suc, ◌+◌, String, Bool, false, ◌&&◌, ◌||◌, Option, none, some, List, [], ◌∷◌, ◌++◌,
  ◌===◌, if◌then◌else◌,
}
use firemig.Prelude.Integers.{eqb_ℤ}
use firemig.Common.Errors.{FiremigError, internal}
use firemig.Common.Json.{Json, Number, integer, fraction}
use firemig.Sdk.Errors.{migration_failed_error}
use firemig.Sdk.Progress.{
  terminal, failing, Progress, WatchError, api_failed, interrupted, stream_broken, parsed, refused,
  progress_in,
}
use firemig.Sdk.Sse.{Text, SseEvent, codes, same_text}

-- `listening` is no end: the watcher waits for the next event of a stream that stays open.
pub data End : Type 0 where
  returned listening : End
  threw : WatchError → End

-- What a watcher has yielded, and how it ended.
pub record Watched : Type 0 where
  pub yields : List Progress
  pub end : End

abbrev or_internal : Option FiremigError → FiremigError
or_internal none = record { code = internal; retryable = false; status = none }
or_internal (some body) = body

-- `migrationError(progress)`
unfoldable pub migration_error : String → Progress → WatchError
migration_error migration_id progress =
    api_failed (record {
      class_name = migration_failed_error migration_id;
      body = or_internal progress.error;
    })

-- `status` of one poll: what the coordinator reports, or a failure of the request.
pub data Polled : Type 0 where
  status : Progress → Polled
  poll_failed : WatchError → Polled

-- A stream of events, and what it does behind them. One that never ends stays open behind any
-- number of its events.
pub data Behind : Type 0 where
  closes breaks stays_open : Behind

pub record Stream : Type 0 where
  pub events : List SseEvent
  pub behind : Behind

-- What the coordinator and the signal of the caller do.
pub record Coordinator : Type 0 where
  pub parse_json : Text → Option Json
  pub open_stream : ℕ → Option Text → Option Stream
  pub poll_status : ℕ → Polled
  pub stream_sleep_rejects : ℕ → Bool
  pub poll_sleep_rejects : ℕ → Bool

abbrev same_number : Number → Number → Bool
same_number (integer a) (integer b) = eqb_ℤ a b
same_number (fraction s) (fraction t) = s === t
same_number _ _ = false

-- The signatures `phase:transferred:total` of two statuses are the same; there is none at first.
unfoldable pub same_signature : Option Progress → Progress → Bool
same_signature none now = false
same_signature (some before) now =
    before.phase_text === now.phase_text
    && same_number before.bytes_transferred now.bytes_transferred
    && same_number before.bytes_total now.bytes_total

abbrev pub before_rest : List Progress → Option Watched → Option Watched
before_rest yields none = none
before_rest yields (some rest) = some (record { yields = yields ++ rest.yields; end = rest.end })

abbrev pub or_last : Option Text → Option Text → Option Text
or_last none kept = kept
or_last (some id) kept = some id

-- What the events of one stream came to: how the watcher ended, or that the stream did.
pub record Heard : Type 0 where
  pub heard : List Progress
  pub last_id : Option Text
  pub ended : Option End

abbrev pub end_behind : Behind → Option End
end_behind closes = none
end_behind breaks = some (threw stream_broken)
end_behind stays_open = some listening

abbrev pub or_two : Option ℕ → ℕ
or_two none = 2
or_two (some n) = n

module _ (migration_id : String) (coordinator : Coordinator) where
  unfoldable pub poll : ℕ → ℕ → Option Progress → Option Watched
  unfolding same_signature
  poll zero i before = none
  poll (suc fuel) i before = elim (coordinator.poll_status i) [
    | poll_failed error ↦ some (record { yields = []; end = threw error })
    | status progress ↦
        let yields = if same_signature before progress then [] else progress ∷ [] in
        let rest = before_rest yields (poll fuel (i + 1) (some progress)) in
        if failing progress.phase
        then some (record { yields = yields; end = threw (migration_error migration_id progress) })
        else if terminal progress.phase
        then some (record { yields = yields; end = returned })
        else if coordinator.poll_sleep_rejects i
        then some (record { yields = yields; end = threw interrupted })
        else rest
  ]

  abbrev pub event_end : SseEvent → Progress → Option End
  event_end event progress =
      if same_text event.event (codes "error") || failing progress.phase
      then some (threw (migration_error migration_id progress))
      else if same_text event.event (codes "done") || terminal progress.phase
      then some returned
      else none

  unfoldable pub hear : List SseEvent → Behind → Option Text → Heard
  hear [] behind last_id = record { heard = []; last_id = last_id; ended = end_behind behind }
  hear (event ∷ rest) behind last_id =
      let id = or_last event.id last_id in
      let later = hear rest behind id in
      elim (progress_in (coordinator.parse_json event.content) event.id) [
        | refused error ↦ record { heard = []; last_id = id; ended = some (threw error) }
        | parsed progress ↦ elim (event_end event progress) [
          | some end ↦ record { heard = progress ∷ []; last_id = id; ended = some end }
          | none ↦ record {
            heard = progress ∷ later.heard;
            last_id = later.last_id;
            ended = later.ended;
          }
        ]
      ]

  -- The loop over the streams: behind each, a sleep and the next one while reconnections are left,
  -- and polling where there is no stream or none is left.
  unfoldable pub follow : ℕ → ℕ → ℕ → Option Text → Option Watched
  unfolding poll hear
  follow fuel zero n last_id = elim (coordinator.open_stream n last_id) [
    | none ↦ poll fuel 0 none
    | some stream ↦
        let h = hear stream.events stream.behind last_id in
        elim h.ended [
          | some end ↦ some (record { yields = h.heard; end = end })
          | none ↦ before_rest h.heard (poll fuel 0 none)
        ]
  ]
  follow fuel (suc left) n last_id = elim (coordinator.open_stream n last_id) [
    | none ↦ poll fuel 0 none
    | some stream ↦
        let h = hear stream.events stream.behind last_id in
        elim h.ended [
          | some end ↦ some (record { yields = h.heard; end = end })
          | none ↦
              let rest = before_rest h.heard (follow fuel left (n + 1) h.last_id) in
              if coordinator.stream_sleep_rejects n
              then some (record { yields = h.heard; end = threw interrupted })
              else rest
        ]
  ]

  -- `watch`, with fuel for its polls.
  unfoldable pub watch : ℕ → Option ℕ → Option Watched
  unfolding follow
  watch fuel max_sse_reconnects = follow fuel (or_two max_sse_reconnects) 0 none
