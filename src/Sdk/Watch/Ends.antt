-- ===== src/Sdk/Watch/Ends.antt =====
-- packages/sdk/src/client/migration.ts: polling, and a watcher as a whole.
use firemig.Prelude.{
  ℕ, zero, suc, ◌+◌, ◌≤◌, ◌<◌, ◌≡◌, refl, sym, subst, ◌∙◌, ◌==◌, ==_iff, inl, inr, String, true,
  false, Option, none, some, arith, Option-cases, Bool-cases,
}
use firemig.Sdk.Progress.{terminal, failing, Progress}
use firemig.Sdk.Sse.{Text}
use firemig.Sdk.Watch.{Coordinator, status, poll, hear, follow, watch, same_signature, or_two}
use firemig.Sdk.Watch.Orderly.{
  OrderlyWatch, HeardWell, hear-HeardWell, Polled-cases, before_rest-Orderly, once-Orderly,
  once-Running, Running-Orderly,
}
use firemig.Sdk.Watch.Causes.{Caused, watch-Caused}

module _ (migration_id : String) (coordinator : Coordinator) where
  module _ (last : ℕ) (final : Progress) (reported : coordinator.poll_status last ≡ status final)
      (over : terminal final.phase ≡ true) where
    -- A status on the way is none of the last poll.
    before_last :
        (i : ℕ) (p : Progress)
        → i ≤ last
        → coordinator.poll_status i ≡ status p
        → terminal p.phase ≡ false
        → i < last
    before_last i p h e under_way = elim (Bool-cases (i == last)) [
      | inr other ↦ ground arith
      | inl same ↦
          let q : i ≡ last = (==_iff i last).0 same in
          let r : status p ≡ status final = rw q at (sym e) ∙ reported in absurd (cc)
    ]

    -- The poll that brings a terminal status ends the watcher, if none before it did.
    pub poll-Orderly :
        (fuel i : ℕ) (before : Option Progress)
        → i ≤ last
        → last < i + fuel
        → OrderlyWatch migration_id coordinator (poll migration_id coordinator fuel i before)
    unfolding poll
    poll-Orderly zero i before h enough = absurd (omega arith)
    poll-Orderly (suc fuel) i before h enough =
        elim (Polled-cases migration_id coordinator (coordinator.poll_status i)) [
          | inr (error, e) ↦ rw (e, poll) tt
          | inl (p, e) ↦
              let same = same_signature before p in
              elim (Bool-cases (failing p.phase)) [
                | inl bad ↦
                    rw (e, bad, poll)
                      (once-Orderly migration_id coordinator same p _ (inr (inr refl)))
                | inr good ↦ elim (Bool-cases (terminal p.phase)) [
                  | inl done ↦
                      rw (e, good, done, poll)
                        (once-Orderly migration_id coordinator same p _ (inr (inl (good, refl))))
                  | inr under_way ↦ elim (Bool-cases (coordinator.poll_sleep_rejects i)) [
                    | inl woken ↦
                        rw (e, good, under_way, woken, poll)
                          (once-Orderly migration_id coordinator same p _ (inl under_way))
                    | inr slept ↦
                        let sooner = before_last i p h e under_way in
                        rw (e, good, under_way, slept, poll)
                          (before_rest-Orderly migration_id coordinator _ _
                            (once-Running migration_id coordinator same p under_way)
                            (poll-Orderly fuel (i + 1) (some p) (omega arith) (omega arith)))
                  ]
                ]
              ]
        ]

    follow-Orderly :
        (left n : ℕ) (last_id : Option Text)
        → OrderlyWatch migration_id coordinator
            (follow migration_id coordinator (last + 1) left n last_id)
    unfolding follow
    follow-Orderly zero n last_id = elim (Option-cases (coordinator.open_stream n last_id)) [
      | inl absent ↦
          rw (absent, follow) (poll-Orderly (last + 1) 0 none (omega arith) (omega arith))
      | inr (stream, e) ↦
          let h = hear migration_id coordinator stream.events stream.behind last_id in
          let well = hear-HeardWell migration_id coordinator stream.events stream.behind last_id in
          elim (Option-cases h.ended) [
            | inr (end, ended) ↦
                rw (e, ended, follow)
                  (subst (HeardWell migration_id coordinator h.heard) ended well)
            | inl going ↦
                rw (e, going, follow)
                  (before_rest-Orderly migration_id coordinator h.heard _
                    (subst (HeardWell migration_id coordinator h.heard) going well)
                    (poll-Orderly (last + 1) 0 none (omega arith) (omega arith)))
          ]
    ]
    follow-Orderly (suc left) n last_id = elim (Option-cases (coordinator.open_stream n last_id)) [
      | inl absent ↦
          rw (absent, follow) (poll-Orderly (last + 1) 0 none (omega arith) (omega arith))
      | inr (stream, e) ↦
          let h = hear migration_id coordinator stream.events stream.behind last_id in
          let well = hear-HeardWell migration_id coordinator stream.events stream.behind last_id in
          elim (Option-cases h.ended) [
            | inr (end, ended) ↦
                rw (e, ended, follow)
                  (subst (HeardWell migration_id coordinator h.heard) ended well)
            | inl going ↦
                let running = subst (HeardWell migration_id coordinator h.heard) going well in
                elim (Bool-cases (coordinator.stream_sleep_rejects n)) [
                  | inl woken ↦
                      rw (e, going, woken, follow)
                        (Running-Orderly migration_id coordinator h.heard _ running)
                  | inr slept ↦
                      rw (e, going, slept, follow)
                        (before_rest-Orderly migration_id coordinator h.heard _ running
                          (follow-Orderly left (n + 1) h.last_id))
                ]
          ]
    ]

    -- Where some poll would report a terminal phase, a watcher ends, with fuel for the polls up to
    -- that one, or goes on listening to a stream that stays open. No progress that it yields, but the
    -- last, has a terminal phase, and at a terminal phase it throws the error of the migration, or
    -- returns, which it does not at a failure. It returns only if a status was terminal and no
    -- failure, or an event of a stream was terminal or named `done` and neither failing nor named
    -- `error`. It throws only for a status or an event that fails, a request that fails, an event
    -- that cannot be read, a stream that breaks off, or a sleep that is aborted.
    pub watch_ends :
        (max_sse_reconnects : Option ℕ)
        → let w = watch migration_id coordinator (last + 1) max_sse_reconnects in
          OrderlyWatch migration_id coordinator w × Caused migration_id coordinator w
    unfolding watch
    watch_ends max_sse_reconnects = (
      follow-Orderly (or_two max_sse_reconnects) 0 none,
      watch-Caused migration_id coordinator (last + 1) max_sse_reconnects,
    )
