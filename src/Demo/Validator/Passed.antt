-- ===== src/Demo/Validator/Passed.antt =====
-- packages/demo/src/validator.ts: what a passed report says of the events.
use firemig.Prelude.{
  ◌<◌, ◌≡◌, sym, ◌∙◌, String, true, List, [], ◌∷◌, map, all, All, All-map, ◌===◌, eq_iff, arith,
  length,
}
use firemig.Prelude.Integers.{ℤ, pos, ◌≤ℤ◌, eqb_ℤ, eqb_ℤ_iff}
use firemig.Demo.Events.{CounterEvent}
use firemig.Demo.Sequence.{analyze_sequence, analyze_numbers, expected, seq_of}
use firemig.Demo.Sequence.Exact.{exact_iff}
use firemig.Demo.Validator.{
  ValidationInput, or_default, event_of, same_boot, same_pid, monotonic, monotonic_from,
  validate_continuity,
}

-- Of one boot and one process.
abbrev Same : String → ℤ → CounterEvent → Type 0
Same boot pid event = (event.boot_id ≡ boot) × (event.pid ≡ pid)

-- A later event of the same boot and process that has not counted back.
abbrev pub Follows : CounterEvent → CounterEvent → Type 0
Follows event later =
    (later.boot_id ≡ event.boot_id) × (later.pid ≡ event.pid) × (event.counter ≤ℤ later.counter)

-- Every event is followed so by all that come after it.
abbrev pub Continuous : List CounterEvent → Type 0
Continuous [] = Unit
Continuous (event ∷ rest) = All (Follows event) rest × Continuous rest

Same-All :
    (boot : String) (pid : ℤ) (events : List CounterEvent)
    → all (λ event. event.boot_id === boot) events ≡ true
    → all (λ event. eqb_ℤ event.pid pid) events ≡ true
    → All (Same boot pid) events
Same-All boot pid [] h k = tt
Same-All boot pid (event ∷ rest) h k = (
  (ground (arith, eq_iff event.boot_id boot), ground (arith, eqb_ℤ_iff event.pid pid)),
  Same-All boot pid rest (ground arith) (ground arith),
)

monotonic_from-All :
    (before : CounterEvent) (events : List CounterEvent)
    → monotonic_from before events ≡ true
    → All (λ later. before.counter ≤ℤ later.counter) events
unfolding monotonic_from
monotonic_from-All before [] h = tt
monotonic_from-All before (event ∷ rest) h =
    let first : before.counter ≤ℤ event.counter = ground arith in
    (
      first,
      All-map (λ later. event.counter ≤ℤ later.counter) (λ later. before.counter ≤ℤ later.counter)
          (λ later after. omega arith) rest (monotonic_from-All event rest (ground arith)),
    )

Follows-All :
    (event : CounterEvent) (boot : String) (pid : ℤ) (rest : List CounterEvent)
    → Same boot pid event
    → All (Same boot pid) rest
    → All (λ later. event.counter ≤ℤ later.counter) rest
    → All (Follows event) rest
Follows-All event boot pid [] s h k = tt
Follows-All event boot pid (later ∷ rest) s h k =
    ((h.0.0 ∙ sym s.0, h.0.1 ∙ sym s.1, k.0), Follows-All event boot pid rest s h.1 k.1)

Continuous-cons :
    (boot : String) (pid : ℤ) (event : CounterEvent) (rest : List CounterEvent)
    → Same boot pid event
    → All (Same boot pid) rest
    → monotonic_from event rest ≡ true
    → Continuous (event ∷ rest)
unfolding monotonic_from
Continuous-cons boot pid event [] s h m = (tt, tt)
Continuous-cons boot pid event (later ∷ rest) s h m = (
  Follows-All event boot pid (later ∷ rest) s h (monotonic_from-All event (later ∷ rest) m),
  Continuous-cons boot pid later rest h.0 h.1 (ground arith),
)

Continuous-events :
    (events : List CounterEvent)
    → same_boot events ≡ true
    → same_pid events ≡ true
    → monotonic events ≡ true
    → (0 < length events) × Continuous events
unfolding same_boot same_pid monotonic
Continuous-events [] b p m = cc
Continuous-events (first ∷ rest) b p m =
    let same = Same-All first.boot_id first.pid (first ∷ rest) b p in
    (omega arith, Continuous-cons first.boot_id first.pid first rest same.0 same.1 m)

-- What a passed validation says of the events and of the run.
abbrev pub Verified : ValidationInput → Type 0
Verified input =
    let events = map event_of input.observations in
    (map seq_of events
      ≡ expected (or_default (pos 1) input.expected_start) (or_default (pos 50) input.expected_end))
    × (0 < length events)
    × Continuous events
    × (input.reconnect_count ≡ 0)
    × (or_default true input.queued_command_accepted ≡ true)
    × (or_default true input.queued_command_replayed ≡ true)

-- A validation passes only if at least one event was observed, their numbers are those expected in
-- their order, each event has the boot and the process of every earlier one and no lower counter,
-- the client never reconnected, and the queued command, if it was tried, was accepted and replayed.
pub passed-Verified :
    (input : ValidationInput) → (validate_continuity input).passed ≡ true → Verified input
unfolding validate_continuity analyze_sequence
passed-Verified input h =
    let events = map event_of input.observations in
    let first = or_default (pos 1) input.expected_start in
    let last = or_default (pos 50) input.expected_end in
    let exact : (analyze_numbers (map seq_of events) first last).exact_sequence ≡ true =
      ground arith in
    let boots : same_boot events ≡ true = ground arith in
    let pids : same_pid events ≡ true = ground arith in
    let counted : monotonic events ≡ true = ground arith in
    let (some_events, continuous) = Continuous-events events boots pids counted in
    (
      (exact_iff first last (map seq_of events)).1.0 exact,
      some_events,
      continuous,
      ground arith,
      ground arith,
      ground arith,
    )
