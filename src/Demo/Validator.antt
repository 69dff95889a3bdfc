-- ===== src/Demo/Validator.antt =====
-- packages/demo/src/validator.ts: the verdict on one migration.
pub mod Passed
use firemig.Prelude.{
  ℕ, ◌+◌, String, Bool, true, false, ◌&&◌, Option, none, some, List, [], ◌∷◌, map, all, length,
  ◌==◌, ◌===◌, if◌then◌else◌,
}
use firemig.Prelude.Integers.{ℤ, pos, pos_part, neg_part, sub_ℕ, eqb_ℤ, leb_ℤ}
use firemig.Demo.Events.{CounterEvent, ObservedCounterEvent}
use firemig.Demo.Sequence.{SequenceAnalysis, analyze_sequence}

pub record ValidationInput : Type 0 where
  pub observations : List ObservedCounterEvent
  pub reconnect_count : ℕ
  pub expected_start : Option ℤ
  pub expected_end : Option ℤ
  pub queued_command_accepted : Option Bool
  pub queued_command_replayed : Option Bool

pub record ValidationReport : Type 0 where
  pub passed : Bool
  pub event_count : ℕ
  pub longest_event_gap_ms : ℤ
  pub boot_id_continuous : Bool
  pub pid_continuous : Bool
  pub counter_monotonic : Bool
  pub missing_seq : ℕ
  pub sequence : SequenceAnalysis
  pub queued_accepted : Bool
  pub queued_replayed : Bool

abbrev pub or_default {ℓ} : {A : Type ℓ} → A → Option A → A
or_default fallback none = fallback
or_default fallback (some a) = a

abbrev pub event_of : ObservedCounterEvent → CounterEvent
event_of observation = observation.event

unfoldable pub same_boot : List CounterEvent → Bool
same_boot [] = false
same_boot (first ∷ rest) = all (λ event. event.boot_id === first.boot_id) (first ∷ rest)

unfoldable pub same_pid : List CounterEvent → Bool
same_pid [] = false
same_pid (first ∷ rest) = all (λ event. eqb_ℤ event.pid first.pid) (first ∷ rest)

unfoldable pub monotonic_from : CounterEvent → List CounterEvent → Bool
monotonic_from before [] = true
monotonic_from before (event ∷ rest) =
    leb_ℤ before.counter event.counter && monotonic_from event rest

unfoldable pub monotonic : List CounterEvent → Bool
unfolding monotonic_from
monotonic [] = true
monotonic (first ∷ rest) = monotonic_from first rest

abbrev max_ℤ : ℤ → ℤ → ℤ
max_ℤ a b = if leb_ℤ a b then b else a

abbrev minus : ℤ → ℤ → ℤ
minus a b = sub_ℕ (pos_part a + neg_part b) (neg_part a + pos_part b)

unfoldable pub longest_from : ℤ → ObservedCounterEvent → List ObservedCounterEvent → ℤ
longest_from longest before [] = longest
longest_from longest before (now ∷ rest) =
    longest_from (max_ℤ longest (minus now.received_at_ms before.received_at_ms)) now rest

unfoldable pub longest_gap_ms : List ObservedCounterEvent → ℤ
unfolding longest_from
longest_gap_ms [] = pos 0
longest_gap_ms (first ∷ rest) = longest_from (pos 0) first rest

unfoldable pub validate_continuity : ValidationInput → ValidationReport
unfolding analyze_sequence same_boot same_pid monotonic longest_gap_ms
validate_continuity input =
    let events = map event_of input.observations in
    let sequence =
      analyze_sequence events (or_default (pos 1) input.expected_start)
        (or_default (pos 50) input.expected_end) in
    let accepted = or_default true input.queued_command_accepted in
    let replayed = or_default true input.queued_command_replayed in
    record {
      passed =
          sequence.exact_sequence
          && same_boot events
          && same_pid events
          && monotonic events
          && input.reconnect_count == 0
          && accepted
          && replayed;
      event_count = length events;
      longest_event_gap_ms = longest_gap_ms input.observations;
      boot_id_continuous = same_boot events;
      pid_continuous = same_pid events;
      counter_monotonic = monotonic events;
      missing_seq = length sequence.missing_numbers;
      sequence = sequence;
      queued_accepted = accepted;
      queued_replayed = replayed;
    }
