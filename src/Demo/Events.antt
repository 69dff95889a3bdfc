-- ===== src/Demo/Events.antt =====
-- packages/demo/src/validation/events.ts.
use firemig.Prelude.{◌+◌, ◌-◌, ◌^◌, String, Option, none, some, leb, ◌===◌, if◌then◌else◌}
use firemig.Prelude.Integers.{ℤ, pos_part, neg_part}
use firemig.Common.Json.{Json, Number, integer, member, as_text, as_number}

pub record CounterEvent : Type 0 where
  pub seq : ℤ
  pub boot_id : String
  pub pid : ℤ
  pub counter : ℤ
  pub time : String

pub record ObservedCounterEvent : Type 0 where
  pub event : CounterEvent
  pub received_at_ms : ℤ

-- `Number.isSafeInteger` and the integer.
abbrev safe_integer : Option Number → Option ℤ
safe_integer (some (integer n)) =
    if leb (pos_part n + neg_part n) (2 ^ 53 - 1) then some n else none
safe_integer _ = none

abbrev event_of :
    Option ℤ → Option String → Option ℤ → Option ℤ → Option String → Option CounterEvent
event_of (some seq) (some boot_id) (some pid) (some counter) (some time) =
    if boot_id === ""
    then none
    else some (record { seq = seq; boot_id = boot_id; pid = pid; counter = counter; time = time })
event_of _ _ _ _ _ = none

-- `none` is a throw: of `JSON.parse`, of a field of null, or of the test.
unfoldable pub parse_counter_event :
    {Line : Type 0} → (Line → Option Json) → Line → Option CounterEvent
parse_counter_event parse_json line = elim (parse_json line) [
  | none ↦ none
  | some value ↦
      event_of (safe_integer (as_number (member "seq" value))) (as_text (member "boot_id" value))
        (safe_integer (as_number (member "pid" value)))
        (safe_integer (as_number (member "counter" value))) (as_text (member "time" value))
]
