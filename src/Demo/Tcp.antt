-- ===== src/Demo/Tcp.antt =====
-- packages/demo/src/tcp.ts: the events that a counter writes to one TCP connection. A text is the
-- list of its code points.
pub mod Chunks
pub mod Bytes
use firemig.Prelude.{
  is_space, ℕ, zero, suc, ◌+◌, ◌-◌, Bool, true, false, not, ◌&&◌, ◌||◌, Option, none, some, List,
  [], ◌∷◌, ◌++◌, length, leb, ltb, ◌==◌, if◌then◌else◌,
}
use firemig.Prelude.Integers.{ℤ}
use firemig.Common.Json.{Json}
use firemig.Common.Errors.{Thrown, plain}
use firemig.Exec.{Settled, fulfilled, rejected}
use firemig.Demo.Utf8.{decode_utf8}
use firemig.Demo.Events.{CounterEvent, ObservedCounterEvent, parse_counter_event}

abbrev pub Text : Type 0
Text = List ℕ

-- One promise of `waitForCount`, and how many events it waits for.
pub record Waiter : Type 0 where
  pub promise : ℕ
  pub count : ℕ

-- What lines change: the events, how many lines were none, and the waiters; `resolved` and
-- `timed_out` list the promises that were resolved and rejected, in no order.
pub record Collected : Type 0 where
  pub observations : List ObservedCounterEvent
  pub parse_errors : ℕ
  pub waiters : List Waiter
  pub resolved : List ℕ
  pub timed_out : List ℕ

pub record RawTcpCollector : Type 0 where
  pub collected : Collected
  pub buffer : Text
  pub connect_attempts : ℕ
  pub has_socket : Bool

abbrev pub new_collector : RawTcpCollector
new_collector = record {
  collected = record {
    observations = [];
    parse_errors = 0;
    waiters = [];
    resolved = [];
    timed_out = [];
  };
  buffer = [];
  connect_attempts = 0;
  has_socket = false;
}

unfoldable pub reconnect_count : RawTcpCollector → ℕ
reconnect_count c = c.connect_attempts - 1

-- `connect`: there is one connection only, and whether its socket connects or reports an error
-- first is given.
unfoldable pub connect : Bool → RawTcpCollector → Settled (Unit {0}) × RawTcpCollector
connect connects c =
    let opened = record c { connect_attempts = c.connect_attempts + 1; has_socket = true } in
    if c.has_socket
    then (rejected (plain "RawTcpCollector uses exactly one connection"), c)
    else ((if connects then fulfilled tt else rejected (plain "error")), opened)

unfoldable pub wait_for_count : ℕ → ℕ → Collected → Collected
wait_for_count promise count c =
    if leb count (length c.observations)
    then record c { resolved = promise ∷ c.resolved }
    else record c { waiters = c.waiters ++ record { promise = promise; count = count } ∷ [] }

-- `onTimeout`: the waiter is gone, and its promise is rejected.
unfoldable pub drop_waiter : ℕ → List Waiter → List Waiter
drop_waiter promise [] = []
drop_waiter promise (w ∷ rest) =
    let kept = drop_waiter promise rest in if w.promise == promise then kept else w ∷ kept

unfoldable pub on_timeout : ℕ → Collected → Collected
unfolding drop_waiter
on_timeout promise c = record c {
  waiters = drop_waiter promise c.waiters;
  timed_out = promise ∷ c.timed_out;
}

-- `for (const waiter of this.waiters) waiter();`
unfoldable pub wake : List Waiter → Collected → Collected
wake [] c = c
wake (w ∷ rest) c =
    let woken = wake rest c in
    if leb w.count (length c.observations)
    then record woken { resolved = w.promise ∷ woken.resolved }
    else record woken { waiters = w ∷ woken.waiters }

-- `trim()`
unfoldable pub trim_start : Text → Text
trim_start [] = []
trim_start (c ∷ rest) = let later = trim_start rest in if is_space c then later else c ∷ rest

abbrev is_empty_line : Text → Bool
is_empty_line [] = true
is_empty_line (_ ∷ _) = false

unfoldable pub trim_end : Text → Text
trim_end [] = []
trim_end (c ∷ rest) =
    let later = trim_end rest in if is_empty_line later && is_space c then [] else c ∷ later

-- `this.buffer.indexOf("\n")` and the two slices.
abbrev behind_first : ℕ → Option (Text × Text) → Option (Text × Text)
behind_first c none = none
behind_first c (some (line, rest)) = some (c ∷ line, rest)

unfoldable pub take_line : Text → Option (Text × Text)
take_line [] = none
take_line (c ∷ rest) =
    let later = behind_first c (take_line rest) in if c == b'\n' then some ([], rest) else later

-- `now` is what the clock says within a chunk when so many events were observed before.
module _ (parse_json : Text → Option Json) (now : ℕ → ℤ) where
  abbrev observe : Option CounterEvent → Collected → Collected
  observe none c = record c { parse_errors = c.parse_errors + 1 }
  observe (some event) c = record c {
    observations =
        c.observations
        ++ record { event = event; received_at_ms = now (length c.observations) } ∷ [];
  }

  unfoldable pub handle_line : Text → Collected → Collected
  unfolding wake trim_start trim_end parse_counter_event
  handle_line line c =
      let trimmed = trim_end (trim_start line) in
      let observed = observe (parse_counter_event parse_json trimmed) c in
      let woken = wake observed.waiters (record observed { waiters = [] }) in
      if is_empty_line trimmed then c else woken

  -- The loop of `consume`: each line is shorter than the buffer, so its length is fuel enough.
  unfoldable pub drain : ℕ → Text → Collected → Text × Collected
  unfolding handle_line take_line
  drain zero buffer c = (buffer, c)
  drain (suc fuel) buffer c = elim (take_line buffer) [
    | none ↦ (buffer, c)
    | some (line, rest) ↦ drain fuel rest (handle_line line c)
  ]

  unfoldable pub consume : Text → RawTcpCollector → RawTcpCollector
  unfolding drain
  consume chunk c =
      let buffer = c.buffer ++ chunk in
      let drained = drain (length buffer) buffer c.collected in
      record c { buffer = drained.0; collected = drained.1 }

-- What a `data` event brings, with the clock while it is handled.
pub record Chunk : Type 0 where
  pub bytes : List ℕ
  pub now : ℕ → ℤ

-- The handler of `data`, which decodes every chunk alone.
unfoldable pub on_data : (Text → Option Json) → Chunk → RawTcpCollector → RawTcpCollector
unfolding consume decode_utf8
on_data parse_json chunk c = consume parse_json chunk.now (decode_utf8 chunk.bytes) c

unfoldable pub on_all : (Text → Option Json) → List Chunk → RawTcpCollector → RawTcpCollector
unfolding on_data
on_all parse_json [] c = c
on_all parse_json (chunk ∷ rest) c = on_all parse_json rest (on_data parse_json chunk c)
