-- ===== src/Demo/Tcp/Bytes.antt =====
-- packages/demo/src/tcp.ts: chunks of bytes that end between two characters.
use firemig.Prelude.{
  ℕ, zero, suc, ◌≡◌, refl, ◌∙◌, sym, ap, Option, none, some, List, [], ◌∷◌, ◌++◌, map, concat,
  length, leb, All, inl, inr, Option-cases, Bool-cases, arith,
}
use firemig.Prelude.Integers.{ℤ, pos}
use firemig.Common.Json.{Json}
use firemig.Demo.Events.{CounterEvent, ObservedCounterEvent, parse_counter_event}
use firemig.Demo.Utf8.{decode_utf8, IsWhole, decode_utf8-append}
use firemig.Demo.Tcp.{
  Text, Waiter, Collected, RawTcpCollector, wake, trim_start, trim_end, is_empty_line, take_line,
  observe, handle_line, drain, consume, Chunk, on_data, on_all,
}
use firemig.Demo.Tcp.Chunks.{consume_all, consume_all-concat}

abbrev without_time : ObservedCounterEvent → ObservedCounterEvent
without_time o = record o { received_at_ms = pos 0 }

abbrev without_times : Collected → Collected
without_times c = record c { observations = map without_time c.observations }

-- A collector but for the times at which its events were received.
abbrev pub untimed : RawTcpCollector → RawTcpCollector
untimed k = record k { collected = without_times k.collected }

abbrev no_clock : ℕ → ℤ
no_clock n = pos 0

without_time-length : (xs : List ObservedCounterEvent) → length (map without_time xs) ≡ length xs
without_time-length [] = refl
without_time-length (x ∷ xs) = omega (arith, without_time-length xs)

without_time-append :
    (xs ys : List ObservedCounterEvent)
    → map without_time (xs ++ ys) ≡ map without_time xs ++ map without_time ys
without_time-append [] ys = refl
without_time-append (x ∷ xs) ys = ap (λ r. without_time x ∷ r) (without_time-append xs ys)

wake_untimed :
    (ws : List Waiter) (c : Collected) → without_times (wake ws c) ≡ wake ws (without_times c)
unfolding wake
wake_untimed [] c = refl
wake_untimed (w ∷ rest) c =
    let counted = without_time-length c.observations in
    elim (Bool-cases (leb w.count (length c.observations))) [
      | inl reached ↦
          rw (reached, counted, reached)
            (ap (λ (d : Collected). record d { resolved = w.promise ∷ d.resolved })
              (wake_untimed rest c))
      | inr short ↦
          rw (short, counted, short)
            (ap (λ (d : Collected). record d { waiters = w ∷ d.waiters }) (wake_untimed rest c))
    ]

module _ (parse_json : Text → Option Json) (now : ℕ → ℤ) where
  observe_untimed :
      (event : Option CounterEvent) (c : Collected)
      → without_times (observe parse_json now event c)
        ≡ observe parse_json no_clock event (without_times c)
  observe_untimed none c = refl
  observe_untimed (some event) c =
      ap (λ (os : List ObservedCounterEvent). record c { observations = os })
        (without_time-append c.observations _)

  line_untimed :
      (line : Text) (c : Collected)
      → without_times (handle_line parse_json now line c)
        ≡ handle_line parse_json no_clock line (without_times c)
  unfolding handle_line
  line_untimed line c =
      let text : Text = trim_end (trim_start line) in
      let event = parse_counter_event parse_json text in
      let observed = observe parse_json now event c in
      elim (Bool-cases (is_empty_line text)) [
        | inl blank ↦ rw (blank, handle_line) refl
        | inr held ↦
            rw (held, handle_line)
              (wake_untimed observed.waiters (record observed { waiters = [] })
                ∙ ap (λ (d : Collected). wake d.waiters (record d { waiters = [] }))
                    (observe_untimed event c))
      ]

  drain_untimed :
      (fuel : ℕ) (buffer : Text) (c : Collected)
      → drain parse_json no_clock fuel buffer (without_times c) ≡ (
        (drain parse_json now fuel buffer c).0,
        without_times (drain parse_json now fuel buffer c).1,
      )
  unfolding drain
  drain_untimed zero buffer c = refl
  drain_untimed (suc fuel) buffer c = elim (Option-cases (take_line buffer)) [
    | inl partial ↦ rw (partial, drain) refl
    | inr ((line, rest), taken) ↦
        rw (taken, drain, sym (line_untimed line c))
          (drain_untimed fuel rest (handle_line parse_json now line c))
  ]

  untimed-consume :
      (chunk : Text) (k : RawTcpCollector)
      → untimed (consume parse_json now chunk k) ≡ consume parse_json no_clock chunk (untimed k)
  unfolding consume
  untimed-consume chunk k =
      let buffer = k.buffer ++ chunk in
      ap (λ (d : Text × Collected). record k { buffer = d.0; collected = d.1 })
        (sym (drain_untimed (length buffer) buffer k.collected))

abbrev all_bytes : List Chunk → List ℕ
all_bytes chunks = concat (map (λ c. c.bytes) chunks)

abbrev texts : List Chunk → List Text
texts chunks = map (λ c. decode_utf8 c.bytes) chunks

abbrev pub AllWhole : List Chunk → Type 0
AllWhole chunks = All (λ c. IsWhole c.bytes) chunks

decode_texts :
    (chunks : List Chunk) → AllWhole chunks → decode_utf8 (all_bytes chunks) ≡ concat (texts chunks)
unfolding decode_utf8
decode_texts [] whole = refl
decode_texts (chunk ∷ rest) whole =
    decode_utf8-append chunk.bytes (all_bytes rest) whole.0
    ∙ ap (λ (r : Text). decode_utf8 chunk.bytes ++ r) (decode_texts rest whole.1)

on_all-texts :
    (parse_json : Text → Option Json) (chunks : List Chunk) (k : RawTcpCollector)
    → untimed (on_all parse_json chunks k)
      ≡ consume_all parse_json no_clock (texts chunks) (untimed k)
unfolding on_all on_data consume_all
on_all-texts parse_json [] k = refl
on_all-texts parse_json (chunk ∷ rest) k =
    on_all-texts parse_json rest (on_data parse_json chunk k)
    ∙ ap (consume_all parse_json no_clock (texts rest))
        (untimed-consume parse_json chunk.now (decode_utf8 chunk.bytes) k)

-- Where the connection cuts its bytes between two characters does not matter: chunks that each end
-- between two characters leave a collector in the state that all their bytes leave it in as one
-- chunk, with the same events, errors, waiters and rest of a line, but for the times at which the
-- events were received. That is for a collector with no whole line in its buffer, as each has behind
-- a chunk.
pub untimed-on_all :
    (parse_json : Text → Option Json) (now : ℕ → ℤ) (chunks : List Chunk) (k : RawTcpCollector)
    → AllWhole chunks
    → take_line k.buffer ≡ none
    → untimed (on_all parse_json chunks k)
      ≡ untimed (on_data parse_json (record { bytes = all_bytes chunks; now = now }) k)
unfolding on_data
untimed-on_all parse_json now chunks k whole partial =
    on_all-texts parse_json chunks k
    ∙ consume_all-concat parse_json no_clock (texts chunks) (untimed k) partial
    ∙ ap (λ (t : Text). consume parse_json no_clock t (untimed k)) (sym (decode_texts chunks whole))
    ∙ sym (untimed-consume parse_json now (decode_utf8 (all_bytes chunks)) k)
