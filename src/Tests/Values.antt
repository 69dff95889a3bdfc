-- ===== src/Tests/Values.antt =====
-- The theorems on JSON values and on the SDK's operations, applied to concrete ones.
use firemig.Prelude.{
  ℕ, List, [], ◌∷◌, ◌++◌, Option, ◌≡◌, ◌↔◌, refl, String, false, some, none, arith, ltb,
  if◌then◌else◌,
}
use firemig.Prelude.Integers.{ℤ, pos}
use firemig.Common.Json.{Json, null, number, integer, text, object, field, end}
use firemig.Common.Canonical.{
  units, canonical_json, request_hash, joined, insert_key, before, escape,
}
use firemig.Platform.Decimal.{decimal}
use firemig.Common.Canonical.Normal.{canonical_json-SameJson}
use firemig.Common.Canonical.Order.{SameJson, normal, plain_json, same_object, swapped}
use firemig.Sdk.Phoenix.Protocol.{PhoenixMessage, phoenix_message}
use firemig.Sdk.Phoenix.Protocol.Guard.{tuple_of, phoenix_message_iff}
use firemig.Demo.Utf8.{decode_utf8, state_behind}
use firemig.Demo.Tcp.{Text, new_collector, take_line, Chunk, on_data, on_all}
use firemig.Demo.Tcp.Bytes.{untimed, untimed-on_all}
use firemig.Network.Relay.{
  Relay, new_relay, client, accept_connection, close_both, close_relay, accepts, ends, closes, here,
  next,
}
use firemig.Network.Relay.Sockets.{Kept, reached-Kept}
use firemig.Sdk.Request.{Network, network_error, responded, content, ClientOptions, send_request}
use firemig.Sdk.Client.{expose_port, options_of, path_of}
use firemig.Sdk.Client.Keys.{key_sent, key_of, send_request-Recovers}

-- `{"b":2,"a":{"d":null,"c":"x"}}`
abbrev unordered : Json
unordered = object (
    field "b" (number (integer (pos 2)))
      (field "a" (object (field "d" null (field "c" (text "x") end))) end))

canonical_json_of_unordered : canonical_json unordered ≡ "{\"a\":{\"c\":\"x\",\"d\":null},\"b\":2}"
unfolding canonical_json joined insert_key before units escape decimal
canonical_json_of_unordered = refl

abbrev plain_hash : String → String
plain_hash s = s

-- The same with its two fields exchanged.
abbrev reordered : Json
reordered = object (
    field "a" (object (field "d" null (field "c" (text "x") end)))
      (field "b" (number (integer (pos 2))) end))

canonical_json-SameJson_example :
    SameJson unordered (normal unordered)
    × (canonical_json unordered ≡ plain_json (normal unordered))
    × (canonical_json reordered ≡ canonical_json unordered)
    × (request_hash plain_hash reordered ≡ request_hash plain_hash unordered)
unfolding units
canonical_json-SameJson_example =
    canonical_json-SameJson plain_hash unordered reordered
      (tt, (λ e. ground (arith, e), tt), ((tt, (λ e. ground (arith, e), tt), (tt, tt, tt)), tt, tt))
      (same_object (swapped "b" "a" _ _ end (λ e. ground (arith, e))))

abbrev message : PhoenixMessage
message = record { join_ref = none; ref = some "1"; topic = "t"; event = "e"; payload = null }

phoenix_message_iff_example :
    (phoenix_message (tuple_of message) ≡ some message) ↔ (tuple_of message ≡ tuple_of message)
phoenix_message_iff_example = phoenix_message_iff (tuple_of message) message

-- The first two attempts fail, the third is answered.
abbrev fails_twice : Network
fails_twice = record {
  fetched = λ n. if ltb n 2 then network_error else responded 200 (some null);
  aborted = λ n. false;
  sleep_rejects = λ n. false;
}

abbrev no_token : ClientOptions
no_token = record { base_url = "http://c"; token = none; max_retries = none }

send_request-Recovers_example :
    (send_request 4 fails_twice no_token "uuid" (options_of (expose_port "sb" null none))
      ≡ some (content null, 3))
    × (key_sent no_token "uuid"
          (path_of (expose_port "sb" null none))
          (options_of (expose_port "sb" null none))
        ≡ key_of "uuid" (expose_port "sb" null none))
send_request-Recovers_example =
    send_request-Recovers fails_twice no_token "uuid" (expose_port "sb" null none) 2 null
      (omega arith) (refl, refl, refl, (refl, refl, refl, refl))

abbrev one_line : Text → Option Json
one_line line = none

abbrev clock : ℕ → ℤ
clock n = pos n

-- A line and a half, in three chunks, the last of which is a euro sign.
abbrev half_lines : List Chunk
half_lines =
    record { bytes = 49 ∷ []; now = λ n. pos 1 }
    ∷ record { bytes = 10 ∷ 50 ∷ []; now = λ n. pos 2 }
    ∷ record { bytes = 226 ∷ 130 ∷ 172 ∷ []; now = λ n. pos 3 }
    ∷ []

untimed-on_all_example :
    untimed (on_all one_line half_lines new_collector)
    ≡ untimed (
        on_data one_line
          (record { bytes = 49 ∷ 10 ∷ 50 ∷ 226 ∷ 130 ∷ 172 ∷ []; now = clock })
          new_collector)
unfolding take_line state_behind
untimed-on_all_example =
    untimed-on_all one_line clock half_lines new_collector (refl, (refl, (refl, tt))) refl

euro : decode_utf8 (226 ∷ 130 ∷ 172 ∷ []) ≡ 8364 ∷ []
unfolding decode_utf8
euro = refl

-- Cut behind its first byte, it is three replacement characters.
euro_cut : decode_utf8 (226 ∷ []) ++ decode_utf8 (130 ∷ 172 ∷ []) ≡ 65533 ∷ 65533 ∷ 65533 ∷ []
unfolding decode_utf8
euro_cut = refl

-- A connection that failed before the relay was closed.
abbrev used_relay : Relay
used_relay = close_relay (close_both 0 (accept_connection new_relay))

reached-Kept_example : Kept used_relay
unfolding accept_connection close_both
reached-Kept_example = reached-Kept (
    next
      (next (next here (accepts new_relay refl))
        (ends (client 0) (accept_connection new_relay) (omega arith)))
      (closes (close_both 0 (accept_connection new_relay))))
