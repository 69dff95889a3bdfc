-- ===== src/Tests/Clients.antt =====
-- The theorems on the HTTP routes, the SDK and the demo, applied to concrete requests and events.
use firemig.Prelude.{
  ℕ, zero, suc, ◌≡◌, refl, ◌↔◌, String, Bool, true, false, Option, none, some, List, [], ◌∷◌, arith,
  if◌then◌else◌,
}
use firemig.Prelude.Entries.{lookup}
use firemig.Prelude.Integers.{ℤ, pos, ◌+ℤ◌}
use firemig.Common.Phases.{completed, is_terminal_phase}
use firemig.Common.Json.{Json, null, integer}
use firemig.Exec.{fulfilled, rejected}
use firemig.Platform.Decimal.{decimal}
use firemig.Platform.Paths.{is_safe_integer}
use firemig.Server.Requests.{epoch_of_header, bad_request_error}
use firemig.Server.Requests.EpochHeader.{epoch_of_header-decimal}
use firemig.Server.Routes.{HttpRequest, respond}
use firemig.Server.Routes.Calls.{pause_sandbox}
use firemig.Server.Routes.Fencing.{stale_header}
use firemig.Sdk.Phoenix.Protocol.{client_closed}
use firemig.Sdk.Phoenix.Pending.Accounts.{Counted, settled_count}
use firemig.Sdk.Phoenix.Socket.{PhoenixSocket, Peer, disconnect}
use firemig.Sdk.Phoenix.Socket.Connect.{connect, on_open}
use firemig.Sdk.Phoenix.Commands.{push_command}
use firemig.Sdk.Phoenix.Session.{new_client, Reach, here, next, connects, opens, pushes_command}
use firemig.Sdk.Phoenix.Session.Settled.{reached-Counted, disconnect_settles}
use firemig.Sdk.Phoenix.Session.Refinement.{Moves, promise_status, refines_promises}
use firemig.Sdk.Request.{
  Network, network_error, responded, ClientOptions, RequestOptions, post_method, send_request,
}
use firemig.Sdk.Request.Attempts.{Ends, repeatable, send_request-Ends}
use firemig.Sdk.Sse.{codes, parse_sse}
use firemig.Sdk.Sse.Chunks.{parse_sse-chunks}
use firemig.Sdk.Progress.{Progress, known}
use firemig.Sdk.Watch.{Coordinator, status, watch}
use firemig.Sdk.Watch.Orderly.{OrderlyWatch}
use firemig.Sdk.Watch.Causes.{Caused}
use firemig.Sdk.Watch.Ends.{watch_ends}
use firemig.Demo.Events.{ObservedCounterEvent}
use firemig.Demo.Sequence.{expected, analyze_numbers}
use firemig.Demo.Sequence.Exact.{AsExpected, exact_iff}
use firemig.Demo.Validator.{ValidationInput, validate_continuity}
use firemig.Demo.Validator.Passed.{Verified, passed-Verified}
use firemig.Tests.Samples.{running_worker}

abbrev stale_request : HttpRequest
stale_request = record {
  route = pause_sandbox "sb";
  authorization = some "Bearer secret";
  epoch_header = some "1";
}

stale_header_example : (respond (some "secret") stale_request running_worker).1 ≡ running_worker
unfolding lookup decimal
stale_header_example =
    stale_header (some "secret") stale_request running_worker "sb" 1 refl refl (omega arith)

epoch_of_header-decimal_example :
    epoch_of_header (some (decimal 42))
    ≡ (if is_safe_integer 42 then fulfilled 42 else rejected bad_request_error)
epoch_of_header-decimal_example = epoch_of_header-decimal 42

-- A coordinator that answers nothing that can be parsed, behind a socket that is open.
abbrev no_json : String → Option Json
no_json s = none

abbrev peer : Peer
peer = record { ready_state = λ n. 1; send_error = λ n message. none; is_aborted = λ n. false }

abbrev connected : PhoenixSocket
connected = on_open 0 (connect peer new_client)

abbrev pushed : PhoenixSocket
pushed = push_command peer "1" "sandbox:sb:me" "c1" null none connected

abbrev run_to_pushed : Reach no_json new_client pushed
run_to_pushed =
    next (next (next here (connects peer new_client)) (opens 0 (connect peer new_client)))
      (pushes_command peer "1" "sandbox:sb:me" "c1" null none connected)

reached-Counted_example : Counted pushed.next_promise pushed.pending
reached-Counted_example = reached-Counted no_json run_to_pushed

-- The first promise of the client is made and waits.
refines_promises_example : Moves (promise_status 0 connected) (promise_status 0 pushed)
refines_promises_example =
    refines_promises no_json 0
      (next (next here (connects peer new_client)) (opens 0 (connect peer new_client)))
      (pushes_command peer "1" "sandbox:sb:me" "c1" null none connected)

disconnect_settles_example :
    ((disconnect 0 client_closed pushed).pending.entries ≡ [])
    × (settled_count 0 (disconnect 0 client_closed pushed).pending.settled ≡ 1)
unfolding push_command on_open connect new_client
disconnect_settles_example =
    disconnect_settles no_json 0 client_closed 0 run_to_pushed refl (omega arith)

-- The first attempt fails, the second is answered.
abbrev is_zero : ℕ → Bool
is_zero zero = true
is_zero (suc n) = false

abbrev flaky : Network
flaky = record {
  fetched = λ n. if is_zero n then network_error else responded 200 (some null);
  aborted = λ n. false;
  sleep_rejects = λ n. false;
}

abbrev client_options : ClientOptions
client_options = record { base_url = "http://c"; token = none; max_retries = some 3 }

abbrev creation : RequestOptions
creation = record {
  method = some post_method;
  body = some null;
  idempotent = some true;
  idempotency_key = none;
  accept = none;
  headers = none;
}

send_request-Ends_example :
    Ends flaky 3
      (repeatable creation.method creation.idempotent creation.idempotency_key)
      0
      (send_request 4 flaky client_options "uuid" creation)
send_request-Ends_example = send_request-Ends flaky client_options "uuid" creation

parse_sse-chunks_example :
    parse_sse (codes "data: 1\r" ∷ codes "\n\r" ∷ codes "\ndata: 2" ∷ [])
    ≡ parse_sse (codes "data: 1\r\n\r\ndata: 2" ∷ [])
parse_sse-chunks_example =
    parse_sse-chunks b'd' (codes "ata: 1\r") (codes "\n\r" ∷ codes "\ndata: 2" ∷ [])

abbrev finished : Progress
finished = record {
  phase = known completed;
  phase_text = "DONE";
  bytes_transferred = integer (pos 7);
  bytes_total = integer (pos 7);
  id = none;
  error = none;
}

abbrev polled_only : Coordinator
polled_only = record {
  parse_json = λ s. none;
  open_stream = λ n id. none;
  poll_status = λ n. status finished;
  stream_sleep_rejects = λ n. false;
  poll_sleep_rejects = λ n. false;
}

watch_ends_example :
    OrderlyWatch "m1" polled_only (watch "m1" polled_only 1 none)
    × Caused "m1" polled_only (watch "m1" polled_only 1 none)
unfolding is_terminal_phase
watch_ends_example = watch_ends "m1" polled_only 0 finished refl refl none

abbrev counted_numbers : List ℤ
counted_numbers = pos 1 ∷ pos 2 ∷ []

exact_iff_example :
    (((analyze_numbers counted_numbers (pos 1) (pos 2)).exact_sequence ≡ true)
      ↔ AsExpected counted_numbers (pos 1) (pos 2))
    × (((analyze_numbers counted_numbers (pos 1) (pos 2)).exact_sequence ≡ true)
        ↔ (counted_numbers ≡ expected (pos 1) (pos 2)))
exact_iff_example = exact_iff (pos 1) (pos 2) counted_numbers

abbrev event_at : ℤ → ObservedCounterEvent
event_at n = record {
  event = record { seq = n; boot_id = "b1"; pid = pos 9; counter = n; time = "t" };
  received_at_ms = n;
}

abbrev continuous_run : ValidationInput
continuous_run = record {
  observations = event_at (pos 1) ∷ event_at (pos 2) ∷ [];
  reconnect_count = 0;
  expected_start = none;
  expected_end = some (pos 2);
  queued_command_accepted = some true;
  queued_command_replayed = none;
}

passed-Verified_example : Verified continuous_run
unfolding validate_continuity ◌+ℤ◌
passed-Verified_example = passed-Verified continuous_run refl
