-- ===== src/Sdk/Phoenix/Socket/Connect.antt =====
-- packages/sdk/src/phoenix/connect.ts and socket.ts: the events of a connection.
use firemig.Prelude.{
  ℕ, ◌+◌, String, Bool, true, false, not, Option, none, some, List, [], ◌∷◌, ltb, ◌==◌,
  if◌then◌else◌, put_at,
}
use firemig.Common.Json.{Json, object, end}
use firemig.Sdk.Phoenix.Protocol.{
  PhoenixMessage, SocketError, connection_failed, undecodable, closed, FrameData,
}
use firemig.Sdk.Phoenix.Pending.{Dispatched, handled, event_of, decode_failed, dispatch_frame}
use firemig.Sdk.Phoenix.Socket.{
  Connection, opening, opened, broken, PhoenixSocket, Peer, open_state, is_current, ref, disconnect,
  close_socket, open_socket,
}

-- `connect`, up to its wait: nothing to do, a promise to wait for, or a new socket.
unfoldable pub connect : Peer → PhoenixSocket → PhoenixSocket
unfolding open_socket
connect peer client = elim (open_socket peer client) [
  | some _ ↦ client
  | none ↦ elim client.connecting [
    | some _ ↦ client
    | none ↦ record client {
      socket = some client.next_socket;
      connecting = some client.next_socket;
      connections = put_at client.connections client.next_socket opening;
      next_socket = client.next_socket + 1;
    }
  ]
]

abbrev pub is_opening : Option Connection → Bool
is_opening (some opening) = true
is_opening _ = false

abbrev pub is_opened : Option Connection → Bool
is_opened (some opened) = true
is_opened _ = false

-- `resolve` or `reject` of a connection, and the `finally` behind it.
unfoldable pub settle_connection : ℕ → Connection → PhoenixSocket → PhoenixSocket
settle_connection candidate outcome client =
    if is_opening (client.connections candidate)
    then record client {
      connections = put_at client.connections candidate outcome;
      connecting = elim client.connecting [
        | none ↦ none
        | some held ↦ if held == candidate then none else some held
      ];
    }
    else client

unfoldable pub on_open : ℕ → PhoenixSocket → PhoenixSocket
unfolding settle_connection
on_open candidate client =
    if is_current candidate client
    then settle_connection candidate opened (record client { heartbeat = some candidate })
    else client

-- `reject` if it was never opened, and `onFailure`.
unfoldable pub on_failure : ℕ → SocketError → PhoenixSocket → PhoenixSocket
unfolding settle_connection disconnect
on_failure candidate error client = disconnect candidate error (
    if is_opened (client.connections candidate)
    then client
    else settle_connection candidate (broken error) client)

unfoldable pub on_error : Peer → ℕ → PhoenixSocket → PhoenixSocket
unfolding on_failure close_socket
on_error peer candidate client =
    let failing = on_failure candidate connection_failed client in
    if ltb (peer.ready_state candidate) (open_state + 1)
    then close_socket candidate none failing
    else failing

unfoldable pub on_close : ℕ → Option String → PhoenixSocket → PhoenixSocket
unfolding on_failure
on_close candidate reason client = on_failure candidate (closed reason) client

-- The tick of the heartbeat's timer.
unfoldable pub beat : Peer → ℕ → PhoenixSocket → PhoenixSocket
unfolding ref
beat peer candidate client =
    let (key, next) = ref client in
    if not (is_current candidate client)
    then client
    else if not (peer.ready_state candidate == open_state)
    then client
    else record next {
      sent =
          (
            candidate,
            record {
              join_ref = none;
              ref = some key;
              topic = "phoenix";
              event = "heartbeat";
              payload = object end;
            },
          )
          ∷ next.sent;
    }

unfoldable pub report : List ℕ → PhoenixMessage → PhoenixSocket → PhoenixSocket
report [] message client = client
report (l ∷ rest) message client =
    report rest message (record client { reported = (l, message) ∷ client.reported })

module _ (parse_json : String → Option Json) where
  -- A frame that cannot be read ends the socket that it came on.
  abbrev pub after_dispatch : ℕ → Dispatched → PhoenixSocket → PhoenixSocket
  after_dispatch candidate handled client = client
  after_dispatch candidate (event_of message) client = report client.event_listeners message client
  after_dispatch candidate decode_failed client =
      close_socket candidate (some 1002) (disconnect candidate undecodable client)

  unfoldable pub handle_message : ℕ → FrameData → PhoenixSocket → PhoenixSocket
  handle_message candidate frame client =
      let (outcome, replies) = dispatch_frame parse_json frame client.pending in
      after_dispatch candidate outcome (record client { pending = replies })
