-- ===== src/Sdk/Phoenix/Socket.antt =====
-- packages/sdk/src/phoenix/socket.ts and connect.ts: one multiplexed socket. A socket object, a
-- promise and a listener are numbers; the state also lists what was sent, closed and reported.
pub mod Connect
use firemig.Prelude.{
  ℕ, ◌+◌, String, Bool, true, false, not, Option, none, some, List, [], ◌∷◌, ◌++◌, ltb, ◌==◌,
  if◌then◌else◌, put_at,
}
use firemig.Prelude.Entries.{lookup, insert, erase}
use firemig.Platform.Decimal.{decimal}
use firemig.Common.Json.{Json, object, end}
use firemig.Sdk.Phoenix.Protocol.{
  PhoenixMessage, SocketError, client_closed, not_connected, aborted, connection_failed,
  undecodable, closed, FrameData,
}
use firemig.Sdk.Phoenix.Pending.{
  PendingReply, PendingReplies, failed, settle_promise, add, discard, reject_all, Dispatched,
  handled, event_of, decode_failed, dispatch_frame,
}

-- The promise of one `connect`, settled once.
pub data Connection : Type 0 where
  opening opened : Connection
  broken : SocketError → Connection

pub record PhoenixSocket : Type 0 where
  pub socket : Option ℕ
  pub connecting : Option ℕ
  pub heartbeat : Option ℕ
  pub next_ref : ℕ
  pub pending : PendingReplies
  pub joined_topics : List (String × String)
  pub joining_topics : List (String × ℕ)
  pub event_listeners : List ℕ
  pub next_promise : ℕ
  pub next_join : ℕ
  pub next_socket : ℕ
  pub connections : ℕ → Option Connection
  pub sent : List (ℕ × PhoenixMessage)
  pub closed_sockets : List (ℕ × Option ℕ)
  pub reported : List (ℕ × PhoenixMessage)

-- What the environment answers: the state of a socket, a failure of `send`, an aborted signal.
pub record Peer : Type 0 where
  pub ready_state : ℕ → ℕ
  pub send_error : ℕ → PhoenixMessage → Option SocketError
  pub is_aborted : ℕ → Bool

abbrev pub open_state : ℕ
open_state = 1

abbrev pub is_current : ℕ → PhoenixSocket → Bool
is_current candidate client = elim client.socket [ none ↦ false | some held ↦ held == candidate ]

unfoldable pub ref : PhoenixSocket → String × PhoenixSocket
ref client = (decimal client.next_ref, record client { next_ref = client.next_ref + 1 })

unfoldable pub disconnect : ℕ → SocketError → PhoenixSocket → PhoenixSocket
disconnect candidate error client =
    if is_current candidate client
    then record client {
      socket = none;
      joined_topics = [];
      heartbeat = none;
      pending = reject_all error client.pending;
    }
    else client

-- `socket.close(code)`, in the list of what was closed.
unfoldable pub close_socket : ℕ → Option ℕ → PhoenixSocket → PhoenixSocket
close_socket candidate status client = record client {
  closed_sockets = (candidate, status) ∷ client.closed_sockets;
}

unfoldable pub close : PhoenixSocket → PhoenixSocket
unfolding disconnect close_socket
close client = elim client.socket [
  | none ↦ client
  | some held ↦ close_socket held (some 1000) (disconnect held client_closed client)
]

-- The socket that a push may use.
unfoldable pub open_socket : Peer → PhoenixSocket → Option ℕ
open_socket peer client = elim client.socket [
  | none ↦ none
  | some held ↦ if peer.ready_state held == open_state then some held else none
]

abbrev pub signal_aborted : Peer → Option ℕ → Bool
signal_aborted peer none = false
signal_aborted peer (some signal) = peer.is_aborted signal

-- A promise that is rejected where it is made.
unfoldable pub rejected_push : SocketError → PhoenixSocket → PhoenixSocket
unfolding settle_promise
rejected_push error client = record client {
  next_promise = client.next_promise + 1;
  pending = settle_promise client.next_promise (failed error) client.pending;
}

unfoldable pub send_push :
    Peer → ℕ → String → PhoenixMessage → Option ℕ → PhoenixSocket → PhoenixSocket
unfolding settle_promise
send_push peer held key message signal client =
    let promise = client.next_promise in
    let added = add key promise signal client.pending in
    let reply : PendingReply = record { promise = promise; signal = signal } in
    elim (peer.send_error held message) [
      | none ↦ record client {
        next_promise = promise + 1;
        pending = added;
        sent = (held, message) ∷ client.sent;
      }
      | some error ↦ record client {
        next_promise = promise + 1;
        pending = settle_promise promise (failed error) (discard key reply added);
      }
    ]

-- `push` with the ref of its message; the new promise is the number `next_promise`.
unfoldable pub push : Peer → String → PhoenixMessage → Option ℕ → PhoenixSocket → PhoenixSocket
unfolding rejected_push send_push open_socket
push peer key message signal client =
    if signal_aborted peer signal
    then rejected_push aborted client
    else elim (open_socket peer client) [
      | none ↦ rejected_push not_connected client
      | some held ↦ send_push peer held key message signal client
    ]

unfoldable pub subscribe : ℕ → PhoenixSocket → PhoenixSocket
subscribe listener client = record client {
  event_listeners = client.event_listeners ++ listener ∷ [];
}

unfoldable pub without : ℕ → List ℕ → List ℕ
without listener [] = []
without listener (l ∷ rest) =
    let kept = without listener rest in if l == listener then kept else l ∷ kept

unfoldable pub unsubscribe : ℕ → PhoenixSocket → PhoenixSocket
unfolding without
unsubscribe listener client = record client {
  event_listeners = without listener client.event_listeners;
}

-- `join`, up to its first wait: the ref of a joined topic, the promise of a join under way, or a
-- new join, which goes on with `connect`.
pub data JoinStart : Type 0 where
  already_joined : String → JoinStart
  under_way : ℕ → JoinStart
  started : JoinStart

unfoldable pub begin_join : String → PhoenixSocket → JoinStart × PhoenixSocket
begin_join topic client = elim (lookup topic client.joined_topics) [
  | some held ↦ (already_joined held, client)
  | none ↦ elim (lookup topic client.joining_topics) [
    | some promise ↦ (under_way promise, client)
    | none ↦ (
      started,
      record client {
        joining_topics = insert topic client.next_join client.joining_topics;
        next_join = client.next_join + 1;
      },
    )
  ]
]

-- Behind `await this.connect()`.
unfoldable pub push_join : Peer → String → PhoenixSocket → PhoenixSocket
unfolding ref push
push_join peer topic client =
    let (key, next) = ref client in
    push peer key
      (record {
        join_ref = some key;
        ref = some key;
        topic = topic;
        event = "phx_join";
        payload = object end;
      })
      none next

-- The `finally` of a join.
unfoldable pub end_join : String → ℕ → PhoenixSocket → PhoenixSocket
end_join topic promise client = elim (lookup topic client.joining_topics) [
  | none ↦ client
  | some held ↦
      if held == promise
      then record client { joining_topics = erase topic client.joining_topics }
      else client
]

-- Behind the reply to a join, and behind its rejection, `end_join` alone.
unfoldable pub finish_join : String → String → ℕ → PhoenixSocket → PhoenixSocket
unfolding end_join
finish_join topic key promise client =
    end_join topic promise (record client { joined_topics = insert topic key client.joined_topics })
