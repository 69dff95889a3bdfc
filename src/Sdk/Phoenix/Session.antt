-- ===== src/Sdk/Phoenix/Session.antt =====
-- packages/sdk/src/phoenix/socket.ts and websocket.ts: what can happen to a client, one step each.
pub mod Sockets
pub mod Accounts
pub mod Events
pub mod Settled
pub mod Refinement
use firemig.Prelude.{ℕ, String, Option, none, List, []}
use firemig.Common.Json.{Json}
use firemig.Sdk.Phoenix.Protocol.{FrameData, PhoenixMessage}
use firemig.Sdk.Phoenix.Pending.{PendingReplies, abort}
use firemig.Sdk.Phoenix.Socket.{
  PhoenixSocket, Peer, close, subscribe, unsubscribe, begin_join, push_join, end_join, finish_join,
}
use firemig.Sdk.Phoenix.Socket.Connect.{connect, on_open, on_error, on_close, beat, handle_message}
use firemig.Sdk.Phoenix.Commands.{push_command}

-- A new client has no socket, and hands out the refs from 1 on.
unfoldable pub new_client : PhoenixSocket
new_client = record {
  socket = none;
  connecting = none;
  heartbeat = none;
  next_ref = 1;
  pending = record { entries = []; listeners = []; settled = [] };
  joined_topics = [];
  joining_topics = [];
  event_listeners = [];
  next_promise = 0;
  next_join = 0;
  next_socket = 0;
  connections = λ _. none;
  sent = [];
  closed_sockets = [];
  reported = [];
}

unfoldable pub abort_signal : ℕ → PhoenixSocket → PhoenixSocket
abort_signal signal client = record client { pending = abort signal client.pending }

module _ (parse_json : String → Option Json) where
  pub data Step : PhoenixSocket → PhoenixSocket → Type 0 where
    begins_join :
        (topic : String) (client : PhoenixSocket) → Step client (begin_join topic client).1
    connects : (peer : Peer) (client : PhoenixSocket) → Step client (connect peer client)
    pushes_join :
        (peer : Peer) (topic : String) (client : PhoenixSocket)
        → Step client (push_join peer topic client)
    finishes_join :
        (topic key : String) (promise : ℕ) (client : PhoenixSocket)
        → Step client (finish_join topic key promise client)
    ends_join :
        (topic : String) (promise : ℕ) (client : PhoenixSocket)
        → Step client (end_join topic promise client)
    pushes_command :
        (peer : Peer) (join_ref topic command_id : String) (request : Json) (signal : Option ℕ)
        (client : PhoenixSocket)
        → Step client (push_command peer join_ref topic command_id request signal client)
    receives :
        (candidate : ℕ) (frame : FrameData) (client : PhoenixSocket)
        → Step client (handle_message parse_json candidate frame client)
    opens : (candidate : ℕ) (client : PhoenixSocket) → Step client (on_open candidate client)
    errs :
        (peer : Peer) (candidate : ℕ) (client : PhoenixSocket)
        → Step client (on_error peer candidate client)
    closes :
        (candidate : ℕ) (reason : Option String) (client : PhoenixSocket)
        → Step client (on_close candidate reason client)
    beats :
        (peer : Peer) (candidate : ℕ) (client : PhoenixSocket)
        → Step client (beat peer candidate client)
    aborts : (signal : ℕ) (client : PhoenixSocket) → Step client (abort_signal signal client)
    shuts : (client : PhoenixSocket) → Step client (close client)
    subscribes : (listener : ℕ) (client : PhoenixSocket) → Step client (subscribe listener client)
    unsubscribes :
        (listener : ℕ) (client : PhoenixSocket) → Step client (unsubscribe listener client)

  pub data Reach (first : PhoenixSocket) : PhoenixSocket → Type 0 where
    here : Reach first first
    next : {middle last : PhoenixSocket} → Reach first middle → Step middle last → Reach first last
