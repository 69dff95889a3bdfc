-- ===== src/Sdk/Phoenix/Session/Sockets.antt =====
-- packages/sdk/src/phoenix/connect.ts: what the events of a connection do to the promises.
use firemig.Prelude.{
  ℕ, ◌+◌, refl, ◌∙◌, Option, some, List, ltb, inl, inr, Option-cases, Bool-cases, put_at,
}
use firemig.Sdk.Phoenix.Protocol.{SocketError}
use firemig.Sdk.Phoenix.Pending.{Settlement}
use firemig.Sdk.Phoenix.Pending.Soundness.{Sound-reject_all}
use firemig.Sdk.Phoenix.Pending.Counting.{tally-reject_all}
use firemig.Sdk.Phoenix.Socket.{
  PhoenixSocket, Peer, Connection, is_current, disconnect, close_socket, close, open_socket,
  open_state,
}
use firemig.Sdk.Phoenix.Socket.Connect.{
  connect, settle_connection, on_open, on_failure, on_error, is_opening, is_opened,
}
use firemig.Sdk.Phoenix.Session.Accounts.{Accounts, Accounts-same}

pub disconnect-Accounts :
    {history : List (ℕ × Settlement)} {least : ℕ} (candidate : ℕ) (error : SocketError)
    (client : PhoenixSocket)
    → Accounts history least client
    → Accounts history least (disconnect candidate error client)
unfolding disconnect
disconnect-Accounts candidate error client a = elim (Bool-cases (is_current candidate client)) [
  | inr other ↦ rw (other, disconnect) a
  | inl current ↦
      rw (current, disconnect)
        (record {
          sound = Sound-reject_all client.next_ref error client.pending a.sound;
          counted = λ p. tally-reject_all p error client.pending ∙ a.counted p;
          made = a.made;
        })
]

pub close_socket-Accounts :
    {history : List (ℕ × Settlement)} {least : ℕ} (candidate : ℕ) (status : Option ℕ)
    (client : PhoenixSocket)
    → Accounts history least client
    → Accounts history least (close_socket candidate status client)
unfolding close_socket
close_socket-Accounts candidate status client a = record {
  sound = a.sound;
  counted = a.counted;
  made = a.made;
}

pub close-Accounts :
    {history : List (ℕ × Settlement)} {least : ℕ} (client : PhoenixSocket)
    → Accounts history least client
    → Accounts history least (close client)
unfolding close
close-Accounts client a = elim (Option-cases client.socket) [
  | inl absent ↦ simp (absent, close) a
  | inr (held, there) ↦
      simp (there, close) (close_socket-Accounts held _ _ (disconnect-Accounts held _ client a))
]

pub settle_connection-Accounts :
    {history : List (ℕ × Settlement)} {least : ℕ} (candidate : ℕ) (outcome : Connection)
    (client : PhoenixSocket)
    → Accounts history least client
    → Accounts history least (settle_connection candidate outcome client)
unfolding settle_connection
settle_connection-Accounts candidate outcome client a =
    elim (Bool-cases (is_opening (client.connections candidate))) [
      | inl waiting ↦
          rw (waiting, settle_connection)
            (record { sound = a.sound; counted = a.counted; made = a.made })
      | inr settled ↦ rw (settled, settle_connection) a
    ]

pub on_open-Accounts :
    {history : List (ℕ × Settlement)} {least : ℕ} (candidate : ℕ) (client : PhoenixSocket)
    → Accounts history least client
    → Accounts history least (on_open candidate client)
unfolding on_open
on_open-Accounts candidate client a = elim (Bool-cases (is_current candidate client)) [
  | inl current ↦
      rw (current, on_open)
        (settle_connection-Accounts candidate Connection.opened
          (record client { heartbeat = some candidate })
          (record { sound = a.sound; counted = a.counted; made = a.made }))
  | inr other ↦ rw (other, on_open) a
]

pub on_failure-Accounts :
    {history : List (ℕ × Settlement)} {least : ℕ} (candidate : ℕ) (error : SocketError)
    (client : PhoenixSocket)
    → Accounts history least client
    → Accounts history least (on_failure candidate error client)
unfolding on_failure
on_failure-Accounts candidate error client a =
    elim (Bool-cases (is_opened (client.connections candidate))) [
      | inl was_open ↦ rw (was_open, on_failure) (disconnect-Accounts candidate error client a)
      | inr never ↦
          rw (never, on_failure)
            (disconnect-Accounts candidate error _
              (settle_connection-Accounts candidate _ client a))
    ]

pub on_error-Accounts :
    {history : List (ℕ × Settlement)} {least : ℕ} (peer : Peer) (candidate : ℕ)
    (client : PhoenixSocket)
    → Accounts history least client
    → Accounts history least (on_error peer candidate client)
unfolding on_error
on_error-Accounts peer candidate client a =
    elim (Bool-cases (ltb (peer.ready_state candidate) (open_state + 1))) [
      | inl early ↦
          rw (early, on_error)
            (close_socket-Accounts candidate _ _ (on_failure-Accounts candidate _ client a))
      | inr late ↦ rw (late, on_error) (on_failure-Accounts candidate _ client a)
    ]

pub connect-Accounts :
    {history : List (ℕ × Settlement)} {least : ℕ} (peer : Peer) (client : PhoenixSocket)
    → Accounts history least client
    → Accounts history least (connect peer client)
unfolding connect
connect-Accounts peer client a = elim (Option-cases (open_socket peer client)) [
  | inr (held, open_now) ↦ rw (open_now, connect) a
  | inl shut ↦ elim (Option-cases client.connecting) [
    | inr (promise, waiting) ↦ simp (shut, waiting, connect) a
    | inl idle ↦
        simp (shut, idle, connect)
          (Accounts-same client
            (record client {
              socket = some client.next_socket;
              connecting = some client.next_socket;
              connections = put_at client.connections client.next_socket Connection.opening;
              next_socket = client.next_socket + 1;
            })
            refl refl refl a)
  ]
]
