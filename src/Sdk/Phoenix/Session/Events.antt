-- ===== src/Sdk/Phoenix/Session/Events.antt =====
-- packages/sdk/src/phoenix/socket.ts and connect.ts: what each event does to the promises.
use firemig.Prelude.{
  ℕ, ◌+◌, ◌∙◌, String, Option, List, [], ◌∷◌, ◌==◌, arith, inl, inr, Option-cases, Bool-cases,
}
use firemig.Prelude.Entries.{lookup, insert}
use firemig.Common.Json.{Json}
use firemig.Sdk.Phoenix.Protocol.{PhoenixMessage, FrameData}
use firemig.Sdk.Phoenix.Pending.{
  Settlement, Dispatched, handled, event_of, decode_failed, dispatch_frame,
}
use firemig.Sdk.Phoenix.Pending.Soundness.{Sound-more}
use firemig.Sdk.Phoenix.Pending.Counting.{dispatch_frame_lem, abort_lem}
use firemig.Sdk.Phoenix.Socket.{
  PhoenixSocket, Peer, is_current, begin_join, end_join, finish_join, open_state,
}
use firemig.Sdk.Phoenix.Socket.Connect.{on_close, beat, report, handle_message, after_dispatch}
use firemig.Sdk.Phoenix.Session.{abort_signal}
use firemig.Sdk.Phoenix.Session.Accounts.{Accounts}
use firemig.Sdk.Phoenix.Session.Sockets.{
  disconnect-Accounts, close_socket-Accounts, on_failure-Accounts,
}

pub begin_join-Accounts :
    {history : List (ℕ × Settlement)} {least : ℕ} (topic : String) (client : PhoenixSocket)
    → Accounts history least client
    → Accounts history least (begin_join topic client).1
unfolding begin_join
begin_join-Accounts topic client a = elim (Option-cases (lookup topic client.joined_topics)) [
  | inr (held, joined) ↦ rw (joined, begin_join) a
  | inl left ↦ elim (Option-cases (lookup topic client.joining_topics)) [
    | inr (promise, waiting) ↦ rw (left, waiting, begin_join) a
    | inl new ↦
        rw (left, new, begin_join) (record { sound = a.sound; counted = a.counted; made = a.made })
  ]
]

pub end_join-Accounts :
    {history : List (ℕ × Settlement)} {least : ℕ} (topic : String) (promise : ℕ)
    (client : PhoenixSocket)
    → Accounts history least client
    → Accounts history least (end_join topic promise client)
unfolding end_join
end_join-Accounts topic promise client a =
    elim (Option-cases (lookup topic client.joining_topics)) [
      | inl absent ↦ rw (absent, end_join) a
      | inr (held, there) ↦ elim (Bool-cases (held == promise)) [
        | inl own ↦
            rw (there, own, end_join)
              (record { sound = a.sound; counted = a.counted; made = a.made })
        | inr other ↦ rw (there, other, end_join) a
      ]
    ]

pub finish_join-Accounts :
    {history : List (ℕ × Settlement)} {least : ℕ} (topic key : String) (promise : ℕ)
    (client : PhoenixSocket)
    → Accounts history least client
    → Accounts history least (finish_join topic key promise client)
unfolding finish_join
finish_join-Accounts topic key promise client a =
    end_join-Accounts topic promise
      (record client { joined_topics = insert topic key client.joined_topics })
      (record { sound = a.sound; counted = a.counted; made = a.made })

pub beat-Accounts :
    {history : List (ℕ × Settlement)} {least : ℕ} (peer : Peer) (candidate : ℕ)
    (client : PhoenixSocket)
    → Accounts history least client
    → Accounts history least (beat peer candidate client)
unfolding beat
beat-Accounts peer candidate client a = elim (Bool-cases (is_current candidate client)) [
  | inr other ↦ rw (other, beat) a
  | inl current ↦ elim (Bool-cases (peer.ready_state candidate == open_state)) [
    | inr shut ↦ rw (current, shut, beat) a
    | inl open_now ↦
        rw (current, open_now, beat)
          (record {
            sound = Sound-more client.next_ref (client.next_ref + 1) _ (omega arith) a.sound;
            counted = a.counted;
            made = a.made;
          })
  ]
]

report-Accounts :
    {history : List (ℕ × Settlement)} {least : ℕ} (listeners : List ℕ) (message : PhoenixMessage)
    (client : PhoenixSocket)
    → Accounts history least client
    → Accounts history least (report listeners message client)
unfolding report
report-Accounts [] message client a = a
report-Accounts (l ∷ rest) message client a =
    report-Accounts rest message _ (record { sound = a.sound; counted = a.counted; made = a.made })

after_dispatch-Accounts :
    {history : List (ℕ × Settlement)} {least : ℕ} (parse_json : String → Option Json)
    (candidate : ℕ) (outcome : Dispatched) (client : PhoenixSocket)
    → Accounts history least client
    → Accounts history least (after_dispatch parse_json candidate outcome client)
after_dispatch-Accounts parse_json candidate handled client a = a
after_dispatch-Accounts parse_json candidate (event_of message) client a =
    report-Accounts client.event_listeners message client a
after_dispatch-Accounts parse_json candidate decode_failed client a =
    close_socket-Accounts candidate _ _ (disconnect-Accounts candidate _ client a)

pub handle_message-Accounts :
    {history : List (ℕ × Settlement)} {least : ℕ} (parse_json : String → Option Json)
    (candidate : ℕ) (frame : FrameData) (client : PhoenixSocket)
    → Accounts history least client
    → Accounts history least (handle_message parse_json candidate frame client)
unfolding handle_message
handle_message-Accounts parse_json candidate frame client a =
    let read = dispatch_frame parse_json frame client.pending in
    after_dispatch-Accounts parse_json candidate read.0 (record client { pending = read.1 })
      (record {
        sound = (dispatch_frame_lem client.next_ref 0 parse_json frame client.pending a.sound).0;
        counted = λ p.
            (dispatch_frame_lem client.next_ref p parse_json frame client.pending a.sound).1
            ∙ a.counted p;
        made = a.made;
      })

pub abort_signal-Accounts :
    {history : List (ℕ × Settlement)} {least : ℕ} (signal : ℕ) (client : PhoenixSocket)
    → Accounts history least client
    → Accounts history least (abort_signal signal client)
unfolding abort_signal
abort_signal-Accounts signal client a = record {
  sound = (abort_lem client.next_ref 0 signal client.pending a.sound).0;
  counted = λ p. (abort_lem client.next_ref p signal client.pending a.sound).1 ∙ a.counted p;
  made = a.made;
}

pub on_close-Accounts :
    {history : List (ℕ × Settlement)} {least : ℕ} (candidate : ℕ) (reason : Option String)
    (client : PhoenixSocket)
    → Accounts history least client
    → Accounts history least (on_close candidate reason client)
unfolding on_close
on_close-Accounts candidate reason client a = on_failure-Accounts candidate _ client a
