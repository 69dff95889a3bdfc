-- ===== src/Sdk/Phoenix/Pending.antt =====
-- packages/sdk/src/phoenix/pending.ts: the outstanding pushes, keyed by ref. A promise is a
-- number; `settled` lists the calls of `resolve` and `reject`, the latest first.
pub mod Accounts
pub mod Soundness
pub mod Counting
use firemig.Prelude.{
  ℕ, ◌⊎◌, inl, inr, String, Option, none, some, List, [], ◌∷◌, ◌++◌, ◌==◌, ◌===◌, if◌then◌else◌,
}
use firemig.Prelude.Entries.{lookup, insert, erase}
use firemig.Common.Json.{Json}
use firemig.Sdk.Errors.{error_of_body}
use firemig.Sdk.Phoenix.Protocol.{
  PhoenixMessage, phoenix_message, reply_payload, SocketError, api, aborted, internal_body,
  channel_error, FrameData, FrameText, read, ignored, failed_read, message_text,
}

-- `signal` is there if `removeAbortListener` is.
pub record PendingReply : Type 0 where
  pub promise : ℕ
  pub signal : Option ℕ

-- The `onAbort` of one push, as it hangs on its signal.
pub record AbortListener : Type 0 where
  pub of_promise : ℕ
  pub on_signal : ℕ
  pub at_ref : String

pub data Settlement : Type 0 where
  resolved : Json → Settlement
  failed : SocketError → Settlement

pub record PendingReplies : Type 0 where
  pub entries : List (String × PendingReply)
  pub listeners : List AbortListener
  pub settled : List (ℕ × Settlement)

unfoldable pub settle_promise : ℕ → Settlement → PendingReplies → PendingReplies
settle_promise promise outcome replies = record replies {
  settled = (promise, outcome) ∷ replies.settled;
}

unfoldable pub find_listener : ℕ → List AbortListener → Option AbortListener
find_listener promise [] = none
find_listener promise (l ∷ rest) =
    if l.of_promise == promise then some l else find_listener promise rest

unfoldable pub drop_listener : ℕ → List AbortListener → List AbortListener
drop_listener promise [] = []
drop_listener promise (l ∷ rest) =
    let kept = drop_listener promise rest in if l.of_promise == promise then kept else l ∷ kept

-- `pending.removeAbortListener?.()`
unfoldable pub remove_abort_listener : PendingReply → PendingReplies → PendingReplies
remove_abort_listener reply replies = elim reply.signal [
  | none ↦ replies
  | some _ ↦ record replies { listeners = drop_listener reply.promise replies.listeners }
]

abbrev listen : Option ℕ → String → ℕ → List AbortListener → List AbortListener
listen none ref promise listeners = listeners
listen (some signal) ref promise listeners =
    listeners ++ record { of_promise = promise; on_signal = signal; at_ref = ref } ∷ []

unfoldable pub add : String → ℕ → Option ℕ → PendingReplies → PendingReplies
add ref promise signal replies = record replies {
  listeners = listen signal ref promise replies.listeners;
  entries = insert ref (record { promise = promise; signal = signal }) replies.entries;
}

unfoldable pub take : String → PendingReplies → Option PendingReply × PendingReplies
unfolding remove_abort_listener
take ref replies = elim (lookup ref replies.entries) [
  | none ↦ (none, replies)
  | some reply ↦ (
    some reply,
    remove_abort_listener reply (record replies { entries = erase ref replies.entries }),
  )
]

unfoldable pub discard : String → PendingReply → PendingReplies → PendingReplies
unfolding remove_abort_listener
discard ref reply replies =
    remove_abort_listener reply (record replies { entries = erase ref replies.entries })

unfoldable pub reject_each :
    SocketError → List (String × PendingReply) → PendingReplies → PendingReplies
unfolding remove_abort_listener settle_promise
reject_each error [] replies = replies
reject_each error ((ref, reply) ∷ rest) replies =
    reject_each error rest
      (settle_promise reply.promise (failed error) (remove_abort_listener reply replies))

unfoldable pub reject_all : SocketError → PendingReplies → PendingReplies
unfolding reject_each
reject_all error replies = record (reject_each error replies.entries replies) { entries = [] }

-- The event of an aborted signal reaches one listener, once, if it still hangs there.
unfoldable pub fire : ℕ → PendingReplies → PendingReplies
unfolding settle_promise
fire promise replies = elim (find_listener promise replies.listeners) [
  | none ↦ replies
  | some l ↦
      let fired = record replies { listeners = drop_listener promise replies.listeners } in
      elim (lookup l.at_ref replies.entries) [
        | none ↦ fired
        | some _ ↦
            settle_promise promise (failed aborted)
              (record fired { entries = erase l.at_ref replies.entries })
      ]
]

unfoldable pub fire_all : ℕ → List AbortListener → PendingReplies → PendingReplies
fire_all signal [] replies = replies
fire_all signal (l ∷ rest) replies =
    fire_all signal rest (if l.on_signal == signal then fire l.of_promise replies else replies)

unfoldable pub abort : ℕ → PendingReplies → PendingReplies
abort signal replies = fire_all signal replies.listeners replies

unfoldable pub settle_reply : PendingReply → Json → PendingReplies → PendingReplies
unfolding settle_promise
settle_reply reply payload replies = elim (reply_payload payload) [
  | none ↦ settle_promise reply.promise (failed (api (error_of_body internal_body))) replies
  | some (status, response) ↦
      settle_promise reply.promise
        (if status === "ok" then resolved response else failed (channel_error response)) replies
]

-- What a frame does: nothing more, an event for the listeners, or a failure of the decoding.
pub data Dispatched : Type 0 where
  handled : Dispatched
  event_of : PhoenixMessage → Dispatched
  decode_failed : Dispatched

abbrev settle_taken : Json → Option PendingReply × PendingReplies → PendingReplies
settle_taken payload (none, replies) = replies
settle_taken payload (some reply, replies) = settle_reply reply payload replies

unfoldable pub dispatch_message : PhoenixMessage → PendingReplies → Dispatched × PendingReplies
unfolding take settle_reply
dispatch_message message replies = elim message.ref [
  | none ↦ (event_of message, replies)
  | some ref ↦
      if message.event === "phx_reply"
      then (handled, settle_taken message.payload (take ref replies))
      else (event_of message, replies)
]

unfoldable pub dispatch_read :
    Dispatched ⊎ PhoenixMessage → PendingReplies → Dispatched × PendingReplies
unfolding dispatch_message
dispatch_read (inl outcome) replies = (outcome, replies)
dispatch_read (inr message) replies = dispatch_message message replies

module _ (parse_json : String → Option Json) where
  unfoldable pub frame_message : FrameText → Dispatched ⊎ PhoenixMessage
  frame_message failed_read = inl decode_failed
  frame_message ignored = inl handled
  frame_message (read s) = elim (parse_json s) [
    | none ↦ inl handled
    | some value ↦ elim (phoenix_message value) [ none ↦ inl handled | some message ↦ inr message ]
  ]

  unfoldable pub dispatch_frame : FrameData → PendingReplies → Dispatched × PendingReplies
  unfolding frame_message dispatch_read
  dispatch_frame frame replies = dispatch_read (frame_message (message_text frame)) replies
