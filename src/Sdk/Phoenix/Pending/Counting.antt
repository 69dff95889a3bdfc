-- ===== src/Sdk/Phoenix/Pending/Counting.antt =====
-- packages/sdk/src/phoenix/pending.ts: how each operation moves promises from pending to settled.
use firemig.Prelude.{
  ℕ, ◌+◌, ◌≡◌, ◌⊎◌, refl, ◌∙◌, String, Option, some, List, [], ◌∷◌, ◌==◌, ◌===◌, arith, inl, inr,
  Option-cases, Bool-cases,
}
use firemig.Prelude.Entries.{lookup, erase, insert_fresh}
use firemig.Platform.Decimal.{decimal}
use firemig.Common.Json.{Json}
use firemig.Sdk.Phoenix.Protocol.{
  SocketError, PhoenixMessage, reply_payload, FrameData, message_text,
}
use firemig.Sdk.Phoenix.Pending.{
  PendingReply, AbortListener, Settlement, PendingReplies, settle_promise, find_listener,
  remove_abort_listener, add, take, discard, reject_each, reject_all, fire, fire_all, abort,
  settle_reply, Dispatched, dispatch_message, dispatch_read, frame_message, dispatch_frame,
}
use firemig.Sdk.Phoenix.Pending.Accounts.{
  Sound, tally, one_if, pending_count, settled_count, pending-erase, pending-append, find-All,
  fresh,
}
use firemig.Sdk.Phoenix.Pending.Soundness.{Sound-discard, Sound-erase, Sound-drop, Sound-settle}

-- Removing a listener moves no promise.
entries-remove :
    (reply : PendingReply) (replies : PendingReplies)
    → (remove_abort_listener reply replies).entries ≡ replies.entries
unfolding remove_abort_listener
entries-remove reply replies = ground arith

settled-remove :
    (reply : PendingReply) (replies : PendingReplies)
    → (remove_abort_listener reply replies).settled ≡ replies.settled
unfolding remove_abort_listener
settled-remove reply replies = ground arith

pub tally-remove :
    (p : ℕ) (reply : PendingReply) (replies : PendingReplies)
    → tally p (remove_abort_listener reply replies) ≡ tally p replies
tally-remove p reply replies = rw (entries-remove reply replies, settled-remove reply replies) refl

pub tally-settle :
    (p promise : ℕ) (outcome : Settlement) (replies : PendingReplies)
    → tally p (settle_promise promise outcome replies) ≡ one_if p promise + tally p replies
unfolding settle_promise
tally-settle p promise outcome replies = omega arith

pub tally-discard :
    (p : ℕ) (key : String) (reply held : PendingReply) (replies : PendingReplies)
    → lookup key replies.entries ≡ some held
    → one_if p held.promise + tally p (discard key reply replies) ≡ tally p replies
unfolding discard
tally-discard p key reply held replies e = omega (
  arith,
  tally-remove p reply (record replies { entries = erase key replies.entries }),
  pending-erase p key held replies.entries e,
)

pub tally-add :
    {history : List (ℕ × Settlement)} (p next promise : ℕ) (signal : Option ℕ)
    (replies : PendingReplies)
    → Sound history next replies
    → tally p (add (decimal next) promise signal replies) ≡ one_if p promise + tally p replies
unfolding add
tally-add p next promise signal replies s =
    let reply : PendingReply = record { promise = promise; signal = signal } in
    rw (insert_fresh (decimal next) reply replies.entries (fresh next replies s))
      (omega (arith, pending-append p replies.entries ((decimal next, reply) ∷ [])))

settled_count-remove :
    (p : ℕ) (reply : PendingReply) (replies : PendingReplies)
    → settled_count p (remove_abort_listener reply replies).settled
      ≡ settled_count p replies.settled
settled_count-remove p reply replies = rw (settled-remove reply replies) refl

-- Every entry of the list is settled, and nothing else changes.
reject_each_lem :
    (p : ℕ) (error : SocketError) (entries : List (String × PendingReply))
    (replies : PendingReplies)
    → settled_count p (reject_each error entries replies).settled
      ≡ pending_count p entries + settled_count p replies.settled
unfolding reject_each settle_promise
reject_each_lem p error [] replies = omega arith
reject_each_lem p error ((ref, reply) ∷ rest) replies = omega (
  arith,
  reject_each_lem p error rest (
      settle_promise reply.promise (Settlement.failed error) (remove_abort_listener reply replies)),
  settled_count-remove p reply replies,
)

pub tally-reject_all :
    (p : ℕ) (error : SocketError) (replies : PendingReplies)
    → tally p (reject_all error replies) ≡ tally p replies
unfolding reject_all
tally-reject_all p error replies = omega (arith, reject_each_lem p error replies.entries replies)

fired :
    (p promise : ℕ) (l : AbortListener) (replies : PendingReplies) (reply : PendingReply)
    → lookup l.at_ref replies.entries ≡ some reply
    → reply.promise ≡ promise
    → pending_count p (erase l.at_ref replies.entries)
        + (one_if p promise + settled_count p replies.settled)
      ≡ tally p replies
fired p promise l replies reply there same =
    rw (← same) (omega (arith, pending-erase p l.at_ref reply replies.entries there))

-- A reply settles the promise that it is for.
tally-settle_reply :
    (p : ℕ) (reply : PendingReply) (payload : Json) (replies : PendingReplies)
    → tally p (settle_reply reply payload replies) ≡ one_if p reply.promise + tally p replies
unfolding settle_reply settle_promise
tally-settle_reply p reply payload replies = elim (Option-cases (reply_payload payload)) [
  | inl bad ↦ rw (bad, settle_reply) (omega arith)
  | inr (found, e) ↦ rw (e, settle_reply) (omega arith)
]

Sound-settle_reply :
    {history : List (ℕ × Settlement)} (next : ℕ) (reply : PendingReply) (payload : Json)
    (replies : PendingReplies)
    → Sound history next replies
    → Sound history next (settle_reply reply payload replies)
unfolding settle_reply
Sound-settle_reply next reply payload replies s = elim (Option-cases (reply_payload payload)) [
  | inl bad ↦ rw (bad, settle_reply) (Sound-settle next reply.promise _ replies s)
  | inr (found, e) ↦ rw (e, settle_reply) (Sound-settle next reply.promise _ replies s)
]

module _ (next p : ℕ) where
  -- A message leaves every promise pending or settled as often as it was.
  dispatch_message_lem :
      {history : List (ℕ × Settlement)} (message : PhoenixMessage) (replies : PendingReplies)
      → Sound history next replies
      → Sound history next (dispatch_message message replies).1
        × (tally p (dispatch_message message replies).1 ≡ tally p replies)
  unfolding dispatch_message take discard
  dispatch_message_lem message replies s = elim (Option-cases message.ref) [
    | inl none_given ↦ rw (none_given, dispatch_message) (s, refl)
    | inr (key, given) ↦ elim (Bool-cases (message.event === "phx_reply")) [
      | inr other ↦ rw (given, other, dispatch_message) (s, refl)
      | inl a_reply ↦ elim (Option-cases (lookup key replies.entries)) [
        | inl absent ↦ rw (given, a_reply, absent, dispatch_message, take) (s, refl)
        | inr (reply, there) ↦
            rw (given, a_reply, there, dispatch_message, take)
              (
                Sound-settle_reply next reply message.payload _
                    (Sound-discard next key reply replies s),
                tally-settle_reply p reply message.payload (discard key reply replies)
                    ∙ tally-discard p key reply reply replies there,
              )
      ]
    ]
  ]

  dispatch_read_lem :
      {history : List (ℕ × Settlement)} (read : Dispatched ⊎ PhoenixMessage)
      (replies : PendingReplies)
      → Sound history next replies
      → Sound history next (dispatch_read read replies).1
        × (tally p (dispatch_read read replies).1 ≡ tally p replies)
  unfolding dispatch_read
  dispatch_read_lem (inl outcome) replies s = (s, refl)
  dispatch_read_lem (inr message) replies s = dispatch_message_lem message replies s

  pub dispatch_frame_lem :
      {history : List (ℕ × Settlement)} (parse_json : String → Option Json) (frame : FrameData)
      (replies : PendingReplies)
      → Sound history next replies
      → Sound history next (dispatch_frame parse_json frame replies).1
        × (tally p (dispatch_frame parse_json frame replies).1 ≡ tally p replies)
  unfolding dispatch_frame
  dispatch_frame_lem parse_json frame replies s =
      dispatch_read_lem (frame_message parse_json (message_text frame)) replies s

  -- An aborted signal settles the promise that its listener belongs to, if it is still pending.
  fire_lem :
      {history : List (ℕ × Settlement)} (promise : ℕ) (replies : PendingReplies)
      → Sound history next replies
      → Sound history next (fire promise replies)
        × (tally p (fire promise replies) ≡ tally p replies)
  unfolding fire
  fire_lem promise replies s = elim (Option-cases (find_listener promise replies.listeners)) [
    | inl absent ↦ rw (absent, fire) (s, refl)
    | inr (l, found) ↦
        let dropped = Sound-drop next promise replies s in
        elim (Option-cases (lookup l.at_ref replies.entries)) [
          | inl gone ↦ rw (found, gone, fire) (dropped, refl)
          | inr (reply, there) ↦
              let (linked, same) = find-All _ promise replies.listeners l s.linked found in
              rw (found, there, fire)
                (
                  Sound-settle next promise _ _ (Sound-erase next l.at_ref _ dropped),
                  fired p promise l replies reply there (linked.0 reply there ∙ same),
                )
        ]
  ]

  pub fire_all_lem :
      {history : List (ℕ × Settlement)} (signal : ℕ) (listeners : List AbortListener)
      (replies : PendingReplies)
      → Sound history next replies
      → Sound history next (fire_all signal listeners replies)
        × (tally p (fire_all signal listeners replies) ≡ tally p replies)
  unfolding fire_all
  fire_all_lem signal [] replies s = (s, refl)
  fire_all_lem signal (l ∷ rest) replies s = elim (Bool-cases (l.on_signal == signal)) [
    | inl hit ↦
        let (sound, same) = fire_lem l.of_promise replies s in
        let (sound', same') = fire_all_lem signal rest (fire l.of_promise replies) sound in
        rw (hit, fire_all) (sound', same' ∙ same)
    | inr miss ↦ rw (miss, fire_all) (fire_all_lem signal rest replies s)
  ]

  pub abort_lem :
      {history : List (ℕ × Settlement)} (signal : ℕ) (replies : PendingReplies)
      → Sound history next replies
      → Sound history next (abort signal replies)
        × (tally p (abort signal replies) ≡ tally p replies)
  unfolding abort
  abort_lem signal replies s = fire_all_lem signal replies.listeners replies s
