-- ===== src/Sdk/Phoenix/Session/Accounts.antt =====
-- packages/sdk/src/phoenix/socket.ts: every promise of a push is settled once, or pending.
use firemig.Prelude.{
  ℕ, ◌+◌, ◌≡◌, refl, ◌∙◌, String, Option, none, some, arith, inl, inr, Option-cases, Bool-cases,
  List, [], ◌≤◌,
}
use firemig.Prelude.Entries.{lookup}
use firemig.Platform.Decimal.{decimal}
use firemig.Common.Json.{Json}
use firemig.Sdk.Phoenix.Protocol.{PhoenixMessage, SocketError, aborted, not_connected}
use firemig.Sdk.Phoenix.Pending.{PendingReply, PendingReplies, Settlement, add, discard}
use firemig.Sdk.Phoenix.Pending.Accounts.{Sound, Counted}
use firemig.Sdk.Phoenix.Pending.Soundness.{
  lookup_here, Sound-more, Sound-settle, Sound-add, Sound-discard,
}
use firemig.Sdk.Phoenix.Pending.Counting.{tally-settle, tally-discard, tally-add}
use firemig.Sdk.Phoenix.Socket.{
  PhoenixSocket, Peer, ref, open_socket, signal_aborted, rejected_push, send_push, push, push_join,
}
use firemig.Sdk.Phoenix.Commands.{push_command}
use firemig.Sdk.Phoenix.Session.{new_client}

-- `history` had been settled, and `least` promises had been made.
pub record Accounts (history : List (ℕ × Settlement)) (least : ℕ) (client : PhoenixSocket)
    : Type 0 where
  pub sound : Sound history client.next_ref client.pending
  pub counted : Counted client.next_promise client.pending
  pub made : least ≤ client.next_promise

pub new_client-Accounts : Accounts [] 0 new_client
unfolding new_client lookup
new_client-Accounts = record {
  sound = record {
    distinct = tt;
    issued = λ key reply e. absurd (cc);
    linked = tt;
    kept = ([], refl);
  };
  counted = λ p. ground arith;
  made = omega arith;
}

-- A change of other fields.
pub Accounts-same :
    {history : List (ℕ × Settlement)} {least : ℕ} (client other : PhoenixSocket)
    → other.next_ref ≡ client.next_ref
    → other.next_promise ≡ client.next_promise
    → other.pending ≡ client.pending
    → Accounts history least client
    → Accounts history least other
Accounts-same client other r p q a = record {
  sound = rw (r, q) a.sound;
  counted = rw (p, q) a.counted;
  made = rw p a.made;
}

-- A push hands its ref out and makes one promise.
module _ {history : List (ℕ × Settlement)} {least : ℕ} (client : PhoenixSocket) (next : ℕ)
    (handed : client.next_ref ≡ next + 1) (sound : Sound history next client.pending)
    (counted : Counted client.next_promise client.pending)
    (made : least ≤ client.next_promise) where
  Accounts-rejected_push :
      (error : SocketError) → Accounts history least (rejected_push error client)
  unfolding rejected_push
  Accounts-rejected_push error = record {
    sound =
        Sound-settle client.next_ref client.next_promise _ client.pending
          (Sound-more next client.next_ref client.pending (omega arith) sound);
    counted = λ p. ground (
      arith,
      counted p,
      tally-settle p client.next_promise (Settlement.failed error) client.pending,
    );
    made = omega (arith, made);
  }

  module _ (message : PhoenixMessage) (signal : Option ℕ) where
    abbrev added : PendingReplies
    added = add (decimal next) client.next_promise signal client.pending

    abbrev held_reply : PendingReply
    held_reply = record { promise = client.next_promise; signal = signal }

    Sound-added : Sound history client.next_ref added
    Sound-added =
        Sound-more (next + 1) client.next_ref added (omega arith)
          (Sound-add next client.pending sound client.next_promise signal)

    added_here : lookup (decimal next) added.entries ≡ some held_reply
    added_here = lookup_here next client.pending sound client.next_promise signal

    Counted-added : Counted (client.next_promise + 1) added
    Counted-added p =
        ground (arith, counted p, tally-add p next client.next_promise signal client.pending sound)

    Accounts-send_push :
        (peer : Peer) (held : ℕ)
        → Accounts history least (send_push peer held (decimal next) message signal client)
    unfolding send_push
    Accounts-send_push peer held = elim (Option-cases (peer.send_error held message)) [
      | inl sent ↦
          rw (sent, send_push)
            (record { sound = Sound-added; counted = Counted-added; made = omega (arith, made) })
      | inr (error, failing) ↦
          rw (failing, send_push)
            (record {
              sound =
                  Sound-settle client.next_ref client.next_promise _ _
                    (Sound-discard client.next_ref (decimal next) held_reply added Sound-added);
              counted = λ p.
                  tally-settle p client.next_promise (Settlement.failed error)
                    (discard (decimal next) held_reply added)
                  ∙ tally-discard p (decimal next) held_reply held_reply added added_here
                  ∙ Counted-added p;
              made = omega (arith, made);
            })
    ]

    Accounts-push :
        (peer : Peer) → Accounts history least (push peer (decimal next) message signal client)
    unfolding push
    Accounts-push peer = elim (Bool-cases (signal_aborted peer signal)) [
      | inl gone ↦ rw (gone, push) (Accounts-rejected_push aborted)
      | inr live ↦ elim (Option-cases (open_socket peer client)) [
        | inl shut ↦ rw (live, shut, push) (Accounts-rejected_push not_connected)
        | inr (held, open_now) ↦ rw (live, open_now, push) (Accounts-send_push peer held)
      ]
    ]

-- A push with the ref that the client hands out.
pub push_next :
    {history : List (ℕ × Settlement)} {least : ℕ} (peer : Peer) (message : PhoenixMessage)
    (signal : Option ℕ) (client : PhoenixSocket)
    → Accounts history least client
    → Accounts history least (push peer (ref client).0 message signal (ref client).1)
unfolding ref
push_next peer message signal client a =
    Accounts-push (ref client).1 client.next_ref refl a.sound a.counted a.made message signal peer

pub push_join-Accounts :
    {history : List (ℕ × Settlement)} {least : ℕ} (peer : Peer) (topic : String)
    (client : PhoenixSocket)
    → Accounts history least client
    → Accounts history least (push_join peer topic client)
unfolding push_join
push_join-Accounts peer topic client a = push_next peer _ none client a

pub push_command-Accounts :
    {history : List (ℕ × Settlement)} {least : ℕ} (peer : Peer) (join_ref topic command_id : String)
    (request : Json) (signal : Option ℕ) (client : PhoenixSocket)
    → Accounts history least client
    → Accounts history least (push_command peer join_ref topic command_id request signal client)
unfolding push_command
push_command-Accounts peer join_ref topic command_id request signal client a =
    push_next peer _ signal client a
