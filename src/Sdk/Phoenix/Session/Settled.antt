-- ===== src/Sdk/Phoenix/Session/Settled.antt =====
-- packages/sdk/src/phoenix: the promises of a client from its start on.
use firemig.Prelude.{
  List, ℕ, ◌+◌, ◌<◌, ◌≡◌, refl, String, true, Option, [], ltb, if◌then◌else◌, arith,
}
use firemig.Common.Json.{Json}
use firemig.Sdk.Phoenix.Protocol.{SocketError}
use firemig.Sdk.Phoenix.Pending.{Settlement, reject_all}
use firemig.Sdk.Phoenix.Pending.Accounts.{Counted, tally, settled_count}
use firemig.Sdk.Phoenix.Socket.{PhoenixSocket, is_current, disconnect, subscribe, unsubscribe}
use firemig.Sdk.Phoenix.Session.{
  new_client, Step, begins_join, connects, pushes_join, finishes_join, ends_join, pushes_command,
  receives, opens, errs, closes, beats, aborts, shuts, subscribes, unsubscribes, Reach, here, next,
}
use firemig.Sdk.Phoenix.Session.Accounts.{
  Accounts, new_client-Accounts, push_join-Accounts, push_command-Accounts,
}
use firemig.Sdk.Phoenix.Session.Events.{
  finish_join-Accounts, end_join-Accounts, handle_message-Accounts, on_close-Accounts,
  beat-Accounts, abort_signal-Accounts, begin_join-Accounts,
}
use firemig.Sdk.Phoenix.Session.Sockets.{
  disconnect-Accounts, connect-Accounts, on_open-Accounts, on_error-Accounts, close-Accounts,
}

-- With nothing pending, what counts is settled.
settled_of :
    (p : ℕ) (client : PhoenixSocket) (made : ℕ)
    → client.pending.entries ≡ []
    → client.next_promise ≡ made
    → p < made
    → tally p client.pending ≡ (if ltb p client.next_promise then 1 else 0)
    → settled_count p client.pending.settled ≡ 1
settled_of p client made gone same below counted =
    let q : 0 + settled_count p client.pending.settled ≡ (if ltb p made then 1 else 0) =
      rw (gone, same) at counted in
    ground arith

module _ (parse_json : String → Option Json) where
  pub Step-Accounts :
      {history : List (ℕ × Settlement)} {least : ℕ} {client after : PhoenixSocket}
      → Step parse_json client after
      → Accounts history least client
      → Accounts history least after
  unfolding subscribe unsubscribe
  Step-Accounts (begins_join topic client) a = begin_join-Accounts topic client a
  Step-Accounts (connects peer client) a = connect-Accounts peer client a
  Step-Accounts (pushes_join peer topic client) a = push_join-Accounts peer topic client a
  Step-Accounts (finishes_join topic key promise client) a =
      finish_join-Accounts topic key promise client a
  Step-Accounts (ends_join topic promise client) a = end_join-Accounts topic promise client a
  Step-Accounts (pushes_command peer join_ref topic command_id request signal client) a =
      push_command-Accounts peer join_ref topic command_id request signal client a
  Step-Accounts (receives candidate frame client) a =
      handle_message-Accounts parse_json candidate frame client a
  Step-Accounts (opens candidate client) a = on_open-Accounts candidate client a
  Step-Accounts (errs peer candidate client) a = on_error-Accounts peer candidate client a
  Step-Accounts (closes candidate reason client) a = on_close-Accounts candidate reason client a
  Step-Accounts (beats peer candidate client) a = beat-Accounts peer candidate client a
  Step-Accounts (aborts signal client) a = abort_signal-Accounts signal client a
  Step-Accounts (shuts client) a = close-Accounts client a
  Step-Accounts (subscribes listener client) a = record {
    sound = a.sound;
    counted = a.counted;
    made = a.made;
  }
  Step-Accounts (unsubscribes listener client) a = record {
    sound = a.sound;
    counted = a.counted;
    made = a.made;
  }

  pub reached-Accounts :
      {client : PhoenixSocket} → Reach parse_json new_client client → Accounts [] 0 client
  reached-Accounts here = new_client-Accounts
  reached-Accounts (next run step) = Step-Accounts step (reached-Accounts run)

  -- Whatever happens to a new client, each promise that its pushes made is either pending or was
  -- settled, exactly once, and no other promise is pending or was settled.
  pub reached-Counted :
      {client : PhoenixSocket}
      → Reach parse_json new_client client
      → Counted client.next_promise client.pending
  reached-Counted run = (reached-Accounts run).counted

  -- However a client came to its state, when its current socket is disconnected nothing is pending
  -- any more, and each promise that its pushes made until then has been settled exactly once.
  pub disconnect_settles :
      {client : PhoenixSocket} (candidate : ℕ) (error : SocketError) (p : ℕ)
      → Reach parse_json new_client client
      → is_current candidate client ≡ true
      → p < client.next_promise
      → ((disconnect candidate error client).pending.entries ≡ [])
        × (settled_count p (disconnect candidate error client).pending.settled ≡ 1)
  unfolding disconnect reject_all
  disconnect_settles {client} candidate error p run current below =
      let a = disconnect-Accounts candidate error client (reached-Accounts run) in
      let gone : (disconnect candidate error client).pending.entries ≡ [] =
        rw (current, disconnect) refl in
      (
        gone,
        settled_of p (disconnect candidate error client) client.next_promise gone
            (rw (current, disconnect) refl) below (a.counted p),
      )
