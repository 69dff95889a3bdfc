-- ===== src/Sdk/Phoenix/Commands.antt =====
-- packages/sdk/src/websocket.ts: commands of a sandbox over the Phoenix socket. A payload that the
-- client makes is a JSON value; the results of commands are read from the messages.
use Prim.Native.String.{◌++◌}
use firemig.Prelude.{
  ℕ, String, Bool, true, false, not, ◌||◌, Option, none, some, List, [], ◌∷◌, ◌===◌, if◌then◌else◌,
}
use firemig.Common.Json.{
  Json, null, boolean, text, object, Fields, end, field, member, as_text, as_boolean,
}
use firemig.Sdk.Phoenix.Protocol.{PhoenixMessage, SocketError, aborted, channel_error}
use firemig.Sdk.Phoenix.Socket.{PhoenixSocket, Peer, ref, push}

pub record CommandEvent : Type 0 where
  pub command_id : String
  pub status : String
  pub result : Option Json
  pub error : Option Json

abbrev event_with : Option String → Option String → Json → Option CommandEvent
event_with (some command_id) (some status) value = some (record {
  command_id = command_id;
  status = status;
  result = member "result" value;
  error = member "error" value;
})
event_with _ _ value = none

unfoldable pub command_event : Json → Option CommandEvent
command_event value =
    event_with (as_text (member "commandId" value)) (as_text (member "status" value)) value

-- What a listener of `commandCompletion` does with one message: `none` is nothing.
pub data Completion : Type 0 where
  done : Json → Completion
  failed : SocketError → Completion

abbrev or_null : Option Json → Json
or_null none = null
or_null (some value) = value

abbrev or_bare : String → Option Json → Json
or_bare command_id none = object (field "commandId" (text command_id) end)
or_bare command_id (some value) = value

unfoldable pub completion_of : CommandEvent → Option Completion
completion_of event =
    if event.status === "failed"
    then some (failed (channel_error (or_null event.error)))
    else if event.status === "done"
    then some (done (or_bare event.command_id event.result))
    else none

unfoldable pub command_result : String → String → PhoenixMessage → Option Completion
unfolding completion_of
command_result topic command_id message =
    if not (message.topic === topic) || not (message.event === "command_result")
    then none
    else elim (command_event message.payload) [
      | none ↦ none
      | some event ↦ if event.command_id === command_id then completion_of event else none
    ]

-- The promise of `commandCompletion`: the first message that settles it does.
unfoldable pub command_completion : String → String → List PhoenixMessage → Option Completion
command_completion topic command_id [] = none
command_completion topic command_id (message ∷ rest) =
    let later = command_completion topic command_id rest in
    elim (command_result topic command_id message) [ none ↦ later | some settled ↦ some settled ]

-- `topic` and the message of `runCommand`, with the key of the command.
abbrev command_topic : String → String → String
command_topic sandbox_id user_id = "sandbox:" ++ sandbox_id ++ ":" ++ user_id

unfoldable pub command_message : String → String → String → String → Json → PhoenixMessage
command_message join_ref key topic command_id request = record {
  join_ref = some join_ref;
  ref = some key;
  topic = topic;
  event = "command";
  payload = object (
      field "commandId" (text command_id)
        (field "idempotencyKey" (text command_id) (field "payload" request end)));
}

-- Behind `await this.socket.join(topic)`: the ref and the push.
unfoldable pub push_command :
    Peer → String → String → String → Json → Option ℕ → PhoenixSocket → PhoenixSocket
unfolding ref push command_message
push_command peer join_ref topic command_id request signal client =
    let (key, next) = ref client in
    push peer key (command_message join_ref key topic command_id request) signal next

-- `{ ...result, commandId, queued: true }`
abbrev pub set_field : String → Json → Fields → Fields
set_field key value end = field key value end
set_field key value (field name held rest) =
    if name === key then field name value rest else field name held (set_field key value rest)

unfoldable pub queued_result : String → Json → Json
queued_result command_id (object fields) =
    object (set_field "queued" (boolean true) (set_field "commandId" (text command_id) fields))
queued_result command_id _ =
    object (field "commandId" (text command_id) (field "queued" (boolean true) end))

-- What `waitForCompletion` waits for first: the completion, or the abortion of the signal.
pub data FirstEvent : Type 0 where
  completed : Completion → FirstEvent
  signalled : FirstEvent

unfoldable pub wait_for_completion : FirstEvent → Completion
wait_for_completion (completed c) = c
wait_for_completion signalled = failed aborted

abbrev with_queued : String → Completion → Completion
with_queued command_id (done result) = done (queued_result command_id result)
with_queued command_id (failed error) = failed error

abbrev is_queued : Option Bool → Bool
is_queued (some true) = true
is_queued _ = false

-- `runCommand` behind the push: the reply alone, or the completion of a queued command.
unfoldable pub run_command : String → Bool → Completion → FirstEvent → Completion
unfolding wait_for_completion queued_result
run_command command_id await_completion (failed error) first = failed error
run_command command_id await_completion (done accepted) first =
    if not await_completion
    then done accepted
    else if is_queued (as_boolean (member "queued" accepted))
    then with_queued command_id (wait_for_completion first)
    else done accepted
