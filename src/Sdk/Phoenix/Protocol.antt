-- ===== src/Sdk/Phoenix/Protocol.antt =====
-- packages/sdk/src/phoenix/protocol.ts.
pub mod Guard
use firemig.Prelude.{String, false, Option, none, some}
use firemig.Common.Errors.{FiremigError, internal}
use firemig.Common.Json.{
  Json, null, text, array, nil, cons, Items, member, as_text, error_body, envelope_body,
}
use firemig.Sdk.Errors.{ApiError, error_of_body}

pub record PhoenixMessage : Type 0 where
  pub join_ref : Option String
  pub ref : Option String
  pub topic : String
  pub event : String
  pub payload : Json

-- A text or null: `some` of what it is.
abbrev pub nullable_text : Json → Option (Option String)
nullable_text (text s) = some (some s)
nullable_text null = some none
nullable_text _ = none

abbrev pub message_of :
    Option (Option String)
    → Option (Option String)
    → Option String
    → Option String
    → Json
    → Option PhoenixMessage
message_of (some join_ref) (some ref) (some topic) (some event) payload =
    some
      (record { join_ref = join_ref; ref = ref; topic = topic; event = event; payload = payload })
message_of _ _ _ _ payload = none

-- `isPhoenixMessage`: an array of five elements whose first four have their types.
abbrev pub five : Items → Option PhoenixMessage
five (cons a (cons b (cons c (cons d (cons e nil))))) =
    message_of (nullable_text a) (nullable_text b) (as_text (some c)) (as_text (some d)) e
five _ = none

unfoldable pub phoenix_message : Json → Option PhoenixMessage
phoenix_message (array items) = five items
phoenix_message _ = none

-- `isReplyPayload`: the status and the response.
abbrev reply_of : Option String → Option Json → Option (String × Json)
reply_of (some status) (some response) = some (status, response)
reply_of _ _ = none

unfoldable pub reply_payload : Json → Option (String × Json)
reply_payload value = reply_of (as_text (member "status" value)) (member "response" value)

-- An error of the SDK: one of the API, or a plain `Error` by what it says.
pub data SocketError : Type 0 where
  api : ApiError → SocketError
  aborted client_closed not_connected connection_failed : SocketError
  send_failed listener_failed undecodable factory_failed : SocketError
  closed : Option String → SocketError

abbrev pub internal_body : FiremigError
internal_body = record { code = internal; retryable = false; status = none }

unfoldable pub channel_error_body : Json → FiremigError
unfolding envelope_body error_body
channel_error_body value = elim (envelope_body value none) [
  | some body ↦ body
  | none ↦ elim (error_body value none) [ some body ↦ body | none ↦ internal_body ]
]

unfoldable pub channel_error : Json → SocketError
unfolding channel_error_body error_of_body
channel_error value = api (error_of_body (channel_error_body value))

-- The data of a frame: a text, bytes that `TextDecoder` reads, or a blob whose reading may fail.
pub data FrameData : Type 0 where
  string_data : String → FrameData
  byte_data : String → FrameData
  blob_data : Option String → FrameData
  unknown_data : FrameData

pub data FrameText : Type 0 where
  read : String → FrameText
  ignored failed_read : FrameText

unfoldable pub message_text : FrameData → FrameText
message_text (string_data s) = read s
message_text (byte_data s) = read s
message_text (blob_data (some s)) = read s
message_text (blob_data none) = failed_read
message_text unknown_data = ignored
