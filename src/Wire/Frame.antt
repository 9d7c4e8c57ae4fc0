-- ===== src/Wire/Frame.antt =====
-- crates/portcode-sync/src/protocol.rs: what crosses the encrypted channel.
use portcode.Common.{ℕ, Bool, List, Option, Text, ℤ}
use portcode.Wire.Message.{PhoneMessageRow, PhoneSessionRow}
use portcode.Wire.Event.{PhoneStreamEvent}

pub record Cursor : Type 0 where
  pub session_id : Text
  pub seq : ℤ

pub data RemoteCommand : Type 0 where
  run : (session_id text : Text) → RemoteCommand
  cancel : (session_id : Text) → RemoteCommand
  cancel_agent : (agent_id : Text) → RemoteCommand
  permission : (id decision : Text) → RemoteCommand
  create_session : (request_id : Text) (title : Option Text) → RemoteCommand
  register_push : (endpoint p256dh auth : Text) → RemoteCommand
  fetch_messages : (session_id : Text) (before_seq : ℤ) (limit : ℕ) → RemoteCommand

pub data CommandRejectionCode : Type 0 where
  open_ai_account_selection_required invalid_desktop_configuration : CommandRejectionCode
  desktop_unavailable invalid_request unknown : CommandRejectionCode

pub data SyncFrame (Value : Type 0) : Type 0 where
  hello : (device_id : Text) (cursors : List Cursor) → SyncFrame Value
  session_list : (sessions : List PhoneSessionRow) → SyncFrame Value
  session_created : (request_id : Text) (session : PhoneSessionRow) → SyncFrame Value
  command_rejected :
      (request_id : Option Text) (code : CommandRejectionCode) (message : Text) → SyncFrame Value
  message_delta : (session_id : Text) (messages : List (PhoneMessageRow Value)) → SyncFrame Value
  message_page :
      (session_id : Text) (messages : List (PhoneMessageRow Value)) (has_more : Bool)
      → SyncFrame Value
  live : (session_id : Text) (event : PhoneStreamEvent Value) → SyncFrame Value
  command : (command : RemoteCommand) → SyncFrame Value
  ack : (session_id : Text) (seq : ℤ) → SyncFrame Value
  pairing_reject : (reason : Option Text) → SyncFrame Value
