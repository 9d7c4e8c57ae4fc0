-- ===== src/Remote/Handler.antt =====
-- `DesktopCommandHandler::handle` and what it calls. What it hands to the engine and to the hub is the
-- list of its actions, in order.
use portcode.Common.{
  ℕ, suc, ◌*◌, Bool, true, false, not, ◌&&◌, ◌||◌, List, [], ◌∷◌, ◌++◌, map, Option, none, some,
  unwrap_or, if◌then◌else◌, leb, ltb, min, max, length, any, Text, codes, same, byte_len, Result,
  ok, err, ℤ,
}
use portcode.External.{External}
use portcode.Wire.{
  SessionRow, CommandRejectionCode, open_ai_account_selection_required,
  invalid_desktop_configuration, desktop_unavailable, invalid_request, unknown, RemoteCommand,
  SyncFrame, session_list, command_rejected,
}
use portcode.Public.{
  is_control, valid_remote_identifier, bounded_public_text, session_list_rows, session_list_frame,
  session_created_frame, message_page_frame, frame_fits, phone_frame_budget,
}
use portcode.Remote.State.{
  Settings, Desk, list_sessions, require_session, create_session_row, messages_page, trim,
  remote_create_model,
}

abbrev pub max_page_limit : ℕ
max_page_limit = 200

abbrev pub max_command_rejection_message_bytes : ℕ
max_command_rejection_message_bytes = 240

abbrev pub max_remote_session_title_bytes : ℕ
max_remote_session_title_bytes = 256

abbrev pub max_remote_run_text_bytes : ℕ
max_remote_run_text_bytes = 32 * 1_024

abbrev pub primary_codex_account_id : Text
primary_codex_account_id = codes "codex-primary"

-- The log line for an unknown decision is left out.
unfoldable pub parse_decision : Text → Bool
parse_decision decision = same decision (codes "allow")

abbrev pub valid_remote_request_id : Text → Bool
valid_remote_request_id request_id = valid_remote_identifier request_id

unfoldable pub rejection_message : CommandRejectionCode → Text
rejection_message open_ai_account_selection_required =
    codes
      "This desktop now defaults to ChatGPT. Create the conversation on the desktop to choose an account."
rejection_message invalid_desktop_configuration =
    codes "The desktop default provider and model do not match. Fix Settings on the desktop."
rejection_message desktop_unavailable =
    codes "The desktop could not create the conversation. Please try again."
rejection_message invalid_request = codes "The create request was invalid. Please try again."
rejection_message unknown = codes "The desktop rejected the command."

unfoldable pub normalize_remote_session_title : Option Text → Result CommandRejectionCode Text
normalize_remote_session_title title =
    let trimmed = trim (unwrap_or title (codes "New chat")) in
    if same trimmed []
      || ltb max_remote_session_title_bytes (byte_len trimmed)
      || any is_control trimmed
    then err invalid_request
    else ok trimmed

abbrev pub spaced_control : ℕ → ℕ
spaced_control c = if is_control c then b' ' else c

-- What the handler does besides changing the desktop.
pub data Action (Value : Type 0) : Type 0 where
  run_turn : (session_id text : Text) (settings : Settings) → Action Value
  interrupt_session : (session_id : Text) → Action Value
  interrupt_agent : (agent_id : Text) → Action Value
  resolve_approval : (id : Text) (allow session : Bool) → Action Value
  publish_to_hub : (frame : SyncFrame Value) → Action Value

module _ {Value : Type 0} where
  unfoldable pub authoritative_remote_session_id : Desk Value → Text → Option Text
  authoritative_remote_session_id desk candidate =
      if not (valid_remote_identifier candidate)
      then none
      else if require_session candidate desk
      then some candidate
      else none

  abbrev pub published : Desk Value → SyncFrame Value → List (Action Value)
  published desk frame = if desk.has_hub then publish_to_hub frame ∷ [] else []

  -- With no attachments, `attachments::prepare_turn` refuses a blank text and nothing else.
  unfoldable pub handle_run : Desk Value → Text → Text → List (Action Value)
  handle_run desk candidate text = elim (authoritative_remote_session_id desk candidate) [
    | none ↦ []
    | some session_id ↦
        if same text [] || ltb max_remote_run_text_bytes (byte_len text) || same (trim text) []
        then []
        else elim desk.settings [
          | none ↦ []
          | some settings ↦ run_turn session_id (trim text) settings ∷ []
        ]
  ]

  unfoldable pub handle_cancel : Desk Value → Text → List (Action Value)
  handle_cancel desk candidate = elim (authoritative_remote_session_id desk candidate) [
    | none ↦ []
    | some session_id ↦ interrupt_session session_id ∷ []
  ]

  unfoldable pub handle_cancel_agent : Text → List (Action Value)
  handle_cancel_agent agent_id =
      if not (valid_remote_identifier agent_id) then [] else interrupt_agent agent_id ∷ []

  unfoldable pub handle_permission : Text → Text → List (Action Value)
  handle_permission id decision =
      if not (valid_remote_identifier id)
      then []
      else resolve_approval id (parse_decision decision) false ∷ []

  abbrev pub new_row : Text → Text → Desk Value → SessionRow
  new_row model title desk = record {
    id = desk.new_id;
    title = title;
    branch = none;
    workspace = none;
    model = some model;
    account_profile_id = some primary_codex_account_id;
    created_at = desk.now_ms;
    updated_at = desk.now_ms;
  }

module _ {Value : Type 0} (ext : External Value) where
  unfoldable pub bounded_public_message : Text → Text
  bounded_public_message message =
      trim
        (map spaced_control (bounded_public_text ext message max_command_rejection_message_bytes))

  unfoldable pub command_rejection_frame : Text → CommandRejectionCode → SyncFrame Value
  command_rejection_frame request_id code =
      if valid_remote_request_id request_id
      then command_rejected (some request_id) code (bounded_public_message (rejection_message code))
      else command_rejected none invalid_request
          (bounded_public_message (rejection_message invalid_request))

  -- `Ok(true)` and `Ok(false)`, or that the sessions cannot be read.
  unfoldable pub session_list_with_candidate_fits :
      Desk Value → SessionRow → Result CommandRejectionCode Bool
  session_list_with_candidate_fits desk candidate = elim (list_sessions desk) [
    | none ↦ err desktop_unavailable
    | some sessions ↦
        let kept = session_list_rows ext (candidate ∷ sessions) in
        ok (
          same_count (length kept) (suc (length sessions))
          && frame_fits ext (session_list kept) phone_frame_budget)
  ]
    where
      same_count : ℕ → ℕ → Bool
      same_count m n = leb m n && leb n m

  abbrev pub insert_row :
      SessionRow
      → Result CommandRejectionCode Bool
      → Desk Value
      → Result CommandRejectionCode SessionRow × Desk Value
  insert_row row (err code) desk = (err code, desk)
  insert_row row (ok false) desk = (err desktop_unavailable, desk)
  insert_row row (ok true) desk =
      let (inserted, after) = create_session_row row desk in
      (if inserted then ok row else err desktop_unavailable, after)

  abbrev pub create_with_title :
      Text
      → Result CommandRejectionCode Text
      → Desk Value
      → Result CommandRejectionCode SessionRow × Desk Value
  create_with_title model (err code) desk = (err code, desk)
  create_with_title model (ok title) desk =
      let row = new_row model title desk in
      if desk.can_lock
      then insert_row row (session_list_with_candidate_fits desk row) desk
      else (err desktop_unavailable, desk)

  abbrev pub create_with_model :
      Option Text
      → Result CommandRejectionCode Text
      → Desk Value
      → Result CommandRejectionCode SessionRow × Desk Value
  create_with_model title (err code) desk = (err code, desk)
  create_with_model title (ok model) desk =
      create_with_title model (normalize_remote_session_title title) desk

  unfoldable pub create_remote_session :
      Desk Value
      → Settings
      → Text
      → Option Text
      → Result CommandRejectionCode SessionRow × Desk Value
  create_remote_session desk settings request_id title =
      if valid_remote_request_id request_id
      then create_with_model title (remote_create_model settings) desk
      else (err invalid_request, desk)

  abbrev pub created :
      Desk Value → Text → Option Text → Result CommandRejectionCode SessionRow × Desk Value
  created desk request_id title = elim desk.settings [
    | none ↦ (err desktop_unavailable, desk)
    | some settings ↦ create_remote_session desk settings request_id title
  ]

  abbrev pub list_answer : Desk Value → Option (List SessionRow) → List (Action Value)
  list_answer desk none = []
  list_answer desk (some sessions) = published desk (session_list_frame ext sessions)

  abbrev pub create_answer :
      Text → Result CommandRejectionCode SessionRow × Desk Value → List (Action Value) × Desk Value
  create_answer request_id (err code, desk) =
      (published desk (command_rejection_frame request_id code), desk)
  create_answer request_id (ok row, desk) = (
    published desk (session_created_frame ext request_id row)
        ++ list_answer desk (list_sessions desk),
    desk,
  )

  unfoldable pub handle_create_session :
      Desk Value → Text → Option Text → List (Action Value) × Desk Value
  handle_create_session desk request_id title =
      create_answer request_id (created desk request_id title)

  -- `(limit as i64).clamp(1, MAX_PAGE_LIMIT)`
  abbrev pub page_limit : ℕ → ℕ
  page_limit limit = min max_page_limit (max 1 limit)

  unfoldable pub handle_fetch_messages : Desk Value → Text → ℤ → ℕ → List (Action Value)
  handle_fetch_messages desk candidate before_seq limit =
      elim (authoritative_remote_session_id desk candidate) [
        | none ↦ []
        | some session_id ↦
            let (messages, has_more) =
              messages_page session_id before_seq (page_limit limit) desk in
            published desk (message_page_frame ext session_id messages has_more)
      ]

  -- Every command answers `Ok(())`.
  unfoldable pub handle : Desk Value → RemoteCommand → List (Action Value) × Desk Value
  handle desk (RemoteCommand.run session_id text) = (handle_run desk session_id text, desk)
  handle desk (RemoteCommand.cancel session_id) = (handle_cancel desk session_id, desk)
  handle desk (RemoteCommand.cancel_agent agent_id) = (handle_cancel_agent agent_id, desk)
  handle desk (RemoteCommand.permission id decision) = (handle_permission id decision, desk)
  handle desk (RemoteCommand.create_session request_id title) =
      handle_create_session desk request_id title
  handle desk (RemoteCommand.register_push endpoint p256dh auth) = ([], desk)
  handle desk (RemoteCommand.fetch_messages session_id before_seq limit) =
      (handle_fetch_messages desk session_id before_seq limit, desk)
