-- ===== src/Tests/Projection.antt =====
-- The properties of texts, identifiers, rows, frames and labels at concrete inputs, and runs.
use portcode.Common.{
  ℕ, same, ◌+◌, ◌*◌, ◌≤◌, ◌≡◌, ◌↔◌, ◌≢◌, refl, true, false, List, [], ◌∷◌, map, arith, none, some,
  pos, Text, codes, byte_len, len_utf8, all, length, filter_map, IsPrefix, slice_to,
  is_char_boundary, floor_boundary, encode_utf8, ◌||◌,
}
use portcode.Wire.{
  TurnReceipt, TurnChangedFile, TurnChangeCertainty, TurnFileStatus, TurnStatus, Block, SessionRow,
  MessageRow, StreamEvent, session_list, message_delta, message_page,
}
use portcode.Scrub.{run_passes, redact_secrets_full, redact_secrets_bounded}
use portcode.Public.{
  bounded_public_text, valid_remote_identifier, is_identifier_byte, public_identifier,
  public_tool_id, project_event, project_message, project_session, project_content, project_block,
  max_message_text_bytes, session_list_frame, session_list_rows, message_delta_frame,
  message_delta_rows, message_page_frame, message_page_rows, frame_fits, phone_frame_budget,
  safe_label, project_receipt,
}
use portcode.Public.Bounds.{
  is_public_char, normalize, bounded_public_text_bounds, bounded_public_text-normalize,
}
use portcode.Public.Identifiers.{valid_remote_identifier_iff, public_identifier-valid}
use portcode.Public.Erasure.{
  erase_event, erase_message, erase_session, with_params, project_event-erase_event,
  project_rows-erase,
}
use portcode.External.{External}
use portcode.Codex.Json.{Value, string, object, field, end, get, get_field, as_str, as_bool}
use portcode.Codex.Items.{as_array}
use portcode.Public.{text_at}
use portcode.Public.Readings.{SameReadings}
use portcode.Public.Content.{content_bytes, project_content_bounds, project_content_short}
use portcode.Public.Pages.{IsSuffixPage, message_page_frame-IsSuffixPage}
use portcode.Public.Budget.{
  IsLongestFit, session_list_frame-IsLongestFit, message_delta_frame-IsLongestFit,
}
use portcode.Public.Paths.{
  IsLabel, HasLabels, is_leaf_char, safe_label-IsLabel, project_receipt_labels,
}
use portcode.Public.{is_whitespace}
use portcode.Common.{All}
use portcode.Tests.Sample.{sample, sample_sha256, sample_regex, sample_json}

abbrev note : Text
note = codes "one\r\ntwo\u{7}three"

bounded_public_text_bounds_example :
    (byte_len (bounded_public_text sample note 9) ≤ 9)
    × (all is_public_char (bounded_public_text sample note 9) ≡ true)
bounded_public_text_bounds_example = bounded_public_text_bounds sample note 9

bounded_public_text-normalize_example :
    IsPrefix (bounded_public_text sample note 9) (normalize (redact_secrets_full sample note))
bounded_public_text-normalize_example = bounded_public_text-normalize sample note 9

-- The cut falls behind nine bytes of the source text, one of which joins the line end.
bounded_note : bounded_public_text sample note 9 ≡ codes "one\ntwo "
unfolding bounded_public_text redact_secrets_bounded redact_secrets_full slice_to len_utf8
    run_passes floor_boundary is_char_boundary
bounded_note = refl

valid_remote_identifier_iff_example : (valid_remote_identifier (codes "session-1") ≡ true) ↔ (
    (codes "session-1" ≢ [])
    × (length (codes "session-1") ≤ 128)
    × (all is_identifier_byte (codes "session-1") ≡ true))
valid_remote_identifier_iff_example = valid_remote_identifier_iff (codes "session-1")

colon_rejected : valid_remote_identifier (codes "a:b") ≡ false
unfolding valid_remote_identifier len_utf8 encode_utf8
colon_rejected = refl

public_identifier-valid_example :
    (valid_remote_identifier (public_identifier sample (codes "a:b")) ≡ true)
    × (valid_remote_identifier (public_tool_id sample (codes "a:b")) ≡ true)
public_identifier-valid_example = public_identifier-valid sample sample_sha256 (codes "a:b")

-- A JSON value, with the readers of serde_json.
abbrev json : External (Value ℕ)
json = record {
  replace_all = λ pattern replacement text. text;
  sha256 = λ bytes. bytes;
  empty_object = object end;
  get = λ value key. get key value;
  as_array = as_array;
  as_str = as_str;
  as_bool = as_bool;
  as_u64 = λ value. none;
  as_number_text = λ value. none;
  to_vec = λ frame. none;
}

-- A started command, with the command that it runs.
abbrev started : Text → Value ℕ
started command = object (
    field (codes "item")
      (object (
        field (codes "command") (string command) (
          field (codes "status") (string (codes "inProgress"))
            (field (codes "type") (string (codes "commandExecution")) end))))
      end)

abbrev activity : StreamEvent (Value ℕ)
activity =
    StreamEvent.codex_event (pos 1) (codes "item/started") (object end) none none none none (pos 5)

started-SameReadings : SameReadings json (started (codes "ls")) (started (codes "cat secret.txt"))
unfolding text_at get_field same
started-SameReadings = record {
  metadata = refl;
  thread_id = refl;
  turn_id = refl;
  item_id = refl;
  statuses = refl;
  counts = refl;
  labels = refl;
  turn = refl;
}

project_event-erase_event_example :
    (project_event json (erase_event json activity) ≡ project_event json activity)
    × (project_event json (with_params json (started (codes "ls")) activity)
        ≡ project_event json (with_params json (started (codes "cat secret.txt")) activity))
project_event-erase_event_example =
    project_event-erase_event json activity (started (codes "ls"))
      (started (codes "cat secret.txt")) started-SameReadings

abbrev changed : TurnChangedFile
changed = record {
  path = codes "/work/src/main.rs";
  old_path = some (codes "C:\\work\\old.rs");
  status = TurnFileStatus.renamed;
  additions = some 3;
  deletions = none;
  binary = false;
  certainty = TurnChangeCertainty.exact;
}

abbrev receipt : TurnReceipt
receipt = record {
  turn_id = codes "turn-1";
  account_profile_id = some (codes "work");
  status = TurnStatus.completed;
  failure = none;
  stop_reason = some (codes "end_turn");
  started_at = pos 1;
  completed_at = pos 5;
  duration_ms = some 4;
  agent_duration_ms = none;
  changed_files = changed ∷ [];
  changed_file_count = 1;
  additions = 3;
  deletions = 0;
  files_truncated = false;
  change_state = none;
  change_certainty = TurnChangeCertainty.exact;
  background_tasks_running = false;
}

abbrev blocks : List (Block Text)
blocks = Block.text (codes "Done.") ∷ Block.tool_use (codes "t1") (codes "shell") (codes "ls") ∷ []

abbrev message : MessageRow Text
message = record {
  id = codes "m1";
  session_id = codes "s1";
  seq = pos 4;
  role = codes "assistant";
  content = blocks;
  created_at = pos 9;
  turn_id = some (codes "turn-1");
  receipt = some receipt;
}

abbrev pub session : SessionRow
session = record {
  id = codes "s1";
  title = codes "First";
  branch = none;
  workspace = some (codes "/home/ann/work");
  model = none;
  account_profile_id = some (codes "work");
  created_at = pos 1;
  updated_at = pos 2;
}

project_rows-erase_example :
    (project_message sample (erase_message sample message) ≡ project_message sample message)
    × (project_session sample (erase_session session) ≡ project_session sample session)
project_rows-erase_example = project_rows-erase sample message session

project_content_bounds_example :
    (length (project_content sample blocks) ≤ 64)
    × (content_bytes (project_content sample blocks) ≤ 20 * 1024 + 17)
project_content_bounds_example = project_content_bounds sample blocks

project_content_short_example :
    project_content sample blocks
    ≡ filter_map (λ b. project_block sample b max_message_text_bytes) blocks
project_content_short_example = project_content_short sample blocks (omega arith)

abbrev sessions : List SessionRow
sessions = session ∷ session ∷ session ∷ []

session_list_frame-IsLongestFit_example :
    (session_list_frame sample sessions ≡ session_list (session_list_rows sample sessions))
    × IsLongestFit sample session_list
        (project_session sample)
        sessions
        []
        (session_list_rows sample sessions)
session_list_frame-IsLongestFit_example =
    session_list_frame-IsLongestFit sample sample_sha256 sample_json sessions

-- Two rows of the sample fit, three do not.
two_sessions : length (session_list_rows sample sessions) ≡ 2
unfolding session_list_rows frame_fits
two_sessions = refl

message_delta_frame-IsLongestFit_example :
    (message_delta_frame sample (codes "s1") (message ∷ message ∷ [])
      ≡ message_delta (public_identifier sample (codes "s1")) (
          message_delta_rows sample
            (public_identifier sample (codes "s1"))
            (message ∷ message ∷ [])))
    × IsLongestFit sample
        (message_delta (public_identifier sample (codes "s1")))
        (project_message sample)
        (message ∷ message ∷ [])
        []
        (message_delta_rows sample (public_identifier sample (codes "s1")) (message ∷ message ∷ []))
message_delta_frame-IsLongestFit_example =
    message_delta_frame-IsLongestFit sample sample_sha256 sample_json (codes "s1")
      (message ∷ message ∷ [])

abbrev messages : List (MessageRow Text)
messages = message ∷ message ∷ message ∷ []

message_page_frame-IsSuffixPage_example :
    (message_page_frame sample (codes "s1") messages false
      ≡ message_page
          (public_identifier sample (codes "s1"))
          (message_page_rows sample (public_identifier sample (codes "s1")) messages false).messages
          (false
            || (message_page_rows sample
                (public_identifier sample (codes "s1"))
                messages
                false).dropped))
    × IsSuffixPage
        (map (project_message sample) messages)
        (message_page_rows sample (public_identifier sample (codes "s1")) messages false)
    × (frame_fits sample (message_page_frame sample (codes "s1") messages false) phone_frame_budget
        ≡ true)
message_page_frame-IsSuffixPage_example =
    message_page_frame-IsSuffixPage sample sample_sha256 sample_json (codes "s1") messages false

workspace-IsLabel : IsLabel (codes "workspace") 128
unfolding is_leaf_char is_whitespace len_utf8
workspace-IsLabel = record { leaf = refl; short = omega arith; visible = refl }

safe_label-IsLabel_example :
    IsLabel (safe_label sample (codes "/home/ann/work") (codes "workspace") 128) 128
safe_label-IsLabel_example =
    safe_label-IsLabel sample sample_regex (codes "/home/ann/work") (codes "workspace") 128
      workspace-IsLabel

project_receipt_labels_example :
    (length (project_receipt sample receipt).changed_files ≤ 24)
    × All HasLabels (project_receipt sample receipt).changed_files
    × (((project_receipt sample receipt).files_truncated ≡ false)
        ↔ ((receipt.files_truncated ≡ false) × (length receipt.changed_files ≤ 24)))
project_receipt_labels_example = project_receipt_labels sample sample_regex receipt
