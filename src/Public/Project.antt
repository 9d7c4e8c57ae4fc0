-- ===== src/Public/Project.antt =====
-- sync/public.rs: the projections of receipts, content blocks, events, sessions and messages.
use portcode.Common.{
  ℕ, ◌*◌, min, Bool, false, ◌||◌, map, ltb, ◌==◌, if◌then◌else◌, Option, none, some, option_map, ℤ,
  pos, negsuc, Text, codes, length, take, filter_map,
}
use portcode.External.{External}
use portcode.Wire.{
  TurnChangedFile, TurnReceipt, PhoneTurnChangedFile, PhoneTurnReceipt, Block, PhoneBlock,
  StreamEvent, PhoneStreamEvent,
}
use portcode.Public.Bounded.{
  bounded_public_text, public_identifier, public_tool_id, public_codex_method,
  public_codex_request_id,
}
use portcode.Public.Labels.{
  public_tool_name, safe_label, public_stop_reason, public_agent_status,
  public_agent_provider_status, static_tool_result,
}
use portcode.Public.Activity.{codex_activity_metadata, text_at, public_codex_activity_payload}

abbrev pub max_live_text_bytes : ℕ
max_live_text_bytes = 8 * 1024

abbrev pub max_message_text_bytes : ℕ
max_message_text_bytes = 4 * 1024

abbrev pub max_message_content_bytes : ℕ
max_message_content_bytes = 20 * 1024

abbrev pub max_message_blocks : ℕ
max_message_blocks = 64

abbrev pub max_message_source_blocks : ℕ
max_message_source_blocks = 256

abbrev pub max_changed_files : ℕ
max_changed_files = 24

abbrev pub omitted_text : Text
omitted_text = codes "[content omitted]"

abbrev is_zero : ℤ → Bool
is_zero (pos n) = n == 0
is_zero (negsuc n) = false

module _ {Value : Type 0} (ext : External Value) where
  unfoldable pub project_file : TurnChangedFile → PhoneTurnChangedFile
  project_file file = record {
    path = safe_label ext file.path (codes "file") 192;
    old_path = option_map (λ path. safe_label ext path (codes "file") 192) file.old_path;
    status = file.status;
    additions = file.additions;
    deletions = file.deletions;
    binary = file.binary;
    certainty = file.certainty;
  }

  unfoldable pub project_receipt : TurnReceipt → PhoneTurnReceipt
  unfolding project_file
  project_receipt receipt = record {
    turn_id = public_identifier ext receipt.turn_id;
    status = receipt.status;
    stop_reason = option_map public_stop_reason receipt.stop_reason;
    started_at = receipt.started_at;
    completed_at = receipt.completed_at;
    duration_ms = receipt.duration_ms;
    changed_files = map project_file (take max_changed_files receipt.changed_files);
    changed_file_count = receipt.changed_file_count;
    additions = receipt.additions;
    deletions = receipt.deletions;
    files_truncated =
        receipt.files_truncated || ltb max_changed_files (length receipt.changed_files);
    change_certainty = receipt.change_certainty;
    background_tasks_running = receipt.background_tasks_running;
  }

  unfoldable pub project_block : Block Value → ℕ → Option (PhoneBlock Value)
  project_block (Block.text text) remaining =
      some (PhoneBlock.text (bounded_public_text ext text (min remaining max_message_text_bytes)))
  project_block (Block.tool_use id name input) remaining =
      some (PhoneBlock.tool_use (public_tool_id ext id) (public_tool_name name) ext.empty_object)
  project_block (Block.tool_result id content is_error) remaining =
      some (PhoneBlock.tool_result (public_tool_id ext id) (static_tool_result is_error) is_error)
  project_block (Block.reasoning model id encrypted summary) remaining = none

  abbrev identifier? : Option Text → Option Text
  identifier? = option_map (public_identifier ext)

  abbrev text? : ℕ → Option Text → Option Text
  text? n = option_map (λ value. bounded_public_text ext value n)

  unfoldable pub project_event : StreamEvent Value → PhoneStreamEvent Value
  unfolding project_receipt project_block text_at
  project_event (StreamEvent.turn_start message_id turn_id started_at) =
      PhoneStreamEvent.turn_start (public_identifier ext message_id) (identifier? turn_id)
        started_at
  project_event (StreamEvent.turn_phase _ _ _ _ _ _ _ _) = PhoneStreamEvent.unknown
  project_event (StreamEvent.text_delta text) =
      PhoneStreamEvent.text_delta (bounded_public_text ext text max_live_text_bytes)
  project_event (StreamEvent.assistant_message_snapshot turn_id blocks) =
      PhoneStreamEvent.assistant_message_snapshot (public_identifier ext turn_id) (
        filter_map (λ block. project_block block max_message_text_bytes)
          (take max_message_blocks blocks))
  project_event (StreamEvent.tool_use id name input) =
      PhoneStreamEvent.tool_use (public_tool_id ext id) (public_tool_name name) ext.empty_object
  project_event (StreamEvent.tool_result id output is_error) =
      PhoneStreamEvent.tool_result (public_tool_id ext id) (static_tool_result is_error) is_error
  project_event (StreamEvent.permission_request id tool risk summary input diff) =
      PhoneStreamEvent.permission_request (public_identifier ext id) (public_tool_name tool) risk
        (bounded_public_text ext summary 512) ext.empty_object none
  project_event (StreamEvent.usage input_tokens output_tokens) =
      PhoneStreamEvent.usage input_tokens output_tokens
  project_event (StreamEvent.turn_end stop_reason receipt) =
      PhoneStreamEvent.turn_end (public_stop_reason stop_reason)
        (option_map project_receipt receipt)
  project_event (StreamEvent.error message receipt) =
      PhoneStreamEvent.error (bounded_public_text ext message 512)
        (option_map project_receipt receipt)
  project_event
        (StreamEvent.agent_started agent_id description parent_id parent_thread_id launch_turn_id
          model reasoning_effort activity) =
      PhoneStreamEvent.agent_started (public_identifier ext agent_id) (codes "Codex subagent")
        (identifier? parent_id) (identifier? parent_thread_id) (identifier? launch_turn_id)
        (text? 128 model) (text? 32 reasoning_effort) (text? 64 activity)
  project_event
        (StreamEvent.agent_progress agent_id step parent_thread_id launch_turn_id current_turn_id
          turn_count) =
      PhoneStreamEvent.agent_progress (public_identifier ext agent_id) step
        (identifier? parent_thread_id) (identifier? launch_turn_id) (identifier? current_turn_id)
        turn_count
  project_event
        (StreamEvent.agent_finished agent_id status result provider_status parent_thread_id
          launch_turn_id current_turn_id turn_count activity) =
      PhoneStreamEvent.agent_finished (public_identifier ext agent_id) (public_agent_status status)
        none (option_map public_agent_provider_status provider_status)
        (identifier? parent_thread_id) (identifier? launch_turn_id) (identifier? current_turn_id)
        turn_count (text? 64 activity)
  project_event (StreamEvent.background_task_started id command) =
      PhoneStreamEvent.background_task_started (public_identifier ext id)
        (codes "Background command")
  project_event (StreamEvent.background_task_finished id command exit_code output) =
      PhoneStreamEvent.background_task_finished (public_identifier ext id)
        (codes "Background command") exit_code
        (if is_zero exit_code then codes "Command completed." else codes "Command failed.")
  project_event
        (StreamEvent.codex_event sequence method params request_id thread_id turn_id item_id
          emitted_at_ms) =
      let metadata = codex_activity_metadata ext params in
      PhoneStreamEvent.codex_activity (record {
        kind = codes "event";
        method = public_codex_method ext method;
        request_id = elim request_id [
          | none ↦ none
          | some value ↦ public_codex_request_id ext value
        ];
        thread_id = identifier? thread_id;
        turn_id = identifier? turn_id;
        item_id = identifier? item_id;
        sequence = some sequence;
        emitted_at_ms = some emitted_at_ms;
        redacted = metadata.redacted;
        truncated = metadata.truncated;
        redaction_reasons = metadata.redaction_reasons;
        truncation_reasons = metadata.truncation_reasons;
        original_bytes = metadata.original_bytes;
        retained_bytes = metadata.retained_bytes;
        payload = public_codex_activity_payload ext method params;
      })
  project_event (StreamEvent.codex_request id method params) =
      let metadata = codex_activity_metadata ext params in
      PhoneStreamEvent.codex_activity (record {
        kind = codes "request";
        method = public_codex_method ext method;
        request_id = some (public_identifier ext id);
        thread_id = identifier? (text_at ext params (codes "threadId"));
        turn_id = identifier? (text_at ext params (codes "turnId"));
        item_id = identifier? (text_at ext params (codes "itemId"));
        sequence = none;
        emitted_at_ms = none;
        redacted = metadata.redacted;
        truncated = metadata.truncated;
        redaction_reasons = metadata.redaction_reasons;
        truncation_reasons = metadata.truncation_reasons;
        original_bytes = metadata.original_bytes;
        retained_bytes = metadata.retained_bytes;
        payload = none;
      })
