-- ===== src/Wire/Event.antt =====
-- crates/portcode-sync/src/wire.rs: the rich desktop event and the public event of the phone channel.
use portcode.Common.{ℕ, Bool, List, Option, Text, ℤ}
use portcode.Wire.Receipt.{TurnStatus, TurnPhase, TurnReceipt, PhoneTurnReceipt}
use portcode.Wire.Message.{Block, PhoneBlock}

pub data PermissionRisk : Type 0 where
  configurable shell dependency_install high_risk_git unknown : PermissionRisk

pub data StreamEvent (Value : Type 0) : Type 0 where
  turn_start :
      (message_id : Text) (turn_id : Option Text) (started_at : Option ℤ) → StreamEvent Value
  turn_phase :
      (turn_id : Text) (phase : TurnPhase) (at : ℤ) (revision : Option ℕ)
      (status : Option TurnStatus) (stop_reason : Option Text) (agent_duration_ms : Option ℕ)
      (receipt_expected : Option Bool)
      → StreamEvent Value
  text_delta : (text : Text) → StreamEvent Value
  assistant_message_snapshot : (turn_id : Text) (blocks : List (Block Value)) → StreamEvent Value
  tool_use : (id name : Text) (input : Value) → StreamEvent Value
  tool_result : (id output : Text) (is_error : Bool) → StreamEvent Value
  permission_request :
      (id tool : Text) (risk : PermissionRisk) (summary : Text) (input : Value) (diff : Option Text)
      → StreamEvent Value
  usage : (input_tokens output_tokens : ℕ) → StreamEvent Value
  turn_end : (stop_reason : Text) (receipt : Option TurnReceipt) → StreamEvent Value
  error : (message : Text) (receipt : Option TurnReceipt) → StreamEvent Value
  agent_started :
      (agent_id description : Text) (parent_id parent_thread_id launch_turn_id : Option Text)
      (model reasoning_effort activity : Option Text)
      → StreamEvent Value
  agent_progress :
      (agent_id : Text) (step : ℕ) (parent_thread_id launch_turn_id current_turn_id : Option Text)
      (turn_count : Option ℕ)
      → StreamEvent Value
  agent_finished :
      (agent_id status : Text) (result provider_status : Option Text)
      (parent_thread_id launch_turn_id current_turn_id : Option Text) (turn_count : Option ℕ)
      (activity : Option Text)
      → StreamEvent Value
  background_task_started : (id command : Text) → StreamEvent Value
  background_task_finished : (id command : Text) (exit_code : ℤ) (output : Text) → StreamEvent Value
  codex_event :
      (sequence : ℤ) (method : Text) (params : Value) (request_id : Option Value)
      (thread_id turn_id item_id : Option Text) (emitted_at_ms : ℤ)
      → StreamEvent Value
  codex_request : (id method : Text) (params : Value) → StreamEvent Value

pub record PhoneCodexPlanStep : Type 0 where
  pub status : Text

pub data PhoneCodexActivityPayload : Type 0 where
  plan : (steps : List PhoneCodexPlanStep) → PhoneCodexActivityPayload
  diff : (additions deletions files : ℕ) → PhoneCodexActivityPayload
  tool : (item_type status : Text) (terminal : Bool) → PhoneCodexActivityPayload
  terminal : (status : Text) → PhoneCodexActivityPayload
  unknown : PhoneCodexActivityPayload

-- The fields of the public `CodexActivity` event.
pub record PhoneCodexActivity : Type 0 where
  pub kind : Text
  pub method : Text
  pub request_id : Option Text
  pub thread_id : Option Text
  pub turn_id : Option Text
  pub item_id : Option Text
  pub sequence : Option ℤ
  pub emitted_at_ms : Option ℤ
  pub redacted : Bool
  pub truncated : Bool
  pub redaction_reasons : List Text
  pub truncation_reasons : List Text
  pub original_bytes : Option ℕ
  pub retained_bytes : Option ℕ
  pub payload : Option PhoneCodexActivityPayload

pub data PhoneStreamEvent (Value : Type 0) : Type 0 where
  turn_start :
      (message_id : Text) (turn_id : Option Text) (started_at : Option ℤ) → PhoneStreamEvent Value
  text_delta : (text : Text) → PhoneStreamEvent Value
  assistant_message_snapshot :
      (turn_id : Text) (blocks : List (PhoneBlock Value)) → PhoneStreamEvent Value
  tool_use : (id name : Text) (input : Value) → PhoneStreamEvent Value
  tool_result : (id output : Text) (is_error : Bool) → PhoneStreamEvent Value
  permission_request :
      (id tool : Text) (risk : PermissionRisk) (summary : Text) (input : Value) (diff : Option Text)
      → PhoneStreamEvent Value
  usage : (input_tokens output_tokens : ℕ) → PhoneStreamEvent Value
  turn_end : (stop_reason : Text) (receipt : Option PhoneTurnReceipt) → PhoneStreamEvent Value
  error : (message : Text) (receipt : Option PhoneTurnReceipt) → PhoneStreamEvent Value
  agent_started :
      (agent_id description : Text) (parent_id parent_thread_id launch_turn_id : Option Text)
      (model reasoning_effort activity : Option Text)
      → PhoneStreamEvent Value
  agent_progress :
      (agent_id : Text) (step : ℕ) (parent_thread_id launch_turn_id current_turn_id : Option Text)
      (turn_count : Option ℕ)
      → PhoneStreamEvent Value
  agent_finished :
      (agent_id status : Text) (result provider_status : Option Text)
      (parent_thread_id launch_turn_id current_turn_id : Option Text) (turn_count : Option ℕ)
      (activity : Option Text)
      → PhoneStreamEvent Value
  codex_activity : PhoneCodexActivity → PhoneStreamEvent Value
  background_task_started : (id command : Text) → PhoneStreamEvent Value
  background_task_finished :
      (id command : Text) (exit_code : ℤ) (output : Text) → PhoneStreamEvent Value
  unknown : PhoneStreamEvent Value
