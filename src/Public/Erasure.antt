-- ===== src/Public/Erasure.antt =====
-- What the public projections cannot depend on: the private fields of a desktop value, and the
-- parameters of Codex activity beyond those of Readings.
use portcode.Common.{
  ℕ, ◌+◌, ◌-◌, ◌≡◌, refl, false, List, [], ◌∷◌, map, Option, none, some, option_map, pos, take,
  take-map, filter_map,
}
use portcode.External.{External}
use portcode.Wire.{TurnReceipt, Block, SessionRow, MessageRow, StreamEvent, provider_started}
use portcode.Public.Activity.{codex_activity_metadata}
use portcode.Public.Readings.{SameReadings, payload-SameReadings}
use portcode.Public.Project.{
  project_receipt, project_block, project_event, max_message_blocks, max_message_text_bytes,
  max_message_content_bytes,
}
use portcode.Public.Rows.{
  Content, add_block, content_loop, project_content, project_message, project_session,
}

abbrev pub erase_receipt : TurnReceipt → TurnReceipt
erase_receipt r = record r {
  account_profile_id = none;
  failure = none;
  agent_duration_ms = none;
  change_state = none;
}

abbrev pub erase_session : SessionRow → SessionRow
erase_session s = record s { account_profile_id = none }

module _ {Value : Type 0} (ext : External Value) where
  -- Tool input and output, and all of the reasoning.
  abbrev pub erase_block : Block Value → Block Value
  erase_block (Block.text text) = Block.text text
  erase_block (Block.tool_use id name input) = Block.tool_use id name ext.empty_object
  erase_block (Block.tool_result id content is_error) = Block.tool_result id [] is_error
  erase_block (Block.reasoning model id encrypted summary) = Block.reasoning none none none []

  abbrev pub erase_message : MessageRow Value → MessageRow Value
  erase_message m = record m {
    content = map erase_block m.content;
    receipt = option_map erase_receipt m.receipt;
  }

  -- Commands, outputs, the diff of an approval, descriptions, results, account and failure details. The
  -- parameters of Codex activity stay, see `with_params`.
  abbrev pub erase_event : StreamEvent Value → StreamEvent Value
  erase_event (StreamEvent.turn_start message_id turn_id started_at) =
      StreamEvent.turn_start message_id turn_id started_at
  erase_event (StreamEvent.turn_phase _ _ _ _ _ _ _ _) =
      StreamEvent.turn_phase [] provider_started (pos 0) none none none none none
  erase_event (StreamEvent.text_delta text) = StreamEvent.text_delta text
  erase_event (StreamEvent.assistant_message_snapshot turn_id blocks) =
      StreamEvent.assistant_message_snapshot turn_id (map erase_block blocks)
  erase_event (StreamEvent.tool_use id name input) = StreamEvent.tool_use id name ext.empty_object
  erase_event (StreamEvent.tool_result id output is_error) = StreamEvent.tool_result id [] is_error
  erase_event (StreamEvent.permission_request id tool risk summary input diff) =
      StreamEvent.permission_request id tool risk summary ext.empty_object none
  erase_event (StreamEvent.usage i o) = StreamEvent.usage i o
  erase_event (StreamEvent.turn_end stop_reason receipt) =
      StreamEvent.turn_end stop_reason (option_map erase_receipt receipt)
  erase_event (StreamEvent.error message receipt) =
      StreamEvent.error message (option_map erase_receipt receipt)
  erase_event (StreamEvent.agent_started agent_id description p t l m r a) =
      StreamEvent.agent_started agent_id [] p t l m r a
  erase_event (StreamEvent.agent_progress a s p l c n) = StreamEvent.agent_progress a s p l c n
  erase_event (StreamEvent.agent_finished a s result ps p l c n act) =
      StreamEvent.agent_finished a s none ps p l c n act
  erase_event (StreamEvent.background_task_started id command) =
      StreamEvent.background_task_started id []
  erase_event (StreamEvent.background_task_finished id command exit_code output) =
      StreamEvent.background_task_finished id [] exit_code []
  erase_event (StreamEvent.codex_event s m p r t u i at) = StreamEvent.codex_event s m p r t u i at
  erase_event (StreamEvent.codex_request id method params) =
      StreamEvent.codex_request id method params

  project_block-erase_block :
      (block : Block Value) (n : ℕ)
      → project_block ext (erase_block block) n ≡ project_block ext block n
  unfolding project_block
  project_block-erase_block (Block.text text) n = refl
  project_block-erase_block (Block.tool_use id name input) n = refl
  project_block-erase_block (Block.tool_result id content is_error) n = refl
  project_block-erase_block (Block.reasoning model id encrypted summary) n = refl

  filter_map-erase_block :
      (n : ℕ) (blocks : List (Block Value))
      → filter_map (λ b. project_block ext b n) (map erase_block blocks)
        ≡ filter_map (λ b. project_block ext b n) blocks
  filter_map-erase_block n [] = refl
  filter_map-erase_block n (b ∷ bs) =
      rw (project_block-erase_block b n, filter_map-erase_block n bs)

  project_receipt-erase_receipt :
      (r : Option TurnReceipt)
      → option_map (project_receipt ext) (option_map erase_receipt r)
        ≡ option_map (project_receipt ext) r
  unfolding project_receipt
  project_receipt-erase_receipt none = refl
  project_receipt-erase_receipt (some r) = refl

  erased_lem :
      (event : StreamEvent Value) → project_event ext (erase_event event) ≡ project_event ext event
  unfolding project_event
  erased_lem (StreamEvent.assistant_message_snapshot turn_id blocks) =
      rw
        (
          take-map erase_block max_message_blocks blocks,
          filter_map-erase_block max_message_text_bytes (take max_message_blocks blocks),
        )
        refl
  erased_lem (StreamEvent.turn_end stop_reason receipt) =
      rw (project_receipt-erase_receipt receipt) refl
  erased_lem (StreamEvent.error message receipt) = rw (project_receipt-erase_receipt receipt) refl
  erased_lem _ = refl

  -- A desktop event with other parameters, if it is one of Codex activity.
  abbrev pub with_params : Value → StreamEvent Value → StreamEvent Value
  with_params params (StreamEvent.codex_event s m p r t u i at) =
      StreamEvent.codex_event s m params r t u i at
  with_params params (StreamEvent.codex_request id method p) =
      StreamEvent.codex_request id method params
  with_params params event = event

  metadata_lem :
      (params other : Value)
      → SameReadings ext params other
      → codex_activity_metadata ext params ≡ codex_activity_metadata ext other
  unfolding codex_activity_metadata
  metadata_lem params other v = rw v.metadata refl

  with_params_lem :
      (event : StreamEvent Value) (params other : Value)
      → SameReadings ext params other
      → project_event ext (with_params params event) ≡ project_event ext (with_params other event)
  unfolding project_event
  with_params_lem (StreamEvent.codex_event s m p r t u i at) params other v =
      rw (metadata_lem params other v, payload-SameReadings ext m params other v) refl
  with_params_lem (StreamEvent.codex_request id method p) params other v =
      rw (metadata_lem params other v, v.thread_id, v.turn_id, v.item_id) refl
  with_params_lem _ params other v = refl

  -- The public event is the same whatever the private fields of the desktop event hold; and an event of
  -- Codex activity is projected to the same from any parameters that agree on the sanitizer's marks, the
  -- identifiers, the statuses of a plan, the counts of a diff, the type and status of an item, and the
  -- status of a turn.
  pub project_event-erase_event :
      (event : StreamEvent Value) (params other : Value)
      → SameReadings ext params other
      → (project_event ext (erase_event event) ≡ project_event ext event)
        × (project_event ext (with_params params event)
            ≡ project_event ext (with_params other event))
  project_event-erase_event event params other v =
      (erased_lem event, with_params_lem event params other v)

  content_loop-erase_block :
      (i : ℕ) (s : Content Value) (blocks : List (Block Value))
      → content_loop ext i s (map erase_block blocks) ≡ content_loop ext i s blocks
  unfolding content_loop
  content_loop-erase_block i s [] = refl
  content_loop-erase_block i s (b ∷ bs) = rw (
    project_block-erase_block b (max_message_content_bytes - s.text_bytes),
    content_loop-erase_block (i + 1) (add_block ext s b) bs,
  )

  -- Nor does a public message row or session row depend on tool input or output, reasoning, or the
  -- account.
  pub project_rows-erase :
      (message : MessageRow Value) (session : SessionRow)
      → (project_message ext (erase_message message) ≡ project_message ext message)
        × (project_session ext (erase_session session) ≡ project_session ext session)
  unfolding project_message project_content project_session
  project_rows-erase message session = (
    rw
        (
          content_loop-erase_block 0 (record { content = []; text_bytes = 0; omitted = false })
              message.content,
          project_receipt-erase_receipt message.receipt,
        )
        refl,
    refl,
  )
