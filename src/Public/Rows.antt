-- ===== src/Public/Rows.antt =====
-- sync/public.rs: the projections of session rows and message rows.
use portcode.Common.{
  ℕ, ◌+◌, ◌-◌, Bool, true, false, ◌&&◌, ◌||◌, List, [], ◌∷◌, ◌++◌, ltb, leb, if◌then◌else◌, Option,
  none, some, option_map, Text, codes, same, one_of, byte_len, length,
}
use portcode.External.{External}
use portcode.Wire.{Block, PhoneBlock, SessionRow, PhoneSessionRow, MessageRow, PhoneMessageRow}
use portcode.Public.Bounded.{bounded_public_text, public_identifier}
use portcode.Public.Labels.{unknown_label, safe_label}
use portcode.Public.Project.{
  project_block, project_receipt, max_message_blocks, max_message_content_bytes,
  max_message_source_blocks, omitted_text,
}

abbrev pub public_role : Text → Text
public_role role =
    if one_of role (codes "user" ∷ codes "assistant" ∷ []) then role else unknown_label

-- The variables of the loop over a message's blocks.
pub record Content (Value : Type 0) : Type 0 where
  pub content : List (PhoneBlock Value)
  pub text_bytes : ℕ
  pub omitted : Bool

module _ {Value : Type 0} where
  abbrev pub block_text_bytes : PhoneBlock Value → ℕ
  block_text_bytes (PhoneBlock.text text) = byte_len text
  block_text_bytes (PhoneBlock.tool_use _ _ _) = 0
  block_text_bytes (PhoneBlock.tool_result _ _ _) = 0

  abbrev pub push_block : Content Value → Option (PhoneBlock Value) → Content Value
  push_block s none = s
  push_block s (some block) = record s {
    content = s.content ++ block ∷ [];
    text_bytes = s.text_bytes + block_text_bytes block;
  }

  abbrev pub is_full : ℕ → Content Value → Bool
  is_full source_index s =
      leb max_message_source_blocks source_index
      || leb max_message_blocks (length s.content)
      || leb max_message_content_bytes s.text_bytes

  -- The marker behind the loop.
  abbrev pub mark_omitted : Content Value → List (PhoneBlock Value)
  mark_omitted s =
      if s.omitted && ltb (length s.content) max_message_blocks
      then s.content ++ PhoneBlock.text omitted_text ∷ []
      else s.content

module _ {Value : Type 0} (ext : External Value) where
  abbrev pub add_block : Content Value → Block Value → Content Value
  add_block s block =
      push_block s (project_block ext block (max_message_content_bytes - s.text_bytes))

  unfoldable pub content_loop : ℕ → Content Value → List (Block Value) → Content Value
  content_loop source_index s [] = s
  content_loop source_index s (block ∷ blocks) =
      let rest = content_loop (source_index + 1) (add_block s block) blocks in
      if is_full source_index s then record s { omitted = true } else rest

  unfoldable pub project_content : List (Block Value) → List (PhoneBlock Value)
  unfolding content_loop
  project_content blocks =
      mark_omitted
        (content_loop 0 (record { content = []; text_bytes = 0; omitted = false }) blocks)

  unfoldable pub project_message : MessageRow Value → PhoneMessageRow Value
  unfolding same
  project_message message = record {
    id = public_identifier ext message.id;
    session_id = public_identifier ext message.session_id;
    seq = message.seq;
    role = public_role message.role;
    content = project_content message.content;
    created_at = message.created_at;
    turn_id = option_map (public_identifier ext) message.turn_id;
    receipt = option_map (project_receipt ext) message.receipt;
  }

  unfoldable pub project_session : SessionRow → PhoneSessionRow
  project_session session = record {
    id = public_identifier ext session.id;
    title = bounded_public_text ext session.title 256;
    branch = option_map (λ branch. bounded_public_text ext branch 128) session.branch;
    workspace = option_map (λ w. safe_label ext w (codes "workspace") 128) session.workspace;
    model = option_map (λ model. bounded_public_text ext model 128) session.model;
    created_at = session.created_at;
    updated_at = session.updated_at;
  }
