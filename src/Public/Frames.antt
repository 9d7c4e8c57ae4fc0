-- ===== src/Public/Frames.antt =====
-- sync/public.rs: frames built within a byte budget.
use portcode.Common.{
  ℕ, ◌*◌, Bool, true, false, ◌||◌, List, [], ◌∷◌, ◌++◌, leb, if◌then◌else◌, Option, none, some,
  option_map, Text, length,
}
use mathlib.Core.List.{reverse}
use portcode.External.{External}
use portcode.Wire.{
  SessionRow, PhoneSessionRow, MessageRow, PhoneMessageRow, SyncFrame, session_list,
  session_created, message_delta, message_page,
}
use portcode.Public.Bounded.{public_identifier}
use portcode.Public.Rows.{project_session, project_message}

abbrev pub phone_live_frame_budget : ℕ
phone_live_frame_budget = 16 * 1024

abbrev pub phone_frame_budget : ℕ
phone_frame_budget = 48 * 1024

-- The rows of a page and whether one was dropped.
pub record Page (A : Type 0) : Type 0 where
  pub messages : List A
  pub dropped : Bool

module _ {Value : Type 0} (ext : External Value) where
  unfoldable pub frame_len : SyncFrame Value → Option ℕ
  frame_len frame = option_map length (ext.to_vec frame)

  unfoldable pub frame_fits : SyncFrame Value → ℕ → Bool
  unfolding frame_len
  frame_fits frame budget = elim (frame_len frame) [ none ↦ false | some n ↦ leb n budget ]

  -- The loop of `session_list_frame` and of `message_delta_frame`: push the projected row, and pop
  -- it and stop if the frame no longer fits.
  unfoldable pub push_while_fits :
      {A B : Type 0} → (List B → SyncFrame Value) → (A → B) → List B → List A → List B
  push_while_fits frame project public [] = public
  push_while_fits frame project public (row ∷ rows) =
      let rest = push_while_fits frame project (public ++ project row ∷ []) rows in
      if frame_fits (frame (public ++ project row ∷ [])) phone_frame_budget then rest else public

  unfoldable pub session_list_rows : List SessionRow → List PhoneSessionRow
  unfolding push_while_fits
  session_list_rows sessions = push_while_fits session_list (project_session ext) [] sessions

  unfoldable pub session_list_frame : List SessionRow → SyncFrame Value
  unfolding session_list_rows
  session_list_frame sessions = session_list (session_list_rows sessions)

  unfoldable pub session_created_frame : Text → SessionRow → SyncFrame Value
  session_created_frame request_id session =
      session_created (public_identifier ext request_id) (project_session ext session)

  unfoldable pub message_delta_rows : Text → List (MessageRow Value) → List (PhoneMessageRow Value)
  unfolding push_while_fits
  message_delta_rows session_id messages =
      push_while_fits (message_delta session_id) (project_message ext) [] messages

  unfoldable pub message_delta_frame : Text → List (MessageRow Value) → SyncFrame Value
  unfolding message_delta_rows
  message_delta_frame session_id messages =
      let id = public_identifier ext session_id in message_delta id (message_delta_rows id messages)

  -- The loop of `message_page_frame`, newest row first; each row is inserted in front.
  unfoldable pub page_loop :
      Text
      → Bool
      → List (PhoneMessageRow Value)
      → List (MessageRow Value)
      → Page (PhoneMessageRow Value)
  page_loop session_id has_more public [] = record { messages = public; dropped = false }
  page_loop session_id has_more public (row ∷ rows) =
      let longer = project_message ext row ∷ public in
      let rest = page_loop session_id has_more longer rows in
      if frame_fits (message_page session_id longer (has_more || false)) phone_frame_budget
      then rest
      else record { messages = public; dropped = true }

  unfoldable pub message_page_rows :
      Text → List (MessageRow Value) → Bool → Page (PhoneMessageRow Value)
  unfolding page_loop
  message_page_rows session_id messages has_more =
      page_loop session_id has_more [] (reverse messages)

  unfoldable pub message_page_frame : Text → List (MessageRow Value) → Bool → SyncFrame Value
  unfolding message_page_rows
  message_page_frame session_id messages has_more =
      let id = public_identifier ext session_id in
      let page = message_page_rows id messages has_more in
      message_page id page.messages (has_more || page.dropped)
