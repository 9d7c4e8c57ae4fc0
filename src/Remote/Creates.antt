-- ===== src/Remote/Creates.antt =====
-- What the creation of a session by a phone can do, and the whole of `handle`.
use portcode.Common.{
  ◌≡◌, ◌⊎◌, inl, inr, refl, Bool, true, false, not, ◌&&◌, List, ◌∷◌, Option, none, some,
  if◌then◌else◌, Bool-cases, All, All-append, Text, Result, ok, err,
}
use portcode.External.{External}
use portcode.Wire.{
  SessionRow, CommandRejectionCode, invalid_request, desktop_unavailable, RemoteCommand,
}
use portcode.Public.{valid_remote_identifier, session_list_frame, session_created_frame}
use portcode.Remote.{
  Settings, Desk, list_sessions, require_session, create_session_row, remote_create_model,
  rejection_message, normalize_remote_session_title, Action, published, new_row,
  command_rejection_frame, session_list_with_candidate_fits, insert_row, create_with_title,
  create_with_model, create_remote_session, list_answer, create_answer, handle_create_session,
  handle,
}
use portcode.Remote.Answers.{
  byte_len-bounded_public_message, IsAnswer, IsAdmitted, published-Admitted, run-Admitted,
  cancel-Admitted, cancel_agent-Admitted, permission-Admitted, fetch-Admitted,
}

module _ {Value : Type 0} (ext : External Value) where
  -- A row that a create may add: for a valid request, with a fresh identifier, and only if the list with
  -- it in front fits a frame.
  pub record IsAdded (desk : Desk Value) (request_id : Text) (row : SessionRow) : Type 0 where
    pub valid : valid_remote_identifier request_id ≡ true
    pub fresh : require_session row.id desk ≡ false
    pub fits : session_list_with_candidate_fits ext desk row ≡ ok true

  abbrev pub with_row : SessionRow → Desk Value → Desk Value
  with_row row desk = record desk { sessions = row ∷ desk.sessions }

  -- How a create ends: with an error and no change, or with one row more.
  abbrev Created : Desk Value → Text → Result CommandRejectionCode SessionRow × Desk Value → Type 0
  Created desk request_id (err code, after) = after ≡ desk
  Created desk request_id (ok row, after) =
      IsAdded desk request_id row × (after ≡ with_row row desk)

  insert-Created :
      (desk : Desk Value) (request_id : Text) (row : SessionRow)
      (fits : Result CommandRejectionCode Bool)
      → valid_remote_identifier request_id ≡ true
      → session_list_with_candidate_fits ext desk row ≡ fits
      → Created desk request_id (insert_row ext row fits desk)
  unfolding create_session_row
  insert-Created desk request_id row (err code) v f = refl
  insert-Created desk request_id row (ok false) v f = refl
  insert-Created desk request_id row (ok true) v f =
      at (desk.can_insert) (require_session row.id desk) refl
    where
      at :
          (can known : Bool)
          → require_session row.id desk ≡ known
          → let r : Bool × Desk Value =
              (if can && not known
                then (true, record desk { sessions = row ∷ desk.sessions })
                else (false, desk)) in
            Created desk request_id (if r.0 then ok row else err desktop_unavailable, r.1)
      at true false k = (record { valid = v; fresh = k; fits = f }, refl)
      at true true k = refl
      at false known k = refl

  create_with_title-Created :
      (desk : Desk Value) (request_id model : Text) (title : Result CommandRejectionCode Text)
      → valid_remote_identifier request_id ≡ true
      → Created desk request_id (create_with_title ext model title desk)
  create_with_title-Created desk request_id model (err code) v = refl
  create_with_title-Created desk request_id model (ok title) v = at desk.can_lock
    where
      at :
          (can : Bool)
          → Created desk request_id (
              if can
              then insert_row ext
                  (new_row model title desk)
                  (session_list_with_candidate_fits ext desk (new_row model title desk))
                  desk
              else (err desktop_unavailable, desk))
      at true = insert-Created desk request_id (new_row model title desk) _ v refl
      at false = refl

  create_with_model-Created :
      (desk : Desk Value) (request_id : Text) (title : Option Text)
      (model : Result CommandRejectionCode Text)
      → valid_remote_identifier request_id ≡ true
      → Created desk request_id (create_with_model ext title model desk)
  create_with_model-Created desk request_id title (err code) v = refl
  create_with_model-Created desk request_id title (ok model) v =
      create_with_title-Created desk request_id model (normalize_remote_session_title title) v

  create_remote_session-Created :
      (desk : Desk Value) (settings : Settings) (request_id : Text) (title : Option Text)
      → Created desk request_id (create_remote_session ext desk settings request_id title)
  unfolding create_remote_session
  create_remote_session-Created desk settings request_id title =
      elim (Bool-cases (valid_remote_identifier request_id)) [
        | inl v ↦
            rw (create_remote_session, v)
              (create_with_model-Created desk request_id title (remote_create_model settings) v)
        | inr v ↦ rw (create_remote_session, v) refl
      ]

  rejection-Admitted :
      (desk : Desk Value) (request_id : Text) (title : Option Text) (code : CommandRejectionCode)
      → IsAnswer ext desk
          (RemoteCommand.create_session request_id title)
          (command_rejection_frame ext request_id code)
  unfolding command_rejection_frame
  rejection-Admitted desk request_id title code =
      elim (Bool-cases (valid_remote_identifier request_id)) [
        | inl v ↦
            rw (command_rejection_frame, v)
              (inr (refl, v), byte_len-bounded_public_message ext (rejection_message code))
        | inr v ↦
            rw (command_rejection_frame, v)
              (inl refl, byte_len-bounded_public_message ext (rejection_message invalid_request))
      ]

  list_answer-Admitted :
      (sessions : Option (List SessionRow)) (desk after : Desk Value) (request_id : Text)
      (title : Option Text)
      → valid_remote_identifier request_id ≡ true
      → All
          (IsAdmitted ext desk (RemoteCommand.create_session request_id title))
          (list_answer ext after sessions)
  unfolding session_list_frame
  list_answer-Admitted none desk after request_id title v = tt
  list_answer-Admitted (some sessions) desk after request_id title v =
      published-Admitted ext after.has_hub desk (RemoteCommand.create_session request_id title) _ v

  -- How a command changes the desk: only a create does, by one row.
  abbrev pub Changes : Desk Value → RemoteCommand → Desk Value → Type 0
  Changes desk (RemoteCommand.create_session request_id title) after =
      (after ≡ desk)
      ⊎ ((row : SessionRow) × IsAdded desk request_id row × (after ≡ with_row row desk))
  Changes desk command after = after ≡ desk

  -- What is promised of a command's actions and of the desk behind it.
  abbrev pub IsHandled : Desk Value → RemoteCommand → List (Action Value) × Desk Value → Type 0
  IsHandled desk command (actions, after) =
      All (IsAdmitted ext desk command) actions × Changes desk command after

  create_answer-IsHandled :
      (desk : Desk Value) (request_id : Text) (title : Option Text)
      (result : Result CommandRejectionCode SessionRow × Desk Value)
      → Created desk request_id result
      → IsHandled desk
          (RemoteCommand.create_session request_id title)
          (create_answer ext request_id result)
  unfolding session_created_frame
  create_answer-IsHandled desk request_id title (err code, after) e = (
    published-Admitted ext after.has_hub desk (RemoteCommand.create_session request_id title) _
        (rejection-Admitted desk request_id title code),
    inl e,
  )
  create_answer-IsHandled desk request_id title (ok row, after) (added, e) = (
    All-append _ (published after (session_created_frame ext request_id row))
        (list_answer ext after (list_sessions after))
        (published-Admitted ext after.has_hub desk (RemoteCommand.create_session request_id title) _
          added.valid)
        (list_answer-Admitted (list_sessions after) desk after request_id title added.valid),
    inr (row, added, e),
  )

  create-IsHandled :
      (desk : Desk Value) (request_id : Text) (title : Option Text) (settings : Option Settings)
      → IsHandled desk (RemoteCommand.create_session request_id title) (
          create_answer ext request_id (elim settings [
            | none ↦ (err desktop_unavailable, desk)
            | some t ↦ create_remote_session ext desk t request_id title
          ]))
  create-IsHandled desk request_id title none =
      create_answer-IsHandled desk request_id title (err desktop_unavailable, desk) refl
  create-IsHandled desk request_id title (some t) =
      create_answer-IsHandled desk request_id title _
        (create_remote_session-Created desk t request_id title)

  -- A phone's command makes the desktop do only what it may: a turn runs and a session is interrupted only
  -- under a valid identifier of a stored session, a turn only with a text that is not blank and has at most
  -- 32 KiB; an agent is interrupted under any valid identifier; an approval is answered only under a valid
  -- identifier, granted only for the word "allow", and never for the session; a page is published only of
  -- a stored session, a rejection with at most 240 bytes of text and the identifier of the request only if
  -- that is valid. The desk changes only by a create, which adds at most one row, for a valid request, with
  -- a fresh identifier, and if the list with the row fits a frame.
  pub handle-IsHandled :
      (desk : Desk Value) (command : RemoteCommand)
      → IsHandled desk command (handle ext desk command)
  unfolding handle handle_create_session
  handle-IsHandled desk (RemoteCommand.run id text) = (run-Admitted ext desk id text, refl)
  handle-IsHandled desk (RemoteCommand.cancel id) = (cancel-Admitted ext desk id, refl)
  handle-IsHandled desk (RemoteCommand.cancel_agent id) = (cancel_agent-Admitted ext desk id, refl)
  handle-IsHandled desk (RemoteCommand.permission id decision) =
      (permission-Admitted ext desk id decision, refl)
  handle-IsHandled desk (RemoteCommand.create_session request_id title) =
      create-IsHandled desk request_id title desk.settings
  handle-IsHandled desk (RemoteCommand.register_push endpoint p256dh auth) = (tt, refl)
  handle-IsHandled desk (RemoteCommand.fetch_messages id before_seq limit) =
      (fetch-Admitted ext desk id before_seq limit, refl)
