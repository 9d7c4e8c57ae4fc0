-- ===== src/Session/Exchange.antt =====
-- Catch-up: the phone's request (session.rs of portcode-sync) and the desktop's reply (sync/session.rs).
use portcode.Common.{
  ℕ, List, [], ◌∷◌, if◌then◌else◌, Option, none, some, unwrap_or, ℤ, negsuc, Text, codes, same,
  length, take, Result, ok, err,
}
use portcode.External.{External}
use portcode.Wire.{
  Cursor, SyncFrame, SessionRow, MessageRow, PhoneSessionRow, PhoneMessageRow, hello, session_list,
  message_delta,
}
use portcode.Public.{valid_remote_identifier, session_list_frame, message_delta_frame}
use portcode.Session.Transport.{Channel, recv?, send, and_then}

pub record CatchUp (Value : Type 0) : Type 0 where
  pub sessions : List PhoneSessionRow
  pub deltas : List (Text × List (PhoneMessageRow Value))

-- What catch-up asks of `Db`.
pub record Db (Value : Type 0) : Type 0 where
  pub list_sessions : Result Text (List SessionRow)
  pub messages_tail : Text → ℤ → ℕ → List (MessageRow Value)

abbrev pub sync_cache_window : ℕ
sync_cache_window = 200

module _ {Value : Type 0} where
  abbrev pub push_delta :
      Text × List (PhoneMessageRow Value)
      → Result Text (List (Text × List (PhoneMessageRow Value))) × Channel Value
      → Result Text (List (Text × List (PhoneMessageRow Value))) × Channel Value
  push_delta delta (ok deltas, ch) = (ok (delta ∷ deltas), ch)
  push_delta delta (err e, ch) = (err e, ch)

  -- The loop over the cursors.
  unfoldable pub read_deltas :
      List Cursor
      → Channel Value
      → Result Text (List (Text × List (PhoneMessageRow Value))) × Channel Value
  read_deltas [] ch = (ok [], ch)
  read_deltas (cursor ∷ cursors) ch = and_then (recv? ch) (λ frame next. elim frame [
    | message_delta session_id messages ↦
        let rest = push_delta (session_id, messages) (read_deltas cursors next) in
        if same session_id cursor.session_id then rest else (
          err (codes "catch-up MessageDelta session id does not match the requested cursor"),
          next,
        )
    | _ ↦ (err (codes "expected MessageDelta, got an unexpected frame"), next)
  ])

  abbrev pub finish :
      List PhoneSessionRow
      → Result Text (List (Text × List (PhoneMessageRow Value))) × Channel Value
      → Result Text (CatchUp Value) × Channel Value
  finish sessions (ok deltas, ch) = (ok (record { sessions = sessions; deltas = deltas }), ch)
  finish sessions (err e, ch) = (err e, ch)

  unfoldable pub request_catch_up :
      Text → List Cursor → Channel Value → Result Text (CatchUp Value) × Channel Value
  unfolding read_deltas
  request_catch_up device_id cursors ch = and_then (send (hello device_id cursors) ch) (λ _ asked.
      and_then (recv? asked) (λ frame next. elim frame [
        | session_list sessions ↦ finish sessions (read_deltas cursors next)
        | _ ↦ (err (codes "expected SessionList, got an unexpected frame"), next)
      ]))

-- `HashMap<String, i64>`
unfoldable pub insert_seq : Text → ℤ → List (Text × ℤ) → List (Text × ℤ)
insert_seq k v [] = (k, v) ∷ []
insert_seq k v ((j, w) ∷ m) = if same j k then (k, v) ∷ m else (j, w) ∷ insert_seq k v m

unfoldable pub get_seq : Text → List (Text × ℤ) → Option ℤ
get_seq k [] = none
get_seq k ((j, v) ∷ m) = if same j k then some v else get_seq k m

-- `filter(valid).map(..).collect()`: a later cursor replaces an earlier one of the same session.
unfoldable pub collect_seqs : List (Text × ℤ) → List Cursor → List (Text × ℤ)
collect_seqs m [] = m
collect_seqs m (cursor ∷ cursors) =
    let kept = collect_seqs (insert_seq cursor.session_id cursor.seq m) cursors in
    let skipped = collect_seqs m cursors in
    if valid_remote_identifier cursor.session_id then kept else skipped

abbrev pub listed : {Value : Type 0} → SyncFrame Value → ℕ
listed (session_list sessions) = length sessions
listed _ = 0

module _ {Value : Type 0} (ext : External Value) (db : Db Value) where
  abbrev pub delta_for : List (Text × ℤ) → SessionRow → SyncFrame Value
  delta_for cursor_seqs session =
      let after_seq = unwrap_or (get_seq session.id cursor_seqs) (negsuc 0) in
      message_delta_frame ext session.id (db.messages_tail session.id after_seq sync_cache_window)

  -- The loop over the served sessions.
  unfoldable pub send_deltas :
      List (Text × ℤ) → List SessionRow → Channel Value → Result Text (Unit {0}) × Channel Value
  send_deltas cursor_seqs [] ch = (ok tt, ch)
  send_deltas cursor_seqs (session ∷ sessions) ch =
      and_then (send (delta_for cursor_seqs session) ch)
        (λ _ next. send_deltas cursor_seqs sessions next)

  abbrev pub serve_sessions :
      List Cursor
      → Channel Value
      → Result Text (List SessionRow)
      → Result Text (Unit {0}) × Channel Value
  serve_sessions cursors ch (err e) = (err e, ch)
  serve_sessions cursors ch (ok sessions) =
      let list = session_list_frame ext sessions in
      and_then (send list ch)
        (λ _ next. send_deltas (collect_seqs [] cursors) (take (listed list) sessions) next)

  unfoldable pub serve_catch_up_with_cursors :
      Channel Value → List Cursor → Result Text (Unit {0}) × Channel Value
  unfolding send_deltas
  serve_catch_up_with_cursors ch cursors = serve_sessions cursors ch db.list_sessions

  unfoldable pub serve_catch_up : Channel Value → Result Text (Unit {0}) × Channel Value
  unfolding serve_catch_up_with_cursors
  serve_catch_up ch = and_then (recv? ch) (λ frame next. elim frame [
    | hello device_id cursors ↦ serve_catch_up_with_cursors next cursors
    | _ ↦ (err (codes "expected Hello, got an unexpected frame"), next)
  ])
