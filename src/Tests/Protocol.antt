-- ===== src/Tests/Protocol.antt =====
-- The properties of the session protocol at concrete inputs.
use portcode.Common.{
  ℕ, suc, ◌≡◌, refl, true, List, [], ◌∷◌, ◌++◌, map, pos, Text, codes, same, take, Result, ok, err,
  is_ok, len_utf8, encode_utf8,
}
use portcode.Wire.{RemoteCommand, SyncFrame, Cursor, SessionRow, run, cancel, command, ack, hello}
use portcode.Public.{
  public_identifier, session_list_rows, session_list_frame, valid_remote_identifier, frame_fits,
}
use portcode.Scrub.{redact_secrets_bounded, redact_secrets_full, run_passes}
use portcode.Session.{
  Channel, open_channel, closed, Db, collect_seqs, request_catch_up, serve_catch_up, frame,
  forward_live, handle_commands,
}
use portcode.Session.Agreement.{
  served, delta_parts, AsksInOrder, answer, replied, serve_catch_up-reply, request_catch_up-agree,
  request_catch_up-deltas,
}
use portcode.Common.{◌↔◌}
use portcode.Session.Intake.{
  IsForwarded, verdict, dispatch, commands_of, forward_live-IsForwarded, handle_commands-dispatch,
}
use portcode.Tests.Sample.{sample}
use portcode.Tests.Projection.{session}

abbrev rows : List SessionRow
rows = session ∷ []

abbrev db : Db Text
db = record { list_sessions = ok rows; messages_tail = λ id after limit. [] }

abbrev cursors : List Cursor
cursors = record { session_id = codes "s1"; seq = pos 3 } ∷ []

serve_catch_up-reply_example :
    serve_catch_up sample db (open_channel (ok (hello (codes "phone") cursors) ∷ []) [])
    ≡ answer sample db cursors [] [] db.list_sessions
serve_catch_up-reply_example = serve_catch_up-reply sample db (codes "phone") cursors [] []

request_catch_up-agree_example :
    (is_ok (request_catch_up (codes "phone") cursors (replied sample db cursors rows [] [])).0
      ≡ true)
    ↔ AsksInOrder sample db cursors rows
request_catch_up-agree_example =
    request_catch_up-agree sample db (codes "phone") cursors rows [] [] refl

asked_in_order : AsksInOrder sample db cursors rows
unfolding session_list_rows frame_fits public_identifier valid_remote_identifier
    redact_secrets_bounded redact_secrets_full run_passes len_utf8 encode_utf8 same
    session_list_frame
asked_in_order = record { rest = []; splits = refl }

request_catch_up-deltas_example :
    (request_catch_up (codes "phone") cursors (replied sample db cursors rows [] [])).0
    ≡ ok (record {
      sessions = session_list_rows sample rows;
      deltas =
          take 1 (map (delta_parts sample db (collect_seqs [] cursors)) (served sample db rows));
    })
request_catch_up-deltas_example =
    request_catch_up-deltas sample db (codes "phone") cursors rows [] [] refl asked_in_order

abbrev sink : Channel Text
sink = record { incoming = []; outcomes = ok tt ∷ err (codes "gone") ∷ []; sent = [] }

forward_live-IsForwarded_example :
    IsForwarded
      (frame (ack (codes "s1") (pos 1)) ∷ frame (ack (codes "s1") (pos 2)) ∷ [])
      []
      (forward_live (frame (ack (codes "s1") (pos 1)) ∷ frame (ack (codes "s1") (pos 2)) ∷ []) sink)
forward_live-IsForwarded_example =
    forward_live-IsForwarded
      (frame (ack (codes "s1") (pos 1)) ∷ frame (ack (codes "s1") (pos 2)) ∷ []) sink

-- A handler that counts, and rejects every command.
abbrev count : RemoteCommand → ℕ → Result Text (Unit {0}) × ℕ
count c n = (err (codes "no"), suc n)

abbrev intake : List (SyncFrame Text)
intake =
    command (run (codes "s1") (codes "hi"))
    ∷ ack (codes "s1") (pos 4)
    ∷ command (cancel (codes "s1"))
    ∷ []

handle_commands-dispatch_example :
    handle_commands count (map ok intake ++ err closed ∷ []) 0
    ≡ (verdict {Value = Text} (err closed), dispatch count (commands_of intake) 0)
handle_commands-dispatch_example = handle_commands-dispatch count intake (err closed) [] 0 refl refl

two_commands :
    handle_commands {Value = Text} count (map ok intake ++ err closed ∷ []) 0 ≡ (ok tt, 2)
unfolding handle_commands
two_commands = refl
