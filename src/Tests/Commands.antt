-- ===== src/Tests/Commands.antt =====
-- The property of remote commands at a concrete desk.
use portcode.Common.{
  same, len_utf8, encode_utf8, ◌≡◌, refl, true, ℤ, arith, [], ◌∷◌, none, some, Text, codes, pos,
}
use portcode.Wire.{SessionRow, MessageRow, RemoteCommand}
use portcode.Public.{
  is_whitespace, trim_end, valid_remote_identifier, is_identifier_byte, is_ascii_alphanumeric,
}
use portcode.Remote.{
  Settings, Desk, require_session, authoritative_remote_session_id, run_turn, handle_run, handle,
  rows_before, StoredMessage, newest_first, insert_by_seq, row_to_message, without_reasoning,
  messages_page,
}
use portcode.Remote.Pages.{IsNewest, messages_page-IsNewest}
use portcode.Remote.Creates.{IsHandled, handle-IsHandled}
use portcode.Tests.Sample.{sample}

abbrev stored : SessionRow
stored = record {
  id = codes "s-1";
  title = codes "First";
  branch = none;
  workspace = none;
  model = none;
  account_profile_id = none;
  created_at = pos 5;
  updated_at = pos 5;
}

abbrev openai : Settings
openai = record { provider = codes "openai"; model = codes "gpt-5" }

abbrev desk : Desk Text
desk = record {
  settings = some openai;
  sessions = stored ∷ [];
  messages = [];
  can_lock = true;
  can_list = true;
  can_insert = true;
  can_query = true;
  has_hub = true;
  new_id = codes "s-2";
  now_ms = pos 9;
}

-- A turn runs with the trimmed text, under the stored session only.
ran : handle_run desk (codes "s-1") (codes " hi ") ≡ run_turn (codes "s-1") (codes "hi") openai ∷ []
unfolding handle_run authoritative_remote_session_id require_session valid_remote_identifier
    is_identifier_byte is_ascii_alphanumeric same len_utf8 encode_utf8 trim_end is_whitespace
ran = refl

refused : handle_run desk (codes "s-3") (codes "hi") ≡ []
unfolding handle_run authoritative_remote_session_id require_session valid_remote_identifier
    is_identifier_byte is_ascii_alphanumeric same len_utf8 encode_utf8 trim_end is_whitespace
refused = refl

handle-IsHandled_example :
    IsHandled sample desk
      (RemoteCommand.create_session (codes "r-1") none)
      (handle sample desk (RemoteCommand.create_session (codes "r-1") none))
handle-IsHandled_example =
    handle-IsHandled sample desk (RemoteCommand.create_session (codes "r-1") none)

abbrev message : ℤ → MessageRow Text
message seq = record {
  id = codes "m";
  session_id = codes "s-1";
  seq = seq;
  role = codes "user";
  content = [];
  created_at = seq;
  turn_id = none;
  receipt = none;
}

abbrev written : ℤ → StoredMessage Text
written seq = record { row = message seq; converts = true }

abbrev talk : Desk Text
talk = record desk {
  messages = written (pos 3) ∷ written (pos 1) ∷ written (pos 4) ∷ written (pos 2) ∷ [];
}

two_newest :
    messages_page (codes "s-1") (pos 4) 2 talk ≡ (message (pos 2) ∷ message (pos 3) ∷ [], true)
unfolding messages_page rows_before newest_first insert_by_seq row_to_message without_reasoning same
two_newest = refl

messages_page-IsNewest_example :
    IsNewest
      (rows_before (codes "s-1") (pos 4) talk.messages)
      2
      (messages_page (codes "s-1") (pos 4) 2 talk)
unfolding rows_before same
messages_page-IsNewest_example =
    messages_page-IsNewest talk (codes "s-1") (pos 4) 2 (omega arith) refl
      (refl, (refl, (refl, tt)))
