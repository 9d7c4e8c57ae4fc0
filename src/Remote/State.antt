-- ===== src/Remote/State.antt =====
-- What the handler reads and changes: settings, rows, and the answers of what can fail.
use portcode.Common.{
  ℕ, ◌+◌, Bool, true, false, not, ◌&&◌, ◌||◌, List, [], ◌∷◌, Option, none, some, ◌>>=◌,
  if◌then◌else◌, leb, ltb, length, take, any, filter_map, Text, codes, same, Result, ok, err, ℤ,
}
use mathlib.Core.List.{reverse}
use portcode.Wire.{SessionRow, MessageRow, CommandRejectionCode, invalid_desktop_configuration}
use portcode.Remote.Messages.{StoredMessage, less, row_to_message, rows_before, newest_first}
use portcode.Public.{starts_with, is_whitespace, trim_end, within}
use portcode.Hub.{strip_prefix}

-- The fields of `Settings` that a remote create reads.
pub record Settings : Type 0 where
  pub provider : Text
  pub model : Text

-- `settings` is none when its lock is poisoned; the other answers say whether the lock of remote
-- creates, a read of the sessions, an insert and the query of a page succeed, and whether the hub is managed yet. `new_id` and
-- `now_ms` are the next UUID and the clock.
pub record Desk (Value : Type 0) : Type 0 where
  pub settings : Option Settings
  pub sessions : List SessionRow
  pub messages : List (StoredMessage Value)
  pub can_lock : Bool
  pub can_list : Bool
  pub can_insert : Bool
  pub can_query : Bool
  pub has_hub : Bool
  pub new_id : Text
  pub now_ms : ℤ

-- `ORDER BY updated_at DESC`
unfoldable pub insert_by_update : SessionRow → List SessionRow → List SessionRow
insert_by_update row [] = row ∷ []
insert_by_update row (r ∷ rs) =
    let rest = insert_by_update row rs in
    if less r.updated_at row.updated_at then row ∷ r ∷ rs else r ∷ rest

unfoldable pub sort_by_update : List SessionRow → List SessionRow
sort_by_update [] = []
sort_by_update (r ∷ rs) = insert_by_update r (sort_by_update rs)

module _ {Value : Type 0} where
  unfoldable pub list_sessions : Desk Value → Option (List SessionRow)
  list_sessions desk = if desk.can_list then some (sort_by_update desk.sessions) else none

  unfoldable pub require_session : Text → Desk Value → Bool
  require_session id desk = any (λ (r : SessionRow). same r.id id) desk.sessions

  -- INSERT INTO sessions
  unfoldable pub create_session_row : SessionRow → Desk Value → Bool × Desk Value
  create_session_row row desk =
      if desk.can_insert && not (require_session row.id desk)
      then (true, record desk { sessions = row ∷ desk.sessions })
      else (false, desk)

  -- One row more than the limit is read. A query that fails answers an empty page.
  unfoldable pub messages_page : Text → ℤ → ℕ → Desk Value → List (MessageRow Value) × Bool
  messages_page session_id before_seq limit desk =
      if leb limit 0 || not desk.can_query
      then ([], false)
      else (let rows = newest_first (rows_before session_id before_seq desk.messages) in
          let found = filter_map row_to_message (take (limit + 1) rows) in
          let has_more = ltb limit (length found) in
          (reverse (if has_more then take limit found else found), has_more))

-- `str::trim`
abbrev pub trim_start : Text → Text
trim_start [] = []
trim_start (c ∷ cs) = let rest = trim_start cs in if is_whitespace c then rest else c ∷ cs

abbrev pub trim : Text → Text
trim t = trim_end (trim_start t)

abbrev pub starts_with_digit : Option Text → Bool
starts_with_digit (some (c ∷ cs)) = within b'0' b'9' c
starts_with_digit _ = false

-- llm.rs
unfoldable pub provider_name_for_model : Text → Option Text
provider_name_for_model untrimmed =
    let model = trim untrimmed in
    if starts_with model (codes "gpt-")
      || starts_with model (codes "codex-")
      || starts_with model (codes "openai-")
      || starts_with_digit (strip_prefix (codes "o") model)
    then some (codes "openai")
    else none

-- lib.rs, with no model requested
unfoldable pub effective_session_model : Settings → Option Text
effective_session_model settings =
    if same settings.model [] || not (same (trim settings.model) settings.model)
    then none
    else provider_name_for_model settings.model >>= (λ provider. some settings.model)

abbrev pub checked_provider : Settings → Text → Text → Result CommandRejectionCode Text
checked_provider settings model provider =
    if not (same settings.provider provider) || not (same provider (codes "openai"))
    then err invalid_desktop_configuration
    else ok model

abbrev pub with_provider : Settings → Text → Option Text → Result CommandRejectionCode Text
with_provider settings model none = err invalid_desktop_configuration
with_provider settings model (some provider) = checked_provider settings model provider

abbrev pub with_model : Settings → Option Text → Result CommandRejectionCode Text
with_model settings none = err invalid_desktop_configuration
with_model settings (some model) = with_provider settings model (provider_name_for_model model)

unfoldable pub remote_create_model : Settings → Result CommandRejectionCode Text
remote_create_model settings = with_model settings (effective_session_model settings)
