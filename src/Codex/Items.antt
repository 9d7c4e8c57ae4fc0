-- ===== src/Codex/Items.antt =====
-- codex_engine.rs: what is read from the items of the app-server. `to_string_pretty` is serde_json's.
use portcode.Common.{
  ℕ, Bool, true, false, ◌||◌, List, [], ◌∷◌, ◌++◌, Option, none, some, ◌>>=◌, option_map, unwrap_or,
  is_some, if◌then◌else◌, any, filter_map, Text, codes, same, one_of,
}
use portcode.Codex.Json.{Value, null, array, Values, nil, cons, get, as_str, as_bool}
use portcode.Codex.Params.{Incoming, notification, server_request, transport_closed}

-- `or_else`
abbrev pub or_else : {A : Type 0} → Option A → Option A → Option A
or_else (some a) b = some a
or_else none b = b

abbrev pub is_false : Option Bool → Bool
is_false (some false) = true
is_false _ = false

abbrev pub join_lines : Text → List Text → Text
join_lines t [] = t
join_lines t (u ∷ us) = join_lines (t ++ codes "\n" ++ u) us

abbrev pub joined : List Text → Option Text
joined [] = none
joined (t ∷ ts) = some (join_lines t ts)

module _ {Number : Type 0} where
  unfoldable pub value_at : Value Number → List Text → Option (Value Number)
  value_at cursor [] = some cursor
  value_at cursor (part ∷ path) = get part cursor >>= (λ next. value_at next path)

  abbrev pub string_at : Value Number → List Text → Option Text
  string_at value path = value_at value path >>= as_str

  unfoldable pub extract_thread_id : Value Number → Option Text
  extract_thread_id params = or_else (string_at params (codes "threadId" ∷ [])) (
      or_else (string_at params (codes "thread" ∷ codes "id" ∷ []))
        (string_at params (codes "item" ∷ codes "senderThreadId" ∷ [])))

  unfoldable pub extract_turn_id : Value Number → Option Text
  extract_turn_id params =
      or_else (string_at params (codes "turnId" ∷ []))
        (string_at params (codes "turn" ∷ codes "id" ∷ []))

  unfoldable pub extract_item_id : Value Number → Option Text
  extract_item_id params =
      or_else (string_at params (codes "itemId" ∷ []))
        (string_at params (codes "item" ∷ codes "id" ∷ []))

  unfoldable pub incoming_thread_id : Incoming Number → Option Text
  incoming_thread_id (notification generation method params raw) = extract_thread_id params
  incoming_thread_id (server_request generation id method params raw) = extract_thread_id params
  incoming_thread_id (transport_closed generation reason) = none

  unfoldable pub incoming_generation : Incoming Number → ℕ
  incoming_generation (notification generation method params raw) = generation
  incoming_generation (server_request generation id method params raw) = generation
  incoming_generation (transport_closed generation reason) = generation

  abbrev pub str_of : Text → Value Number → Option Text
  str_of key value = get key value >>= as_str

  -- The name of an item's tool by its type.
  unfoldable pub item_tool_name : Value Number → Text → Option Text
  item_tool_name item item_type =
      if same item_type (codes "commandExecution")
      then some (codes "run_command")
      else if same item_type (codes "fileChange")
      then some (codes "edit_file")
      else if same item_type (codes "mcpToolCall")
      then some (
          codes "mcp:"
          ++ unwrap_or (str_of (codes "server") item) (codes "server")
          ++ codes "/"
          ++ unwrap_or (str_of (codes "tool") item) (codes "tool"))
      else if same item_type (codes "dynamicToolCall")
      then some (
          unwrap_or (str_of (codes "namespace") item) []
          ++ (if is_some (str_of (codes "namespace") item) then codes ":" else [])
          ++ unwrap_or (str_of (codes "tool") item) (codes "tool"))
      else if same item_type (codes "collabAgentToolCall")
      then some (codes "delegate_task")
      else if same item_type (codes "subAgentActivity")
      then some (codes "subagent_activity")
      else if same item_type (codes "webSearch")
      then some (codes "web_search")
      else if same item_type (codes "imageView")
      then some (codes "view_image")
      else if same item_type (codes "imageGeneration")
      then some (codes "image_generation")
      else if same item_type (codes "sleep")
      then some (codes "sleep")
      else if one_of item_type (codes "enteredReviewMode" ∷ codes "exitedReviewMode" ∷ [])
      then some (codes "review")
      else if same item_type (codes "contextCompaction")
      then some (codes "compact_context")
      else none

  unfoldable pub tool_use_from_item : Value Number → Option (Text × Text × Value Number)
  tool_use_from_item item = do
    id ← str_of (codes "id") item
    item_type ← str_of (codes "type") item
    name ← item_tool_name item item_type
    some (id, name, item)

  abbrev pub is_null : Value Number → Bool
  is_null null = true
  is_null _ = false

  abbrev pub not_null : Option (Value Number) → Option (Value Number)
  not_null none = none
  not_null (some v) = if is_null v then none else some v

  unfoldable pub item_is_error : Value Number → Bool
  item_is_error item =
      one_of (unwrap_or (str_of (codes "status") item) (codes "completed"))
        (codes "failed" ∷ codes "declined" ∷ [])
      || is_false (get (codes "success") item >>= as_bool)
      || is_some (not_null (get (codes "error") item))

  module _ (to_string_pretty : Value Number → Option Text) where
    abbrev pub compact_json : Value Number → Text
    compact_json value = unwrap_or (to_string_pretty value) (codes "Codex item completed.")

    unfoldable pub item_output : Value Number → Text → Option Text
    item_output item item_type =
        if same item_type (codes "commandExecution")
        then str_of (codes "aggregatedOutput") item
        else if same item_type (codes "mcpToolCall")
        then or_else (option_map compact_json (not_null (get (codes "result") item)))
            (option_map compact_json (get (codes "error") item))
        else if same item_type (codes "dynamicToolCall")
        then option_map compact_json (get (codes "contentItems") item)
        else if same item_type (codes "imageGeneration")
        then or_else (str_of (codes "savedPath") item) (str_of (codes "result") item)
        else none

    unfoldable pub tool_result_from_item : Value Number → Text × Bool
    tool_result_from_item item = (
      unwrap_or (str_of (codes "type") item >>= item_output item) (compact_json item),
      item_is_error item,
    )

  abbrev pub to_list : Values Number → List (Value Number)
  to_list nil = []
  to_list (cons v vs) = v ∷ to_list vs

  abbrev pub as_array : Value Number → Option (List (Value Number))
  as_array (array vs) = some (to_list vs)
  as_array _ = none

  unfoldable pub input_part : Value Number → Text → Option Text
  input_part input input_type =
      if same input_type (codes "text")
      then str_of (codes "text") input
      else if one_of input_type (codes "image" ∷ codes "localImage" ∷ [])
      then option_map (λ t. codes "[Image: " ++ t ++ codes "]")
          (or_else (get (codes "url") input) (get (codes "path") input) >>= as_str)
      else if one_of input_type (codes "mention" ∷ codes "skill" ∷ [])
      then option_map (λ t. codes "[" ++ t ++ codes "]")
          (or_else (get (codes "name") input) (get (codes "path") input) >>= as_str)
      else none

  unfoldable pub user_message_text : Value Number → Option Text
  user_message_text item = do
    inputs ← get (codes "content") item >>= as_array
    joined (filter_map (λ input. str_of (codes "type") input >>= input_part input) inputs)

  unfoldable pub approval_supports_session : Text → Value Number → Bool
  approval_supports_session method params =
      if same method (codes "item/commandExecution/requestApproval")
      then any
          (λ decision. elim (as_str decision) [
            | none ↦ false
            | some t ↦ same t (codes "acceptForSession")
          ])
          (unwrap_or (get (codes "availableDecisions") params >>= as_array) [])
      else one_of method
          (codes "item/fileChange/requestApproval" ∷ codes "item/permissions/requestApproval" ∷ [])
