-- ===== src/Codex/Params.antt =====
-- codex_engine.rs: the sanitized parameters of an event, and the events as the deferred queue holds
-- them. `JsonCodec` is serde_json's: the length of an encoded value and the numbers.
use portcode.Common.{
  ℕ, ◌-◌, ◌^◌, true, false, ◌&&◌, List, [], ◌∷◌, Option, none, some, ◌>>=◌, option_map, unwrap_or,
  is_some, if◌then◌else◌, ltb, leb, Text, codes, same, byte_len,
}
use portcode.Codex.Json.{
  Value, null, bool, number, string, array, object, Values, nil, cons, Fields, end, field,
  get_field, insert_field, no_fields, get, as_object,
}
use portcode.Codex.Sanitize.{
  activity_metadata_key, max_activity_param_bytes, is_raw_reasoning_method, truncate_utf8,
  ActivitySanitization, default_stats, stats_redacted, stats_truncated,
}
use portcode.Codex.Nodes.{Node, redaction_marker, sanitize_activity_node}

abbrev pub max_activity_method_bytes : ℕ
max_activity_method_bytes = 256

pub record JsonCodec (Number : Type 0) : Type 0 where
  -- `serde_json::to_writer`: the number of bytes written
  pub to_writer : Value Number → Option ℕ
  -- `json!(n)`
  pub from_usize : ℕ → Number

-- codex_app_server.rs
pub data Incoming (Number : Type 0) : Type 0 where
  notification : (generation : ℕ) (method : Text) (params raw : Value Number) → Incoming Number
  server_request :
      (generation : ℕ) (id : Value Number) (method : Text) (params raw : Value Number)
      → Incoming Number
  transport_closed : (generation : ℕ) (reason : Text) → Incoming Number

abbrev pub correlation_keys : List Text
correlation_keys =
    codes "threadId"
    ∷ codes "turnId"
    ∷ codes "itemId"
    ∷ codes "requestId"
    ∷ codes "contentIndex"
    ∷ codes "startedAtMs"
    ∷ codes "completedAtMs"
    ∷ codes "id"
    ∷ codes "type"
    ∷ codes "status"
    ∷ []

abbrev pub identity_keys : List Text
identity_keys =
    codes "id" ∷ codes "type" ∷ codes "status" ∷ codes "startedAtMs" ∷ codes "completedAtMs" ∷ []

module _ {Number : Type 0} where
  -- A scalar is copied, a string up to 256 bytes; anything else is skipped.
  abbrev pub scalar : Value Number → Option (Value Number)
  scalar (string t) = some (string (truncate_utf8 t 256))
  scalar (array vs) = none
  scalar (object fs) = none
  scalar v = some v

  abbrev pub put_scalar : Text → Option (Value Number) → Fields Number → Fields Number
  put_scalar key none retained = retained
  put_scalar key (some v) retained = insert_field key v retained

  unfoldable pub copy_scalars : List Text → Value Number → Fields Number → Fields Number
  copy_scalars [] params retained = retained
  copy_scalars (key ∷ keys) params retained =
      copy_scalars keys params (put_scalar key (get key params >>= scalar) retained)

  abbrev pub put_identity : Fields Number → Fields Number → Fields Number
  put_identity identity retained =
      if no_fields identity
      then retained
      else insert_field (codes "item") (object identity) retained

  abbrev pub with_item : Option (Value Number) → Fields Number → Fields Number
  with_item none retained = retained
  with_item (some item) retained = put_identity (copy_scalars identity_keys item end) retained

  unfoldable pub correlation_only_params : Value Number → Fields Number
  correlation_only_params params =
      with_item (get (codes "item") params) (copy_scalars correlation_keys params end)

  abbrev pub strings : List Text → Values Number
  strings [] = nil
  strings (t ∷ ts) = cons (string t) (strings ts)

  -- `json!({ "value": sanitized })` for what is no object
  abbrev pub as_params : Value Number → Fields Number
  as_params (object fs) = fs
  as_params v = field (codes "value") v end

  -- `get_mut(key).and_then(Value::as_object_mut)` and a change of what it finds
  abbrev pub in_object : (Fields Number → Fields Number) → Value Number → Value Number
  in_object f (object fs) = object (f fs)
  in_object f v = v

  unfoldable pub update_field :
      Text → (Fields Number → Fields Number) → Fields Number → Fields Number
  update_field key f end = end
  update_field key f (field k v fs) =
      let rest = update_field key f fs in
      if same k key then field k (in_object f v) fs else field k v rest

  -- What a walk over the parameters gives.
  unfoldable pub walk_params : Text → Value Number → Node Number
  walk_params method params =
      if is_raw_reasoning_method method
      then (
        object (correlation_only_params params),
        stats_redacted (codes "rawReasoning") default_stats,
      )
      else sanitize_activity_node params 0 default_stats false

  -- `entry("truncationReasons")`, which is an array, takes one more reason.
  abbrev pub push_string : Text → Value Number → Value Number
  push_string t (array vs) = array (push_value (string t) vs)
    where
      push_value : Value Number → Values Number → Values Number
      push_value w nil = cons w nil
      push_value w (cons v vs) = cons v (push_value w vs)
  push_string t v = v

  module _ (codec : JsonCodec Number) where
    abbrev pub encoded_json_len : Value Number → ℕ
    encoded_json_len value = unwrap_or (codec.to_writer value) (2 ^ 64 - 1)

    unfoldable pub set_activity_metadata : Fields Number → ActivitySanitization → ℕ → Fields Number
    set_activity_metadata params s original_bytes =
        insert_field activity_metadata_key
          (object (
            field (codes "originalBytes") (number (codec.from_usize original_bytes)) (
              field (codes "redacted") (bool s.redacted) (
                field (codes "redactionReasons") (array (strings s.redaction_reasons)) (
                  field (codes "truncated") (bool s.truncated) (
                    field (codes "truncationReasons") (array (strings s.truncation_reasons))
                      end))))))
          params

    -- The parameters when they do not fit: those that correlate, and the statistics.
    abbrev pub correlated :
        Value Number → ActivitySanitization → ℕ → Value Number × ActivitySanitization
    correlated params s original_bytes =
        let t = stats_truncated (codes "maxEncodedBytes") s in
        (object (set_activity_metadata (correlation_only_params params) t original_bytes), t)

    abbrev pub fitted :
        Value Number → ℕ → Value Number × ActivitySanitization → Value Number × ActivitySanitization
    fitted params original_bytes (sanitized, s) =
        if ltb max_activity_param_bytes (encoded_json_len sanitized)
        then correlated params s original_bytes
        else (sanitized, s)

    abbrev pub with_retained_bytes : Value Number → Value Number
    with_retained_bytes sanitized =
        let retained_bytes = encoded_json_len sanitized in
        in_object
          (update_field activity_metadata_key
            (insert_field (codes "retainedBytes") (number (codec.from_usize retained_bytes))))
          sanitized

    -- The steps behind the walk: metadata, fit, the retained bytes, fit.
    unfoldable pub finish_params : Value Number → ℕ → Node Number → Value Number
    finish_params params original_bytes (walked, s) =
        let first =
          fitted params original_bytes
            (object (set_activity_metadata (as_params walked) s original_bytes), s) in
        (fitted params original_bytes (with_retained_bytes first.0, first.1)).0

    unfoldable pub sanitize_activity_params : Text → Value Number → Value Number
    sanitize_activity_params method params =
        finish_params params (encoded_json_len params) (walk_params method params)

    abbrev pub note_method : ℕ → Fields Number → Fields Number
    note_method original_method_bytes metadata =
        let noted =
          insert_field (codes "originalMethodBytes")
            (number (codec.from_usize original_method_bytes))
            (insert_field (codes "truncated") (bool true) metadata) in
        insert_field (codes "truncationReasons")
          (push_string (codes "maxMethodBytes")
            (unwrap_or (get_field (codes "truncationReasons") noted) (array nil)))
          noted

    unfoldable pub sanitize_method_and_params : Text → Value Number → Text × Value Number
    sanitize_method_and_params method params =
        let kept = truncate_utf8 method max_activity_method_bytes in
        let sanitized = sanitize_activity_params kept params in
        if ltb max_activity_method_bytes (byte_len method)
        then (
          kept,
          in_object (update_field activity_metadata_key (note_method (byte_len method))) sanitized,
        )
        else (kept, sanitized)

    unfoldable pub sanitize_incoming : Incoming Number → Incoming Number
    sanitize_incoming (notification generation method params raw) =
        let (kept, sanitized) = sanitize_method_and_params method params in
        notification generation kept sanitized null
    sanitize_incoming (server_request generation id method params raw) =
        let (kept, sanitized) = sanitize_method_and_params method params in
        server_request generation id kept sanitized null
    sanitize_incoming (transport_closed generation reason) = transport_closed generation reason

    unfoldable pub already_sanitized_activity : Text → Value Number → Value Number
    already_sanitized_activity method params =
        if is_some (get activity_metadata_key params >>= as_object)
          && leb (encoded_json_len params) max_activity_param_bytes
        then params
        else sanitize_activity_params method params

  unfoldable pub sanitize_request_id : Option (Value Number) → Option (Value Number)
  sanitize_request_id request_id =
      option_map (λ v. unwrap_or (scalar v) (redaction_marker (codes "nonScalarRequestId")))
        request_id
