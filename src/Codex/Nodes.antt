-- ===== src/Codex/Nodes.antt =====
-- codex_engine.rs: `sanitize_activity_node`, which walks a JSON value.
use portcode.Common.{
  ℕ, zero, suc, Bool, true, false, not, ◌&&◌, ◌||◌, Option, none, some, if◌then◌else◌, ltb, leb,
  Text, codes, one_of, byte_len,
}
use portcode.Codex.Json.{
  Value, null, bool, number, string, array, object, Values, nil, cons, Fields, end, field,
  value_count, get_field,
}
use portcode.Codex.Sanitize.{
  max_activity_depth, max_activity_fields, max_activity_array_items, max_activity_string_bytes,
  normalize_reasoning_label, reasoning_labels, is_reasoning_key, is_known_secret_key, is_type_key,
  is_safe_reasoning_metadata_key, truncate_utf8, ActivitySanitization, stats_redacted,
  stats_truncated,
}

-- What a node gives, with the statistics behind it.
abbrev pub Node : Type 0 → Type 0
Node Number = Value Number × ActivitySanitization

abbrev pub counted : ActivitySanitization → ActivitySanitization
counted s = record s { fields = suc s.fields }

module _ {Number : Type 0} where
  -- `value.as_str().is_some_and(..)`
  abbrev pub names_reasoning : Value Number → Bool
  names_reasoning (string t) = one_of (normalize_reasoning_label t) reasoning_labels
  names_reasoning _ = false

  unfoldable pub object_is_reasoning : Fields Number → Bool
  object_is_reasoning end = false
  object_is_reasoning (field k v fs) =
      (is_type_key k && names_reasoning v) || object_is_reasoning fs

  abbrev pub redaction_marker : Text → Value Number
  redaction_marker reason =
      object (field (codes "reason") (string reason) (field (codes "redacted") (bool true) end))

  abbrev pub truncation_marker : Text → Value Number
  truncation_marker reason =
      object (field (codes "reason") (string reason) (field (codes "truncated") (bool true) end))

  abbrev pub is_true : Option (Value Number) → Bool
  is_true (some (bool b)) = b
  is_true _ = false

  abbrev pub upstream_marker : Fields Number → Option (Value Number)
  upstream_marker fs =
      if is_true (get_field (codes "redacted") fs)
      then some (redaction_marker (codes "upstream"))
      else if is_true (get_field (codes "truncated") fs)
      then some (truncation_marker (codes "upstream"))
      else none

  unfoldable pub explicit_activity_marker : Value Number → Option (Value Number)
  explicit_activity_marker (object fs) = upstream_marker fs
  explicit_activity_marker _ = none

  abbrev pub too_deep : ActivitySanitization → Node Number
  too_deep s = (truncation_marker (codes "maxDepth"), stats_truncated (codes "maxDepth") s)

  abbrev pub sanitize_string : Text → ActivitySanitization → Node Number
  sanitize_string t s = if leb (byte_len t) max_activity_string_bytes then (string t, s) else (
    string (truncate_utf8 t max_activity_string_bytes),
    stats_truncated (codes "maxStringBytes") s,
  )

  -- The statistics when an array's length is looked at.
  abbrev pub array_stats : Values Number → ActivitySanitization → ActivitySanitization
  array_stats vs s =
      if ltb max_activity_array_items (value_count vs)
      then stats_truncated (codes "maxArrayItems") s
      else s

  abbrev pub object_node : Option (Value Number) → ActivitySanitization → Node Number → Node Number
  object_node (some marker) s walked = (marker, s)
  object_node none s walked = walked

  -- The value that a field gets: `node` is its sanitized value.
  abbrev pub kept_value :
      Bool → Text → Option (Value Number) → ActivitySanitization → Node Number → Node Number
  kept_value reasoning key (some marker) s node = (marker, s)
  kept_value reasoning key none s node =
      if is_reasoning_key key || (reasoning && not (is_safe_reasoning_metadata_key key))
      then (redaction_marker (codes "rawReasoning"), stats_redacted (codes "rawReasoning") s)
      else node

  abbrev pub field_value :
      Bool → Text → Option (Value Number) → ActivitySanitization → Node Number → Node Number
  field_value reasoning key marker s node =
      if is_known_secret_key key
      then (redaction_marker (codes "knownSecret"), stats_redacted (codes "knownSecret") s)
      else kept_value reasoning key marker s node

unfoldable mutual
  pub sanitize_activity_node :
      {Number : Type 0}
      → Value Number
      → ℕ
      → ActivitySanitization
      → Bool
      → Value Number × ActivitySanitization
  sanitize_activity_node null depth s reasoning =
      if leb max_activity_depth depth then too_deep s else (null, s)
  sanitize_activity_node (bool b) depth s reasoning =
      if leb max_activity_depth depth then too_deep s else (bool b, s)
  sanitize_activity_node (number n) depth s reasoning =
      if leb max_activity_depth depth then too_deep s else (number n, s)
  sanitize_activity_node (string t) depth s reasoning =
      if leb max_activity_depth depth then too_deep s else sanitize_string t s
  sanitize_activity_node (array vs) depth s reasoning =
      let (items, after) =
        sanitize_items vs max_activity_array_items (suc depth) (array_stats vs s) in
      if leb max_activity_depth depth then too_deep s else (array items, after)
  sanitize_activity_node (object fs) depth s reasoning =
      let (fields, after) =
        sanitize_fields fs (suc depth) s (reasoning || object_is_reasoning fs) in
      if leb max_activity_depth depth
      then too_deep s
      else object_node (upstream_marker fs) s (object fields, after)

  -- `values.iter().take(retained).map(..)`
  pub sanitize_items :
      {Number : Type 0}
      → Values Number
      → ℕ
      → ℕ
      → ActivitySanitization
      → Values Number × ActivitySanitization
  sanitize_items nil retained depth s = (nil, s)
  sanitize_items (cons v vs) zero depth s = (nil, s)
  sanitize_items (cons v vs) (suc retained) depth s =
      let (item, after) = sanitize_activity_node v depth s false in
      let (items, last) = sanitize_items vs retained depth after in (cons item items, last)

  -- The loop over the entries of an object.
  pub sanitize_fields :
      {Number : Type 0}
      → Fields Number
      → ℕ
      → ActivitySanitization
      → Bool
      → Fields Number × ActivitySanitization
  sanitize_fields end depth s reasoning = (end, s)
  sanitize_fields (field key v fs) depth s reasoning =
      let node = sanitize_activity_node v depth (counted s) false in
      let (kept, after) = field_value reasoning key (explicit_activity_marker v) (counted s) node in
      let (rest, last) = sanitize_fields fs depth after reasoning in
      if leb max_activity_fields s.fields
      then (end, stats_truncated (codes "maxFields") s)
      else (field key kept rest, last)
