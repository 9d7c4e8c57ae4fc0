-- ===== src/Codex/Sanitize.antt =====
-- codex_engine.rs: what an event of the app-server keeps of its parameters. Secrets and raw reasoning
-- are replaced by markers; strings, arrays, objects and the nesting are bounded.
use portcode.Common.{
  ℕ, ◌*◌, ◌+◌, Bool, true, false, ◌||◌, List, [], ◌∷◌, if◌then◌else◌, leb, Text, codes, same,
  one_of, byte_len, floor_boundary, slice_to,
}
use portcode.Public.{is_ascii_alphanumeric, starts_with, within}
use portcode.Codex.Json.{precedes}

abbrev pub activity_metadata_key : Text
activity_metadata_key = codes "_portcodeActivity"

abbrev pub max_activity_param_bytes : ℕ
max_activity_param_bytes = 64 * 1024

abbrev pub max_activity_depth : ℕ
max_activity_depth = 16

abbrev pub max_activity_fields : ℕ
max_activity_fields = 256

abbrev pub max_activity_array_items : ℕ
max_activity_array_items = 256

abbrev pub max_activity_string_bytes : ℕ
max_activity_string_bytes = 16 * 1024

-- `to_ascii_lowercase`
abbrev pub to_ascii_lowercase : ℕ → ℕ
to_ascii_lowercase c = if within b'A' b'Z' c then c + 32 else c

unfoldable pub normalize_reasoning_label : Text → Text
normalize_reasoning_label [] = []
normalize_reasoning_label (c ∷ cs) =
    let rest = normalize_reasoning_label cs in
    if is_ascii_alphanumeric c then to_ascii_lowercase c ∷ rest else rest

abbrev pub raw_reasoning_methods : List Text
raw_reasoning_methods =
    codes "reasoningtext"
    ∷ codes "reasoningtextdelta"
    ∷ codes "itemreasoningtextdelta"
    ∷ codes "chainofthoughttext"
    ∷ codes "chainofthoughttextdelta"
    ∷ codes "internalreasoningtext"
    ∷ codes "internalreasoningtextdelta"
    ∷ codes "modelreasoningtext"
    ∷ codes "modelreasoningtextdelta"
    ∷ codes "rawreasoningtext"
    ∷ codes "rawreasoningtextdelta"
    ∷ []

unfoldable pub is_raw_reasoning_method : Text → Bool
is_raw_reasoning_method method =
    let normalized = normalize_reasoning_label method in
    one_of normalized raw_reasoning_methods
    || starts_with normalized (codes "rawresponse")
    || starts_with normalized (codes "rawresponseitem")

abbrev pub reasoning_labels : List Text
reasoning_labels =
    codes "reasoning"
    ∷ codes "reasoningtext"
    ∷ codes "rawreasoning"
    ∷ codes "rawreasoningtext"
    ∷ codes "chainofthought"
    ∷ codes "chainofthoughttext"
    ∷ codes "internalreasoning"
    ∷ codes "internalreasoningtext"
    ∷ codes "modelreasoning"
    ∷ codes "modelreasoningtext"
    ∷ []

unfoldable pub is_reasoning_key : Text → Bool
is_reasoning_key key = one_of (normalize_reasoning_label key) reasoning_labels

abbrev pub secret_labels : List Text
secret_labels =
    codes "apikey"
    ∷ codes "xapikey"
    ∷ codes "password"
    ∷ codes "passwd"
    ∷ codes "passphrase"
    ∷ codes "authorization"
    ∷ codes "proxyauthorization"
    ∷ codes "credential"
    ∷ codes "credentials"
    ∷ codes "secret"
    ∷ codes "clientsecret"
    ∷ codes "apisecret"
    ∷ codes "accesstoken"
    ∷ codes "refreshtoken"
    ∷ codes "idtoken"
    ∷ codes "token"
    ∷ codes "authtoken"
    ∷ codes "bearertoken"
    ∷ codes "sessiontoken"
    ∷ codes "privatekey"
    ∷ codes "cookie"
    ∷ codes "setcookie"
    ∷ codes "bearer"
    ∷ codes "auth"
    ∷ codes "authentication"
    ∷ []

unfoldable pub is_known_secret_key : Text → Bool
is_known_secret_key key = one_of (normalize_reasoning_label key) secret_labels

abbrev pub is_type_key : Text → Bool
is_type_key key = one_of (normalize_reasoning_label key) (codes "type" ∷ codes "kind" ∷ [])

abbrev pub safe_metadata_labels : List Text
safe_metadata_labels =
    codes "id"
    ∷ codes "type"
    ∷ codes "kind"
    ∷ codes "status"
    ∷ codes "summary"
    ∷ codes "threadid"
    ∷ codes "turnid"
    ∷ codes "itemid"
    ∷ codes "requestid"
    ∷ codes "contentindex"
    ∷ codes "startedat"
    ∷ codes "startedatms"
    ∷ codes "completedat"
    ∷ codes "completedatms"
    ∷ codes "durationms"
    ∷ []

unfoldable pub is_safe_reasoning_metadata_key : Text → Bool
is_safe_reasoning_metadata_key key = one_of (normalize_reasoning_label key) safe_metadata_labels

unfoldable pub truncate_utf8 : Text → ℕ → Text
truncate_utf8 value max_bytes =
    if leb (byte_len value) max_bytes
    then value
    else slice_to value (floor_boundary value max_bytes)

-- A `HashSet` of reasons, kept in the order in which it is sorted before use.
unfoldable pub insert_reason : Text → List Text → List Text
insert_reason r [] = r ∷ []
insert_reason r (s ∷ ss) =
    let rest = insert_reason r ss in
    if same r s then s ∷ ss else if precedes r s then r ∷ s ∷ ss else s ∷ rest

pub record ActivitySanitization : Type 0 where
  pub redacted : Bool
  pub truncated : Bool
  pub redaction_reasons : List Text
  pub truncation_reasons : List Text
  pub fields : ℕ

abbrev pub default_stats : ActivitySanitization
default_stats = record {
  redacted = false;
  truncated = false;
  redaction_reasons = [];
  truncation_reasons = [];
  fields = 0;
}

abbrev pub stats_redacted : Text → ActivitySanitization → ActivitySanitization
stats_redacted reason s = record s {
  redacted = true;
  redaction_reasons = insert_reason reason s.redaction_reasons;
}

abbrev pub stats_truncated : Text → ActivitySanitization → ActivitySanitization
stats_truncated reason s = record s {
  truncated = true;
  truncation_reasons = insert_reason reason s.truncation_reasons;
}
