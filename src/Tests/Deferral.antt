-- ===== src/Tests/Deferral.antt =====
-- The properties of deferred and sanitized events at concrete inputs.
use portcode.Common.{
  ℕ, ◌≡◌, refl, true, false, [], ◌∷◌, some, arith, Text, codes, same, length, ◌+◌,
}
use portcode.Public.{is_ascii_alphanumeric}
use portcode.Codex.{
  DeferredEvent, DeferredQueue, DeferredMap, deferred_total_bytes, enqueue, defer, Value, null,
  bool, number, string, array, object, Values, nil, cons, Fields, end, field, is_known_secret_key,
  normalize_reasoning_label, encoded_json_len, JsonCodec, default_stats, sanitize_activity_node,
  sanitize_activity_params,
}
use portcode.Codex.Room.{IsBounded}
use portcode.Codex.Enqueue.{Enqueued, enqueue-Enqueued}
use portcode.Codex.Bounds.{Deferred, defer-IsBoundedMap}
use portcode.Codex.Secrets.{erase_secrets}
use portcode.Codex.Redaction.{sanitize_activity_params-erase_secrets}
use portcode.Codex.Shape.{IsShaped}
use portcode.Codex.Walk.{sanitize_activity_node-IsShaped}

abbrev output : DeferredEvent ℕ
output = record { incoming = 1; encoded_bytes = 524_000; terminal = false }

abbrev completed : DeferredEvent ℕ
completed = record { incoming = 2; encoded_bytes = 200; terminal = true }

abbrev closed : DeferredEvent ℕ
closed = record { incoming = 3; encoded_bytes = 300; terminal = true }

abbrev waiting : DeferredQueue ℕ
waiting = record { events = completed ∷ output ∷ []; encoded_bytes = 524_200 }

abbrev behind : DeferredQueue ℕ
behind = record { events = completed ∷ closed ∷ []; encoded_bytes = 500 }

waiting-IsBounded : IsBounded waiting
waiting-IsBounded = record { counted = refl; few = omega arith; small = omega arith }

enqueue-Enqueued_example : Enqueued (enqueue closed waiting) closed waiting
enqueue-Enqueued_example = enqueue-Enqueued closed waiting waiting-IsBounded (omega arith)

abbrev waiting_map : DeferredMap ℕ
waiting_map = (codes "thread", waiting) ∷ []

defer-IsBoundedMap_example : Deferred (defer (codes "other") closed waiting_map)
unfolding deferred_total_bytes
defer-IsBoundedMap_example =
    defer-IsBoundedMap (codes "other") closed waiting_map
      (record { queues = (waiting-IsBounded, tt); threads = omega arith; total = omega arith })

abbrev login_with : Text → Value ℕ
login_with key =
    object (field (codes "apiKey") (string key) (field (codes "id") (string (codes "7")) end))

abbrev login : Value ℕ
login = login_with (codes "sk-1")

-- The length of compact JSON, for numbers of one digit and strings without escapes.
unfoldable mutual
  json_len : Value ℕ → ℕ
  json_len null = 4
  json_len (bool true) = 4
  json_len (bool false) = 5
  json_len (number n) = 1
  json_len (string t) = 2 + length t
  json_len (array nil) = 2
  json_len (array (cons v vs)) = 2 + json_len v + items_len vs
  json_len (object end) = 2
  json_len (object (field k v fs)) = 5 + length k + json_len v + fields_len fs

  items_len : Values ℕ → ℕ
  items_len nil = 0
  items_len (cons v vs) = 1 + json_len v + items_len vs

  fields_len : Fields ℕ → ℕ
  fields_len end = 0
  fields_len (field k v fs) = 4 + length k + json_len v + fields_len fs

abbrev codec : JsonCodec ℕ
codec = record { to_writer = λ v. some (json_len v); from_usize = λ n. n }

login_len : encoded_json_len codec login ≡ 26
unfolding json_len
login_len = refl

sanitize_activity_params-erase_secrets_example :
    sanitize_activity_params codec (codes "item/started") (login_with (codes "sk-1"))
    ≡ sanitize_activity_params codec (codes "item/started") (login_with (codes "xy-2"))
unfolding erase_secrets is_known_secret_key normalize_reasoning_label same is_ascii_alphanumeric
    json_len
sanitize_activity_params-erase_secrets_example =
    sanitize_activity_params-erase_secrets codec (codes "item/started") (login_with (codes "sk-1"))
      (login_with (codes "xy-2")) refl refl

sanitize_activity_node-IsShaped_example :
    IsShaped 17 (sanitize_activity_node login 0 default_stats false).0
sanitize_activity_node-IsShaped_example = sanitize_activity_node-IsShaped login false
