-- ===== src/External.antt =====
-- What the program takes from other crates, as an interface: regex (`replace_all`), sha2 (`sha256`)
-- and serde_json (the readers of a `Value`, and the length of an encoded frame). The records of laws
-- state the documented behaviour that the properties rely on.
use portcode.Common.{
  ℕ, ◌+◌, ◌≤◌, ◌<◌, ◌≡◌, Bool, true, false, List, [], Option, some, Text, Bytes, byte_len, length,
  all, All, not, ◌&&◌, ◌||◌, leb, ltb, ◌==◌,
}
use portcode.Wire.{SyncFrame, PhoneMessageRow, session_list, message_delta, message_page}

pub record External (Value : Type 0) : Type 0 where
  -- `Regex::new(pattern).replace_all(text, replacement)`
  pub replace_all : (pattern replacement text : Text) → Text
  -- `Sha256::digest(bytes)`
  pub sha256 : Bytes → Bytes
  -- `Value::Object(Default::default())`
  pub empty_object : Value
  -- `value.get(key)`, `as_array`, `as_str`, `as_bool`, `as_u64`
  pub get : Value → Text → Option Value
  pub as_array : Value → Option (List Value)
  pub as_str : Value → Option Text
  pub as_bool : Value → Option Bool
  pub as_u64 : Value → Option ℕ
  -- `Value::Number(n)` gives `n.to_string()`
  pub as_number_text : Value → Option Text
  -- `serde_json::to_vec(frame)`
  pub to_vec : SyncFrame Value → Option Bytes

-- A SHA-256 digest has 32 bytes.
pub record Sha256Laws {Value : Type 0} (ext : External Value) : Type 0 where
  pub sha256_length : (bytes : Bytes) → length (ext.sha256 bytes) ≡ 32
  pub sha256_bytes : (bytes : Bytes) → All (λ b. b < 256) (ext.sha256 bytes)

-- Each character of a replacement's result comes from the text or from the template.
pub record RegexLaws {Value : Type 0} (ext : External Value) : Type 0 where
  pub replace_all_chars :
      (p : ℕ → Bool) (pattern replacement text : Text)
      → all p replacement ≡ true
      → all p text ≡ true
      → all p (ext.replace_all pattern replacement text) ≡ true

-- The frame is encoded, in at most `n` bytes.
abbrev pub EncodesWithin : {Value : Type 0} → External Value → SyncFrame Value → ℕ → Type 0
EncodesWithin ext frame n = (bytes : Bytes) × (ext.to_vec frame ≡ some bytes) × (length bytes ≤ n)

-- A character that a JSON string holds as it is, in one byte.
unfoldable pub is_plain : ℕ → Bool
is_plain c = leb 0x20 c && ltb c 0x7f && not (c == 0x22 || c == 0x5c)

-- The sizes of frames with no rows; and `true` is not longer than `false`.
pub record JsonLaws {Value : Type 0} (ext : External Value) : Type 0 where
  pub session_list_empty : EncodesWithin ext (session_list []) 64
  pub message_delta_empty :
      (id : Text)
      → all is_plain id ≡ true
      → EncodesWithin ext (message_delta id []) (64 + byte_len id)
  pub message_page_empty :
      (id : Text)
      → all is_plain id ≡ true
      → EncodesWithin ext (message_page id [] false) (80 + byte_len id)
  pub message_page_flag :
      (id : Text) (rows : List (PhoneMessageRow Value)) (n : ℕ)
      → EncodesWithin ext (message_page id rows false) n
      → EncodesWithin ext (message_page id rows true) n
