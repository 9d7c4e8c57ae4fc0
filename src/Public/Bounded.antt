-- ===== src/Public/Bounded.antt =====
-- sync/public.rs: bounded public text and public identifiers.
use portcode.Common.{
  ℕ, ◌+◌, ◌-◌, ◌/◌, ◌%◌, Bool, true, false, not, ◌&&◌, ◌||◌, [], ◌∷◌, ◌++◌, leb, ltb, ◌==◌,
  if◌then◌else◌, Option, none, some, Text, Bytes, codes, same, len_utf8, byte_len, utf8, all, take,
  option_map,
}
use portcode.External.{External}
use portcode.Scrub.{redact_secrets_bounded}

abbrev pub max_remote_identifier_bytes : ℕ
max_remote_identifier_bytes = 128

abbrev pub within : ℕ → ℕ → ℕ → Bool
within lo hi c = leb lo c && leb c hi

-- `is_ascii_alphanumeric` of a byte or a char.
unfoldable pub is_ascii_alphanumeric : ℕ → Bool
is_ascii_alphanumeric c = within b'a' b'z' c || within b'A' b'Z' c || within b'0' b'9' c

unfoldable pub is_identifier_byte : ℕ → Bool
unfolding is_ascii_alphanumeric
is_identifier_byte b = is_ascii_alphanumeric b || b == b'-' || b == b'_' || b == b'.'

abbrev pub is_empty : Text → Bool
is_empty [] = true
is_empty (c ∷ cs) = false

unfoldable pub valid_remote_identifier : Text → Bool
unfolding is_identifier_byte
valid_remote_identifier value =
    not (is_empty value)
    && leb (byte_len value) max_remote_identifier_bytes
    && all is_identifier_byte (utf8 value)

-- `char::is_control`: the general category Cc.
unfoldable pub is_control : ℕ → Bool
is_control c = ltb c 0x20 || within 0x7f 0x9f c

-- The character that the loop of `bounded_public_text` pushes for one that it reads.
unfoldable pub public_char : ℕ → ℕ
unfolding is_control
public_char c =
    if c == b'\r'
    then b'\n'
    else if c == b'\n' || c == b'\t'
    then c
    else if is_control c
    then b' '
    else c

-- The loop of `bounded_public_text`, with the output so far. A line feed behind a carriage return
-- is taken with it.
unfoldable pub copy_public : ℕ → Text → Text → Text
unfolding public_char
copy_public max_bytes output [] = output
copy_public max_bytes output (c ∷ []) =
    if ltb max_bytes (byte_len output + len_utf8 (public_char c))
    then output
    else output ++ public_char c ∷ []
copy_public max_bytes output (c ∷ d ∷ rest) =
    let joined = copy_public max_bytes (output ++ public_char c ∷ []) rest in
    let plain = copy_public max_bytes (output ++ public_char c ∷ []) (d ∷ rest) in
    if ltb max_bytes (byte_len output + len_utf8 (public_char c))
    then output
    else if c == b'\r' && d == b'\n'
    then joined
    else plain

-- `format!("{byte:02x}")`
unfoldable pub hex_digit : ℕ → ℕ
hex_digit n = if ltb n 10 then b'0' + n else b'a' + (n - 10)

abbrev pub hex_bytes : Bytes → Text
hex_bytes [] = []
hex_bytes (b ∷ bs) = hex_digit (b / 16) ∷ hex_digit (b % 16) ∷ hex_bytes bs

module _ {Value : Type 0} (ext : External Value) where
  unfoldable pub bounded_public_text : Text → ℕ → Text
  unfolding redact_secrets_bounded copy_public
  bounded_public_text value max_bytes =
      copy_public max_bytes [] (redact_secrets_bounded ext value max_bytes)

  -- A prefix and the first bytes of the SHA-256 digest in hexadecimal.
  abbrev pub digest_label : Text → ℕ → Text → Text
  digest_label prefix n value = prefix ++ hex_bytes (take n (ext.sha256 (utf8 value)))

  unfoldable pub public_identifier : Text → Text
  unfolding valid_remote_identifier redact_secrets_bounded same
  public_identifier value =
      if valid_remote_identifier value
        && same (redact_secrets_bounded ext value max_remote_identifier_bytes) value
      then value
      else digest_label (codes "id-") 16 value

  unfoldable pub public_tool_id : Text → Text
  public_tool_id value = digest_label (codes "tool-") 16 value

  unfoldable pub public_codex_method : Text → Text
  unfolding bounded_public_text same is_ascii_alphanumeric
  public_codex_method value =
      let bounded = bounded_public_text value 128 in
      if same bounded value
        && not (is_empty bounded)
        && all (λ c. is_ascii_alphanumeric c || c == b'/' || c == b'.' || c == b'_' || c == b'-')
            bounded
      then bounded
      else digest_label (codes "redacted-method-") 12 value

  unfoldable pub public_codex_request_id : Value → Option Text
  unfolding public_identifier
  public_codex_request_id value = elim (ext.as_str value) [
    | some s ↦ some (public_identifier s)
    | none ↦ option_map public_identifier (ext.as_number_text value)
  ]
