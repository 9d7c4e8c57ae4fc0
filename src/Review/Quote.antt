-- ===== src/Review/Quote.antt =====
-- git_review.rs: the headers of the patch that is made up for an untracked file, and the test for binary
-- patches.
use portcode.Common.{
  ℕ, ◌+◌, ◌/◌, ◌%◌, Bool, false, ◌&&◌, ◌||◌, [], ◌∷◌, ◌++◌, if◌then◌else◌, ◌==◌, any, Text, Bytes,
  codes, encode_utf8, same,
}
use portcode.Public.{starts_with, is_control}
use portcode.Review.Text.{split}

abbrev pub is_line_separator : ℕ → Bool
is_line_separator c = c == 0x2028 || c == 0x2029

-- A character that makes the path quoted.
unfoldable pub needs_quotes : ℕ → Bool
needs_quotes c = c == b'"' || c == b'\\' || is_control c || is_line_separator c

-- `\{byte:03o}` for each byte
abbrev pub octal_bytes : Bytes → Text
octal_bytes [] = []
octal_bytes (b ∷ bs) =
    b'\\' ∷ (b'0' + b / 64) ∷ (b'0' + b / 8 % 8) ∷ (b'0' + b % 8) ∷ octal_bytes bs

unfoldable pub quote_char : ℕ → Text
quote_char c =
    if c == b'"'
    then codes "\\\""
    else if c == b'\\'
    then codes "\\\\"
    else if c == b'\n'
    then codes "\\n"
    else if c == b'\r'
    then codes "\\r"
    else if c == b'\t'
    then codes "\\t"
    else if is_control c || is_line_separator c
    then octal_bytes (encode_utf8 c)
    else c ∷ []

unfoldable pub quote_chars : Text → Text
quote_chars [] = []
quote_chars (c ∷ cs) = quote_char c ++ quote_chars cs

unfoldable pub quote_patch_header_path : Text → Text → Text
quote_patch_header_path prefix path =
    let raw = prefix ++ path in
    if any needs_quotes raw then b'"' ∷ quote_chars raw ++ (b'"' ∷ []) else raw

unfoldable pub synthetic_untracked_patch_headers : Text → Text
synthetic_untracked_patch_headers path =
    let old_path = quote_patch_header_path (codes "a/") path in
    let new_path = quote_patch_header_path (codes "b/") path in
    codes "diff --git "
    ++ old_path
    ++ codes " "
    ++ new_path
    ++ codes "\nnew file mode 100644\n--- /dev/null\n+++ "
    ++ new_path
    ++ codes "\n"

-- `strip_suffix(b"\r")`
abbrev pub strip_return : Bytes → Bytes
strip_return [] = []
strip_return (b ∷ []) = if b == b'\r' then [] else b ∷ []
strip_return (b ∷ c ∷ bs) = b ∷ strip_return (c ∷ bs)

abbrev pub ends_with_bytes : Bytes → Bytes → Bool
ends_with_bytes bs suffix = same bs suffix || later bs
  where
    later : Bytes → Bool
    later [] = false
    later (c ∷ cs) = same cs suffix || later cs

unfoldable pub patch_has_binary_marker : Bytes → Bool
patch_has_binary_marker patch =
    any
      (λ raw.
        let line = strip_return raw in
        same line (codes "GIT binary patch")
        || (starts_with line (codes "Binary files ") && ends_with_bytes line (codes " differ")))
      (split b'\n' patch)
