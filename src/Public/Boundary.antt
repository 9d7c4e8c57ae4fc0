-- ===== src/Public/Boundary.antt =====
-- sync/public.rs: where the live projector may cut a run of text deltas.
use portcode.Common.{
  ℕ, ◌+◌, ◌-◌, ◌*◌, min, Bool, false, not, ◌&&◌, ◌||◌, List, [], ◌∷◌, ◌++◌, map, ltb, leb, ◌==◌,
  if◌then◌else◌, Option, none, some, Text, codes, same, len_utf8, byte_len, length, all, drop,
  floor_boundary,
}
use portcode.Public.Bounded.{within, is_empty}
use portcode.Public.Labels.{is_whitespace}
use portcode.Public.Activity.{starts_with}

abbrev pub text_emit_target_bytes : ℕ
text_emit_target_bytes = 2 * 1024

abbrev pub text_raw_holdback_bytes : ℕ
text_raw_holdback_bytes = 1024

unfoldable pub trim_end : Text → Text
trim_end [] = []
trim_end (c ∷ cs) =
    let rest = trim_end cs in if is_empty rest && is_whitespace c then [] else c ∷ rest

abbrev ascii_lower : ℕ → ℕ
ascii_lower c = if within b'A' b'Z' c then c + 32 else c

unfoldable pub ends_with : Text → Text → Bool
ends_with [] suffix = is_empty suffix
ends_with (c ∷ cs) suffix = same (c ∷ cs) suffix || ends_with cs suffix

-- What follows the last occurrence (`rfind`) of a name that is not empty.
unfoldable pub after_last : Text → Text → Option Text
after_last name [] = none
after_last name (c ∷ cs) = elim (after_last name cs) [
  | some r ↦ some r
  | none ↦ if starts_with (c ∷ cs) name then some (drop (length name) (c ∷ cs)) else none
]

abbrev is_separator : ℕ → Bool
is_separator c =
    c == b' '
    || c == b'\t'
    || c == b'\n'
    || c == 0x0c
    || c == b'\r'
    || c == b':'
    || c == b'='
    || c == 39
    || c == 34

abbrev credential_names : List Text
credential_names =
    codes "authorization"
    ∷ codes "x-api-key"
    ∷ codes "api-key"
    ∷ codes "api_key"
    ∷ codes "apikey"
    ∷ codes "chatgpt-account-id"
    ∷ []

-- The loop over the names: a name is the last thing of the text but for separators.
unfoldable pub ends_in_name : Text → List Text → Bool
ends_in_name tail [] = false
ends_in_name tail (name ∷ names) = elim (after_last name tail) [
  | none ↦ ends_in_name tail names
  | some suffix ↦ all is_separator suffix || ends_in_name tail names
]

unfoldable pub sensitive_prefix_before_space : Text → Bool
unfolding trim_end ends_with ends_in_name after_last same starts_with is_whitespace
sensitive_prefix_before_space prefix =
    let tail = map ascii_lower (trim_end prefix) in
    ends_with tail (codes "bearer") || ends_in_name tail credential_names

abbrev pub next_is_line_feed : Text → Bool
next_is_line_feed [] = false
next_is_line_feed (c ∷ cs) = c == b'\n'

-- May the text be cut behind `c`, which stands between `before` and `after`?
unfoldable pub is_safe_cut : Text → ℕ → Text → Bool
is_safe_cut before c after =
    not (ltb c 0x80)
    || is_whitespace c
      && not (c == b'\r' && next_is_line_feed after)
      && not (sensitive_prefix_before_space before)

-- The scan of `char_indices`: the text before, its bytes, and the last safe cut so far.
unfoldable pub scan_boundary : ℕ → Text → ℕ → Option ℕ → Text → Option ℕ
scan_boundary max_end before index boundary [] = boundary
scan_boundary max_end before index boundary (c ∷ cs) =
    let end = index + len_utf8 c in
    let found = if is_safe_cut before c cs then some end else boundary in
    let rest = scan_boundary max_end (before ++ c ∷ []) end found cs in
    if ltb max_end end then boundary else rest

unfoldable pub stream_boundary : Text → Option ℕ
unfolding scan_boundary
stream_boundary raw =
    let max_end =
      floor_boundary raw (min text_emit_target_bytes (byte_len raw - text_raw_holdback_bytes)) in
    if leb (byte_len raw) (text_emit_target_bytes + text_raw_holdback_bytes)
    then none
    else scan_boundary max_end [] 0 none raw
