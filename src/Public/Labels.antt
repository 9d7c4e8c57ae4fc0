-- ===== src/Public/Labels.antt =====
-- sync/public.rs: the closed vocabularies and path labels of the public types.
use portcode.Common.{
  ℕ, Bool, ◌||◌, List, [], ◌∷◌, ◌++◌, ◌==◌, if◌then◌else◌, Option, none, some, Text, codes, same,
  one_of, any, all, unwrap_or,
}
use portcode.External.{External}
use portcode.Tools.{canonical, canonical_names}
use portcode.Public.Bounded.{within, is_empty, bounded_public_text}

abbrev pub unknown_label : Text
unknown_label = codes "unknown"

-- The eight canonical names pass, in the match of `public_tool_name`.
unfoldable pub public_tool_name : Text → Text
unfolding canonical same
public_tool_name value =
    let name = canonical value in if one_of name canonical_names then name else codes "unknown_tool"

abbrev keep_or_unknown : List Text → Text → Text
keep_or_unknown known value = if one_of value known then value else unknown_label

unfoldable pub public_stop_reason : Text → Text
unfolding same
public_stop_reason value =
    keep_or_unknown
      (codes "end_turn"
        ∷ codes "tool_use"
        ∷ codes "max_tokens"
        ∷ codes "cancelled"
        ∷ codes "error"
        ∷ codes "interrupted"
        ∷ [])
      value

unfoldable pub public_agent_status : Text → Text
unfolding same
public_agent_status value =
    keep_or_unknown (codes "ok" ∷ codes "cancelled" ∷ codes "error" ∷ []) value

unfoldable pub public_agent_provider_status : Text → Text
unfolding same
public_agent_provider_status value =
    keep_or_unknown
      (codes "pendingInit"
        ∷ codes "running"
        ∷ codes "interrupted"
        ∷ codes "completed"
        ∷ codes "errored"
        ∷ codes "shutdown"
        ∷ codes "notFound"
        ∷ codes "failed"
        ∷ [])
      value

unfoldable pub static_tool_result : Bool → Text
static_tool_result is_error = if is_error then codes "Tool failed." else codes "Tool completed."

-- `value.split(['/', '\\'])`, with the component read so far.
unfoldable pub split_path : Text → Text → List Text
split_path component [] = component ∷ []
split_path component (c ∷ cs) =
    let next = split_path [] cs in
    let longer = split_path (component ++ c ∷ []) cs in
    if c == b'/' || c == b'\\' then component ∷ next else longer

-- `.rev().find(|component| !component.is_empty())`
unfoldable pub last_nonempty : List Text → Option Text
last_nonempty [] = none
last_nonempty (p ∷ ps) = elim (last_nonempty ps) [
  | some q ↦ some q
  | none ↦ if is_empty p then none else some p
]

-- `char::is_whitespace`: the property White_Space.
unfoldable pub is_whitespace : ℕ → Bool
is_whitespace c =
    within 0x09 0x0d c
    || c == 0x20
    || c == 0x85
    || c == 0xa0
    || c == 0x1680
    || within 0x2000 0x200a c
    || c == 0x2028
    || c == 0x2029
    || c == 0x202f
    || c == 0x205f
    || c == 0x3000

-- The component of `safe_label`: the last one that is not empty, unless it is dotted or has a colon.
unfoldable pub label_leaf : Text → Text → Text
label_leaf value fallback =
    let component = unwrap_or (last_nonempty (split_path [] value)) fallback in
    let dotted = one_of component (codes "." ∷ codes ".." ∷ []) in
    if dotted || any (λ c. c == b':') component then fallback else component

module _ {Value : Type 0} (ext : External Value) where
  unfoldable pub safe_label : Text → Text → ℕ → Text
  safe_label value fallback max_bytes =
      let label = bounded_public_text ext (label_leaf value fallback) max_bytes in
      if all is_whitespace label then fallback else label
