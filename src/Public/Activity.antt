-- ===== src/Public/Activity.antt =====
-- sync/public.rs: what the phone sees of Codex app-server activity. `params` is a JSON value; its
-- readers are serde_json's.
use portcode.Common.{
  ℕ, ◌+◌, ◌-◌, ◌^◌, min, Bool, true, false, not, ◌&&◌, ◌||◌, List, [], ◌∷◌, ◌++◌, map, ◌==◌,
  if◌then◌else◌, Option, none, some, ◌>>=◌, Text, codes, same, one_of, unwrap_or, take, filter_map,
}
use portcode.External.{External}
use portcode.Wire.{PhoneCodexActivityPayload, plan, diff, tool, terminal}
use portcode.Public.Labels.{unknown_label}

pub record PublicCodexActivityMetadata : Type 0 where
  pub redacted : Bool
  pub truncated : Bool
  pub redaction_reasons : List Text
  pub truncation_reasons : List Text
  pub original_bytes : Option ℕ
  pub retained_bytes : Option ℕ

abbrev pub activity_reasons : List Text
activity_reasons =
    codes "rawReasoning"
    ∷ codes "knownSecret"
    ∷ codes "nonScalarRequestId"
    ∷ codes "maxDepth"
    ∷ codes "maxFields"
    ∷ codes "maxArrayItems"
    ∷ codes "maxStringBytes"
    ∷ codes "maxEncodedBytes"
    ∷ codes "maxMethodBytes"
    ∷ []

abbrev pub status_is : Option Text → List Text → Bool
status_is none known = false
status_is (some s) known = one_of s known

unfoldable pub public_codex_status : Option Text → Text
unfolding same
public_codex_status value =
    if status_is value (codes "pending" ∷ [])
    then codes "pending"
    else if status_is value (codes "inProgress" ∷ [])
    then codes "inProgress"
    else if status_is value (codes "completed" ∷ [])
    then codes "completed"
    else if status_is value (codes "failed" ∷ codes "errored" ∷ codes "notFound" ∷ [])
    then codes "failed"
    else if status_is value
        (codes "interrupted" ∷ codes "cancelled" ∷ codes "canceled" ∷ codes "declined" ∷ [])
    then codes "interrupted"
    else unknown_label

abbrev pub item_types : List Text
item_types =
    codes "commandExecution"
    ∷ codes "fileChange"
    ∷ codes "mcpToolCall"
    ∷ codes "contextCompaction"
    ∷ codes "plan"
    ∷ codes "collabAgentToolCall"
    ∷ codes "subAgentActivity"
    ∷ []

unfoldable pub starts_with : Text → Text → Bool
starts_with t [] = true
starts_with [] (p ∷ ps) = false
starts_with (c ∷ cs) (p ∷ ps) = c == p && starts_with cs ps

-- A line that ended in a line feed loses one carriage return before it.
unfoldable pub strip_cr : Text → Text
strip_cr [] = []
strip_cr (c ∷ []) = if c == b'\r' then [] else c ∷ []
strip_cr (c ∷ d ∷ cs) = c ∷ strip_cr (d ∷ cs)

-- `str::lines`, with the line read so far.
unfoldable pub lines_from : Text → Text → List Text
unfolding strip_cr
lines_from [] [] = []
lines_from (c ∷ cs) [] = (c ∷ cs) ∷ []
lines_from line (c ∷ rest) =
    let ended = lines_from [] rest in
    let longer = lines_from (line ++ c ∷ []) rest in
    if c == b'\n' then strip_cr line ∷ ended else longer

pub record DiffCounts : Type 0 where
  pub additions : ℕ
  pub deletions : ℕ
  pub files : ℕ

-- `u32::saturating_add(1)`
unfoldable pub bump_u32 : ℕ → ℕ
bump_u32 n = min (n + 1) (2 ^ 32 - 1)

unfoldable pub count_line : DiffCounts → Text → DiffCounts
unfolding starts_with bump_u32
count_line n line =
    if starts_with line (codes "diff --git ")
    then record n { files = bump_u32 n.files }
    else if starts_with line (codes "+") && not (starts_with line (codes "+++"))
    then record n { additions = bump_u32 n.additions }
    else if starts_with line (codes "-") && not (starts_with line (codes "---"))
    then record n { deletions = bump_u32 n.deletions }
    else n

unfoldable pub count_lines : DiffCounts → List Text → DiffCounts
unfolding count_line
count_lines n [] = n
count_lines n (line ∷ rest) = count_lines (count_line n line) rest

module _ {Value : Type 0} (ext : External Value) where
  unfoldable pub public_activity_reasons : Option Value → Text → List Text
  unfolding same
  public_activity_reasons metadata key =
      let known = λ (v : Value). do
        reason ← ext.as_str v
        if one_of reason activity_reasons then some reason else none
      in filter_map known
        (unwrap_or (do m ← metadata; reasons ← ext.get m key; ext.as_array reasons) [])

  unfoldable pub codex_activity_metadata : Value → PublicCodexActivityMetadata
  unfolding public_activity_reasons
  codex_activity_metadata params =
      let metadata = ext.get params (codes "_portcodeActivity") in
      record {
        redacted =
            unwrap_or (do m ← metadata; v ← ext.get m (codes "redacted"); ext.as_bool v) false;
        truncated =
            unwrap_or (do m ← metadata; v ← ext.get m (codes "truncated"); ext.as_bool v) false;
        redaction_reasons = public_activity_reasons metadata (codes "redactionReasons");
        truncation_reasons = public_activity_reasons metadata (codes "truncationReasons");
        original_bytes = (do m ← metadata; v ← ext.get m (codes "originalBytes"); ext.as_u64 v);
        retained_bytes = (do m ← metadata; v ← ext.get m (codes "retainedBytes"); ext.as_u64 v);
      }

  unfoldable pub text_at : Value → Text → Option Text
  text_at value key = do v ← ext.get value key; ext.as_str v

  abbrev pub plan_payload : Value → Option PhoneCodexActivityPayload
  plan_payload params = do
    entries ← ext.get params (codes "plan")
    items ← ext.as_array entries
    some (
        plan (
          map (λ step. record { status = public_codex_status (text_at step (codes "status")) })
            (take 64 items)))

  abbrev pub diff_payload : Value → Option PhoneCodexActivityPayload
  diff_payload params = do
    text ← text_at params (codes "diff")
    let n =
        count_lines (record { additions = 0; deletions = 0; files = 0 })
          (take 100_000 (lines_from [] text))
    some (diff n.additions n.deletions n.files)

  abbrev pub tool_payload : Text → Value → Option PhoneCodexActivityPayload
  tool_payload method params = do
    item ← ext.get params (codes "item")
    let kind = text_at item (codes "type")
    let item_type = if status_is kind item_types then unwrap_or kind [] else unknown_label
    let status = public_codex_status (text_at item (codes "status"))
    some (
        tool item_type status (
          same method (codes "item/completed")
          || one_of status (codes "completed" ∷ codes "failed" ∷ codes "interrupted" ∷ [])))

  unfoldable pub public_codex_activity_payload : Text → Value → Option PhoneCodexActivityPayload
  unfolding public_codex_status text_at lines_from count_lines same
  public_codex_activity_payload method params =
      if same method (codes "turn/plan/updated")
      then plan_payload params
      else if same method (codes "turn/diff/updated")
      then diff_payload params
      else if one_of method (codes "item/started" ∷ codes "item/completed" ∷ [])
      then tool_payload method params
      else if same method (codes "turn/completed")
      then some (
          terminal (
            public_codex_status
              (do turn ← ext.get params (codes "turn"); text_at turn (codes "status"))))
      else none
