-- ===== src/Review/Patch.antt =====
-- git_review.rs: `parse_unified_patch`, which reads the hunks of a two-way diff.
use portcode.Common.{
  ℕ, ◌+◌, Bool, true, false, List, [], ◌∷◌, ◌++◌, Option, none, some, ◌>>=◌, unwrap_or,
  if◌then◌else◌, leb, saturating_add, Text, codes, Result, ok, err,
}
use portcode.Public.{starts_with, lines_from}
use portcode.Hub.{strip_prefix}
use portcode.Review.Types.{
  GitDiffLineKind, context, addition, deletion, meta, GitDiffLine, GitDiffHunk,
}
use portcode.Review.Text.{split_once, parse_u64}

abbrev pub max_diff_lines : ℕ
max_diff_lines = 4_000

abbrev pub combined_diff_error : Text
combined_diff_error =
    codes "Combined merge diffs are not supported. Review the merge as a branch diff instead."

unfoldable pub parse_range : Text → Option (ℕ × ℕ)
parse_range range =
    let (start, lines) = unwrap_or (split_once (codes ",") range) (range, codes "1") in
    do s ← parse_u64 start; n ← parse_u64 lines; some (s, n)

pub record HunkHeader : Type 0 where
  pub old_start : ℕ
  pub old_lines : ℕ
  pub new_start : ℕ
  pub new_lines : ℕ

unfoldable pub parse_hunk_header : Text → Option HunkHeader
parse_hunk_header header = do
  body ← strip_prefix (codes "@@ -") header
  (old, remainder) ← split_once (codes " +") body
  (new, _) ← split_once (codes " @@") remainder
  (old_start, old_lines) ← parse_range old
  (new_start, new_lines) ← parse_range new
  some (record {
    old_start = old_start;
    old_lines = old_lines;
    new_start = new_start;
    new_lines = new_lines;
  })

-- The variables of the loop.
pub record PatchState : Type 0 where
  pub hunks : List GitDiffHunk
  pub current : Option GitDiffHunk
  pub old_line : ℕ
  pub new_line : ℕ
  pub rendered : ℕ
  pub truncated : Bool

abbrev pub start_state : PatchState
start_state = record {
  hunks = [];
  current = none;
  old_line = 0;
  new_line = 0;
  rendered = 0;
  truncated = false;
}

abbrev pub with_current : Option GitDiffHunk → List GitDiffHunk → List GitDiffHunk
with_current none hunks = hunks
with_current (some hunk) hunks = hunks ++ (hunk ∷ [])

-- `current.take()`, and the header's hunk; a header that cannot be read opens none.
unfoldable pub open_hunk : Text → PatchState → PatchState
open_hunk raw s = elim (parse_hunk_header raw) [
  | none ↦ record s { hunks = with_current s.current s.hunks; current = none }
  | some h ↦ record s {
    hunks = with_current s.current s.hunks;
    current = some (record {
      header = raw;
      old_start = h.old_start;
      old_lines = h.old_lines;
      new_start = h.new_start;
      new_lines = h.new_lines;
      lines = [];
    });
    old_line = h.old_start;
    new_line = h.new_start;
  }
]

abbrev pub diff_line : GitDiffLineKind → Text → Option ℕ → Option ℕ → GitDiffLine
diff_line kind content old new = record {
  kind = kind;
  content = content;
  old_line = old;
  new_line = new;
}

-- A line's kind, content and numbers, from the numbers of the next lines.
unfoldable pub read_line : Text → ℕ → ℕ → GitDiffLine
read_line raw old new = elim (strip_prefix (codes "+") raw) [
  | some content ↦ diff_line addition content none (some new)
  | none ↦ elim (strip_prefix (codes "-") raw) [
    | some content ↦ diff_line deletion content (some old) none
    | none ↦ elim (strip_prefix (codes " ") raw) [
      | some content ↦ diff_line context content (some old) (some new)
      | none ↦ diff_line meta raw none none
    ]
  ]
]

-- The numbers of the next lines behind a line.
abbrev pub next_old : GitDiffLineKind → ℕ → ℕ
next_old context old = saturating_add old 1
next_old addition old = old
next_old deletion old = saturating_add old 1
next_old meta old = old

abbrev pub next_new : GitDiffLineKind → ℕ → ℕ
next_new context new = saturating_add new 1
next_new addition new = saturating_add new 1
next_new deletion new = new
next_new meta new = new

unfoldable pub push_line : Text → GitDiffHunk → PatchState → PatchState
push_line raw hunk s =
    if leb max_diff_lines s.rendered
    then record s { truncated = true }
    else (let line = read_line raw s.old_line s.new_line in
        record s {
          current = some (record hunk { lines = hunk.lines ++ (line ∷ []) });
          old_line = next_old line.kind s.old_line;
          new_line = next_new line.kind s.new_line;
          rendered = s.rendered + 1;
        })

unfoldable pub patch_line : Text → PatchState → PatchState
patch_line raw s =
    if starts_with raw (codes "@@ ")
    then open_hunk raw s
    else elim s.current [ none ↦ s | some hunk ↦ push_line raw hunk s ]

unfoldable pub patch_lines : List Text → PatchState → Result Text PatchState
patch_lines [] s = ok s
patch_lines (raw ∷ raws) s =
    let rest = patch_lines raws (patch_line raw s) in
    if starts_with raw (codes "@@@ ") then err combined_diff_error else rest

abbrev pub finish_patch : Result Text PatchState → Result Text (List GitDiffHunk × Bool)
finish_patch (ok s) = ok (with_current s.current s.hunks, s.truncated)
finish_patch (err e) = err e

unfoldable pub parse_unified_patch : Text → Result Text (List GitDiffHunk × Bool)
parse_unified_patch patch = finish_patch (patch_lines (lines_from [] patch) start_state)
