-- ===== src/Review/Types.antt =====
-- git_review.rs: the types of a review.
use portcode.Common.{
  ℕ, Bool, ◌||◌, not, List, [], ◌∷◌, ◌++◌, Option, none, some, is_some, unwrap_or, if◌then◌else◌,
  option_map, saturating_add, take, Text, Bytes, codes, utf8,
}
use portcode.Hub.{strip_prefix}

pub data GitReviewScope : Type 0 where
  working_tree : GitReviewScope
  staged : GitReviewScope
  unstaged : GitReviewScope
  branch : (base : Text) → GitReviewScope
  commit : (revision : Text) → GitReviewScope

pub data GitChangeArea : Type 0 where
  staged : GitChangeArea
  unstaged : GitChangeArea
  untracked : GitChangeArea
  committed : GitChangeArea

pub data GitChangeStatus : Type 0 where
  added : GitChangeStatus
  modified : GitChangeStatus
  deleted : GitChangeStatus
  renamed : GitChangeStatus
  copied : GitChangeStatus
  unmerged : GitChangeStatus

pub data GitReviewBranchKind : Type 0 where
  local : GitReviewBranchKind
  remote : GitReviewBranchKind

pub record GitReviewBranch : Type 0 where
  pub name : Text
  pub revision : Text
  pub kind : GitReviewBranchKind
  pub current : Bool

pub data GitDiffLineKind : Type 0 where
  context : GitDiffLineKind
  addition : GitDiffLineKind
  deletion : GitDiffLineKind
  meta : GitDiffLineKind

pub record GitDiffLine : Type 0 where
  pub kind : GitDiffLineKind
  pub content : Text
  pub old_line : Option ℕ
  pub new_line : Option ℕ

pub record GitDiffHunk : Type 0 where
  pub header : Text
  pub old_start : ℕ
  pub old_lines : ℕ
  pub new_start : ℕ
  pub new_lines : ℕ
  pub lines : List GitDiffLine

pub record StatusEntry : Type 0 where
  pub path : Text
  pub old_path : Option Text
  pub status : GitChangeStatus
  pub index_changed : Bool
  pub worktree_changed : Bool
  pub untracked : Bool

pub record Numstat : Type 0 where
  pub additions : Option ℕ
  pub deletions : Option ℕ

abbrev pub default_numstat : Numstat
default_numstat = record { additions = some 0; deletions = some 0 }

unfoldable pub is_binary : Numstat → Bool
is_binary n = not (is_some n.additions) || not (is_some n.deletions)

unfoldable pub merge_count : Option ℕ → Option ℕ → Option ℕ
merge_count (some left) (some right) = some (saturating_add left right)
merge_count _ _ = none

unfoldable pub merge : Numstat → Numstat → Numstat
merge n other = record {
  additions = merge_count n.additions other.additions;
  deletions = merge_count n.deletions other.deletions;
}

pub data ResolvedScope : Type 0 where
  working_tree : (head : Option Text) → ResolvedScope
  staged : (head : Option Text) → ResolvedScope
  unstaged : (head : Option Text) → ResolvedScope
  branch : (base_oid head_oid : Text) → ResolvedScope
  commit : (oid : Text) → ResolvedScope

abbrev pub short_oid : Text → Text
short_oid oid = take 8 oid

unfoldable pub branch_display_name : Text → Text
branch_display_name revision = elim (strip_prefix (codes "refs/heads/") revision) [
  | some name ↦ name
  | none ↦ unwrap_or (strip_prefix (codes "refs/remotes/") revision) revision
]

abbrev pub tree_label : Option Text → Text
tree_label head = unwrap_or (option_map short_oid head) (codes "Empty tree")

unfoldable pub labels : ResolvedScope → GitReviewScope → Text × Text
labels (ResolvedScope.working_tree head) requested = (tree_label head, codes "Working tree")
labels (ResolvedScope.staged head) requested = (tree_label head, codes "Index")
labels (ResolvedScope.unstaged head) requested = (codes "Index", codes "Working tree")
labels (ResolvedScope.branch base_oid head_oid) (GitReviewScope.branch base) = (
  codes "merge-base(" ++ branch_display_name base ++ codes ") · " ++ short_oid base_oid,
  codes "HEAD",
)
labels (ResolvedScope.commit oid) (GitReviewScope.commit revision) =
    (codes "parent of " ++ short_oid oid, revision)
labels _ _ = (codes "Base", codes "Target")

unfoldable pub append_optional_oid : Bytes → Bytes → Option Text → Bytes
append_optional_oid material label oid =
    material ++ label ++ (0 ∷ utf8 (unwrap_or oid (codes "(initial)")))

unfoldable pub append_snapshot_identity : ResolvedScope → Bytes → Bytes
unfolding append_optional_oid
append_snapshot_identity scope material =
    let start = material ++ (0 ∷ utf8 (codes "resolved-scope")) ++ (0 ∷ []) in
    elim scope [
      | ResolvedScope.working_tree head ↦
          append_optional_oid start (utf8 (codes "working-tree")) head
      | ResolvedScope.staged head ↦ append_optional_oid start (utf8 (codes "staged")) head
      | ResolvedScope.unstaged head ↦ append_optional_oid start (utf8 (codes "unstaged")) head
      | ResolvedScope.branch base_oid head_oid ↦
          start ++ utf8 (codes "branch") ++ (0 ∷ utf8 base_oid) ++ (0 ∷ utf8 head_oid)
      | ResolvedScope.commit oid ↦ start ++ utf8 (codes "commit") ++ (0 ∷ utf8 oid)
    ]

unfoldable pub entry_areas : StatusEntry → GitReviewScope → List GitChangeArea
entry_areas entry GitReviewScope.working_tree =
    (if entry.index_changed then GitChangeArea.staged ∷ [] else [])
    ++ (if entry.worktree_changed then GitChangeArea.unstaged ∷ [] else [])
    ++ (if entry.untracked then GitChangeArea.untracked ∷ [] else [])
entry_areas entry GitReviewScope.staged =
    if entry.index_changed then GitChangeArea.staged ∷ [] else []
entry_areas entry GitReviewScope.unstaged =
    if entry.untracked
    then GitChangeArea.untracked ∷ []
    else if entry.worktree_changed
    then GitChangeArea.unstaged ∷ []
    else []
entry_areas entry _ = []
