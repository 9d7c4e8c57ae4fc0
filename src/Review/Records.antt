-- ===== src/Review/Records.antt =====
-- git_review.rs: the parsers of NUL-separated records. The loops over an index are recursions over the
-- fields left, with what the index stands at: a record, or the paths that a record still waits for.
use portcode.Common.{
  ℕ, ◌-◌, Bool, true, false, not, ◌||◌, List, [], ◌∷◌, ◌++◌, Option, none, some, if◌then◌else◌,
  ◌==◌, Text, Bytes, codes, drop, Result, ok, err,
}
use portcode.Public.{starts_with}
use portcode.Review.Types.{
  GitChangeStatus, added, modified, deleted, renamed, copied, unmerged, StatusEntry,
}
use portcode.Review.Text.{split, splitn, get_nth, from_utf8}

-- `?`: the first error ends the parse.
abbrev pub and_then : {A B : Type 0} → Result Text A → (A → Result Text B) → Result Text B
and_then (ok a) f = f a
and_then (err e) f = err e

abbrev pub ok_or : {A : Type 0} → Option A → Text → Result Text A
ok_or (some a) e = ok a
ok_or none e = err e

abbrev pub push_ok : {A : Type 0} → A → Result Text (List A) → Result Text (List A)
push_ok a (ok items) = ok (a ∷ items)
push_ok a (err e) = err e

abbrev pub strict_text : Bytes → Text → Result Text Text
strict_text bytes label = ok_or (from_utf8 bytes) (label ++ codes " is not valid UTF-8.")

abbrev pub strict_path : Bytes → Result Text Text
strict_path path = strict_text path (codes "Git path")

unfoldable pub record_path : Bytes → ℕ → Result Text Text
record_path status fields =
    and_then
      (ok_or (get_nth (fields - 1) (splitn fields b' ' status))
        (codes "Git status record is missing a path."))
      strict_path

unfoldable pub change_status : ℕ → ℕ → GitChangeStatus
change_status index worktree =
    if index == b'U' || worktree == b'U'
    then unmerged
    else if index == b'R'
    then renamed
    else if index == b'C'
    then copied
    else (let status = (if worktree == b'.' then index else worktree) in
        if status == b'A'
        then added
        else if status == b'D'
        then deleted
        else if status == b'R'
        then renamed
        else if status == b'C'
        then copied
        else modified)

unfoldable pub status_entry : Bytes → Text → Option Text → Bool → Result Text StatusEntry
status_entry field path old_path untracked =
    and_then (ok_or (get_nth 2 field) (codes "Git status record is missing X status."))
      (λ index_status.
        and_then (ok_or (get_nth 3 field) (codes "Git status record is missing Y status."))
          (λ worktree_status. ok (record {
            path = path;
            old_path = old_path;
            status = change_status index_status worktree_status;
            index_changed = not (index_status == b'.');
            worktree_changed = not (worktree_status == b'.');
            untracked = untracked;
          })))

abbrev pub unmerged_entry : Text → StatusEntry
unmerged_entry path = record {
  path = path;
  old_path = none;
  status = unmerged;
  index_changed = true;
  worktree_changed = true;
  untracked = false;
}

abbrev pub untracked_entry : Text → StatusEntry
untracked_entry path = record {
  path = path;
  old_path = none;
  status = added;
  index_changed = false;
  worktree_changed = false;
  untracked = true;
}

-- What a field of `git status` says: nothing, an entry, or a rename whose original path is the next
-- field.
pub data PorcelainField : Type 0 where
  skipped : PorcelainField
  entry : StatusEntry → PorcelainField
  rename : (field : Bytes) (path : Text) → PorcelainField

unfoldable pub porcelain_field : Bytes → Result Text PorcelainField
porcelain_field field =
    if starts_with field (codes "# ") || starts_with field (codes "! ")
    then ok skipped
    else if starts_with field (codes "1")
    then and_then (record_path field 9)
        (λ path. and_then (status_entry field path none false) (λ e. ok (entry e)))
    else if starts_with field (codes "2")
    then and_then (record_path field 10) (λ path. ok (rename field path))
    else if starts_with field (codes "u")
    then and_then (record_path field 11) (λ path. ok (entry (unmerged_entry path)))
    else if starts_with field (codes "? ")
    then and_then (strict_path (drop 2 field)) (λ path. ok (entry (untracked_entry path)))
    else ok skipped

-- The loop's place: a record, or the original path of a rename.
pub data PorcelainPlace : Type 0 where
  at_record : PorcelainPlace
  at_original : (field : Bytes) (path : Text) → PorcelainPlace

unfoldable pub porcelain_loop : PorcelainPlace → List Bytes → Result Text (List StatusEntry)
porcelain_loop at_record [] = ok []
porcelain_loop (at_original field path) [] =
    err (codes "Rename status is missing its original path.")
porcelain_loop at_record (field ∷ fields) = elim (porcelain_field field) [
  | err e ↦ err e
  | ok skipped ↦ porcelain_loop at_record fields
  | ok (entry e) ↦ push_ok e (porcelain_loop at_record fields)
  | ok (rename f path) ↦ porcelain_loop (at_original f path) fields
]
porcelain_loop (at_original f path) (old ∷ fields) = and_then (strict_path old) (λ old_path.
    and_then (status_entry f path (some old_path) false)
      (λ e. push_ok e (porcelain_loop at_record fields)))

unfoldable pub parse_porcelain : Bytes → Result Text (List StatusEntry)
parse_porcelain output = porcelain_loop at_record (split 0 output)
