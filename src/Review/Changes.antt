-- ===== src/Review/Changes.antt =====
-- git_review.rs: the parsers of `--name-status -z` and of `--numstat -z`.
use portcode.Common.{
  ℕ, Bool, false, List, [], ◌∷◌, Option, none, some, ◌>>=◌, unwrap_or, if◌then◌else◌, ◌==◌, Text,
  Bytes, codes, Result, ok, err, map_insert,
}
use portcode.Review.Types.{GitChangeStatus, renamed, copied, Numstat}
use portcode.Review.Text.{split, splitn, get_nth, parse_u64, from_utf8}
use portcode.Review.Records.{and_then, push_ok, strict_text, strict_path, change_status}

abbrev pub Change : Type 0
Change = Text × Option Text × GitChangeStatus

abbrev pub drop_empty : List Bytes → List Bytes
drop_empty [] = []
drop_empty ([] ∷ fields) = drop_empty fields
drop_empty ((b ∷ bs) ∷ fields) = (b ∷ bs) ∷ drop_empty fields

-- The loop's place: a code, or a path that the code before it waits for.
pub data ChangePlace : Type 0 where
  at_code : ChangePlace
  at_path : (marker : ℕ) → ChangePlace
  at_old : (status : GitChangeStatus) → ChangePlace
  at_new : (status : GitChangeStatus) (old : Text) → ChangePlace

abbrev pub first_byte : Bytes → ℕ
first_byte [] = b'M'
first_byte (b ∷ bs) = b

abbrev pub behind_code : ℕ → ChangePlace
behind_code marker =
    if marker == b'R'
    then at_old renamed
    else if marker == b'C'
    then at_old copied
    else at_path marker

unfoldable pub change_loop : ChangePlace → List Bytes → Result Text (List Change)
change_loop at_code [] = ok []
change_loop (at_path marker) [] = err (codes "Change is missing its path.")
change_loop (at_old status) [] = err (codes "Rename is missing its old path.")
change_loop (at_new status old) [] = err (codes "Rename is missing its path.")
change_loop at_code (field ∷ fields) =
    let rest = change_loop (behind_code (first_byte field)) fields in
    and_then (strict_text field (codes "Change status")) (λ code. rest)
change_loop (at_path marker) (field ∷ fields) =
    let rest = change_loop at_code fields in
    and_then (strict_path field) (λ path. push_ok (path, none, change_status marker b'.') rest)
change_loop (at_old status) (field ∷ fields) =
    and_then (strict_path field) (λ old. change_loop (at_new status old) fields)
change_loop (at_new status old) (field ∷ fields) =
    let rest = change_loop at_code fields in
    and_then (strict_path field) (λ path. push_ok (path, some old, status) rest)

unfoldable pub parse_name_status : Bytes → Result Text (List Change)
parse_name_status output = change_loop at_code (drop_empty (split 0 output))

abbrev pub trim_start_newlines : Text → Text
trim_start_newlines [] = []
trim_start_newlines (c ∷ cs) =
    let rest = trim_start_newlines cs in if c == b'\n' then rest else c ∷ cs

abbrev pub dash : Bytes → Bool
dash (b ∷ []) = b == b'-'
dash _ = false

unfoldable pub parse_stat_count : Bytes → Option ℕ
parse_stat_count value =
    if dash value then none else from_utf8 value >>= (λ text. parse_u64 (trim_start_newlines text))

-- The loop's place: a record, or one of the two paths of a rename.
pub data StatPlace : Type 0 where
  at_record : StatPlace
  at_old : Numstat → StatPlace
  at_new : Numstat → StatPlace

abbrev pub part : ℕ → Bytes → Bytes
part n field = unwrap_or (get_nth n (splitn 3 b'\t' field)) []

abbrev pub counts : Bytes → Numstat
counts field = record {
  additions = parse_stat_count (part 0 field);
  deletions = parse_stat_count (part 1 field);
}

-- `stats` is the map filled so far.
unfoldable pub stat_loop :
    StatPlace → List Bytes → List (Text × Numstat) → Result Text (List (Text × Numstat))
stat_loop at_record [] stats = ok stats
stat_loop (at_old n) [] stats = err (codes "Rename numstat is missing its old path.")
stat_loop (at_new n) [] stats = err (codes "Rename numstat is missing its new path.")
stat_loop at_record ([] ∷ fields) stats = stat_loop at_record fields stats
stat_loop at_record ((b ∷ bs) ∷ fields) stats = elim (part 2 (b ∷ bs)) [
  | [] ↦ stat_loop (at_old (counts (b ∷ bs))) fields stats
  | c ∷ cs ↦
      and_then (strict_path (c ∷ cs))
        (λ path. stat_loop at_record fields (map_insert path (counts (b ∷ bs)) stats))
]
stat_loop (at_old n) (old ∷ fields) stats = stat_loop (at_new n) fields stats
stat_loop (at_new n) (new ∷ fields) stats =
    and_then (strict_path new) (λ path. stat_loop at_record fields (map_insert path n stats))

unfoldable pub parse_numstat_z : Bytes → Result Text (List (Text × Numstat))
parse_numstat_z output = stat_loop at_record (split 0 output) []
