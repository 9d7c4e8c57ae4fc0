-- ===== src/Review/Porcelain.antt =====
-- What `git status --porcelain=v2 -z` prints, and its entries.
use portcode.Common.{
  ℕ, suc, ◌-◌, ◌≡◌, refl, ap, ◌∙◌, subst, Bool, true, false, not, List, [], ◌∷◌, ◌++◌, append_assoc,
  Option, none, some, arith, ◌==◌, ==_iff, &&-true, all, length, All, Text, Bytes, utf8, ok,
}
use portcode.Public.{starts_with}
use portcode.Review.Types.{StatusEntry}
use portcode.Review.Text.{split, cut_once, splitn, get_nth}
use portcode.Review.Decoding.{is_scalar, from_utf8-utf8}
use portcode.Review.Records.{
  push_ok, skipped, entry, rename, strict_path, record_path, change_status, status_entry,
  unmerged_entry, untracked_entry, porcelain_field, at_record, porcelain_loop, parse_porcelain,
}

abbrev pub has_no : ℕ → Bytes → Bool
has_no b bs = all (λ c. not (c == b)) bs

-- The fields of a record, each with a space behind it.
abbrev pub spaced : List Bytes → Bytes
spaced [] = []
spaced (f ∷ fs) = f ++ b' ' ∷ spaced fs

-- Fields, each with a NUL behind it.
abbrev pub terminated : List Bytes → Bytes
terminated [] = []
terminated (f ∷ fs) = f ++ 0 ∷ terminated fs

split-terminated_one :
    (sep : ℕ) (f rest : Bytes)
    → has_no sep f ≡ true
    → split sep (f ++ sep ∷ rest) ≡ f ∷ split sep rest
unfolding split
split-terminated_one sep [] rest h =
    let e : (sep == sep) ≡ true = (==_iff sep sep).1 refl in rw e refl
split-terminated_one sep (b ∷ f) rest h =
    let (n, k) = &&-true (not (b == sep)) (has_no sep f) h in
    let e : (b == sep) ≡ false = ground arith in rw (e, split-terminated_one sep f rest k) refl

split-terminated :
    (fs : List Bytes) → All (λ f. has_no 0 f ≡ true) fs → split 0 (terminated fs) ≡ fs ++ ([] ∷ [])
unfolding split
split-terminated [] h = refl
split-terminated (f ∷ fs) (n, h) =
    split-terminated_one 0 f (terminated fs) n ∙ ap (◌∷◌ f) (split-terminated fs h)

cut_once-spaced :
    (sep : ℕ) (f rest : Bytes)
    → has_no sep f ≡ true
    → cut_once sep (f ++ sep ∷ rest) ≡ some (f, rest)
unfolding cut_once
cut_once-spaced sep [] rest h = let e : (sep == sep) ≡ true = (==_iff sep sep).1 refl in rw e refl
cut_once-spaced sep (b ∷ f) rest h =
    let (n, k) = &&-true (not (b == sep)) (has_no sep f) h in
    let e : (b == sep) ≡ false = ground arith in rw (e, cut_once-spaced sep f rest k) refl

splitn-cut :
    (n sep : ℕ) (f rest : Bytes)
    → has_no sep f ≡ true
    → splitn (suc (suc n)) sep (f ++ sep ∷ rest) ≡ f ∷ splitn (suc n) sep rest
unfolding splitn
splitn-cut n sep f rest h = rw (splitn, cut_once-spaced sep f rest h) refl

splitn-spaced :
    (fs : List Bytes) (last : Bytes)
    → All (λ f. has_no b' ' f ≡ true) fs
    → splitn (suc (length fs)) b' ' (spaced fs ++ last) ≡ fs ++ (last ∷ [])
unfolding splitn
splitn-spaced [] last h = refl
splitn-spaced (f ∷ fs) last (n, h) =
    ap (splitn (suc (suc (length fs))) b' ') (append_assoc f (b' ' ∷ spaced fs) last)
    ∙ splitn-cut (length fs) b' ' f (spaced fs ++ last) n
    ∙ ap (◌∷◌ f) (splitn-spaced fs last h)

get_nth-last :
    (fs : List Bytes) (last : Bytes) → get_nth (length fs) (fs ++ (last ∷ [])) ≡ some last
unfolding get_nth
get_nth-last [] last = refl
get_nth-last (f ∷ fs) last = get_nth-last fs last

strict_path-utf8 : (t : Text) → all is_scalar t ≡ true → strict_path (utf8 t) ≡ ok t
strict_path-utf8 t h = rw (from_utf8-utf8 t h) refl

-- The path behind the other fields of a record.
record_path-spaced :
    (fs : List Bytes) (path : Text)
    → All (λ f. has_no b' ' f ≡ true) fs
    → all is_scalar path ≡ true
    → record_path (spaced fs ++ utf8 path) (suc (length fs)) ≡ ok path
unfolding record_path
record_path-spaced fs path h s =
    let n : suc (length fs) - 1 ≡ length fs = omega arith in
    rw (splitn-spaced fs (utf8 path) h, n, get_nth-last fs (utf8 path), from_utf8-utf8 path s) refl

-- The two status letters, the other fields and the path of a record.
pub record Changed : Type 0 where
  pub index : ℕ
  pub worktree : ℕ
  pub fields : List Bytes
  pub path : Text

pub data GitRecord : Type 0 where
  ordinary : Changed → GitRecord
  renamed_from : Changed → (original : Text) → GitRecord
  conflicted : Changed → GitRecord
  new_file : (path : Text) → GitRecord
  branch_info : (text : Bytes) → GitRecord

-- A record's first byte, its letters and its other fields.
abbrev pub record_fields : ℕ → Changed → List Bytes
record_fields kind c = (kind ∷ []) ∷ (c.index ∷ c.worktree ∷ []) ∷ c.fields

abbrev pub record_bytes : ℕ → Changed → Bytes
record_bytes kind c = spaced (record_fields kind c) ++ utf8 c.path

-- The fields that git prints for a record.
abbrev pub printed_record : GitRecord → List Bytes
printed_record (ordinary c) = record_bytes b'1' c ∷ []
printed_record (renamed_from c original) = record_bytes b'2' c ∷ utf8 original ∷ []
printed_record (conflicted c) = record_bytes b'u' c ∷ []
printed_record (new_file path) = (b'?' ∷ b' ' ∷ utf8 path) ∷ []
printed_record (branch_info text) = (b'#' ∷ b' ' ∷ text) ∷ []

abbrev pub printed_records : List GitRecord → List Bytes
printed_records [] = []
printed_records (r ∷ rs) = printed_record r ++ printed_records rs

abbrev pub changed_entry : Changed → Option Text → StatusEntry
changed_entry c old = record {
  path = c.path;
  old_path = old;
  status = change_status c.index c.worktree;
  index_changed = not (c.index == b'.');
  worktree_changed = not (c.worktree == b'.');
  untracked = false;
}

abbrev pub entries_of : List GitRecord → List StatusEntry
entries_of [] = []
entries_of (ordinary c ∷ rs) = changed_entry c none ∷ entries_of rs
entries_of (renamed_from c original ∷ rs) = changed_entry c (some original) ∷ entries_of rs
entries_of (conflicted c ∷ rs) = unmerged_entry c.path ∷ entries_of rs
entries_of (new_file path ∷ rs) = untracked_entry path ∷ entries_of rs
entries_of (branch_info text ∷ rs) = entries_of rs

-- The number of the fields behind the letters, none of them with a space; a path of scalar values.
pub record IsChanged (n : ℕ) (c : Changed) : Type 0 where
  pub counted : length c.fields ≡ n
  pub spaceless : All (λ f. has_no b' ' f ≡ true) ((c.index ∷ c.worktree ∷ []) ∷ c.fields)
  pub scalars : all is_scalar c.path ≡ true

abbrev pub IsRecord : GitRecord → Type 0
IsRecord (ordinary c) = IsChanged 6 c
IsRecord (renamed_from c original) = IsChanged 7 c × (all is_scalar original ≡ true)
IsRecord (conflicted c) = IsChanged 8 c
IsRecord (new_file path) = all is_scalar path ≡ true
IsRecord (branch_info text) = Unit

record_path-record_bytes :
    (kind n : ℕ) (c : Changed)
    → has_no b' ' (kind ∷ []) ≡ true
    → IsChanged n c
    → record_path (record_bytes kind c) (suc (suc (suc n))) ≡ ok c.path
record_path-record_bytes kind n c k h =
    subst (λ m. record_path (record_bytes kind c) (suc (suc (suc m))) ≡ ok c.path) h.counted
      (record_path-spaced (record_fields kind c) c.path (k, h.spaceless) h.scalars)

status_entry-record_bytes :
    (kind : ℕ) (c : Changed) (old : Option Text)
    → status_entry (record_bytes kind c) c.path old false ≡ ok (changed_entry c old)
unfolding status_entry get_nth
status_entry-record_bytes kind c old = refl

field-ordinary :
    (c : Changed)
    → IsChanged 6 c
    → porcelain_field (record_bytes b'1' c) ≡ ok (entry (changed_entry c none))
unfolding porcelain_field starts_with
field-ordinary c r =
    rw (record_path-record_bytes b'1' 6 c refl r, status_entry-record_bytes b'1' c none) refl

field-renamed :
    (c : Changed)
    → IsChanged 7 c
    → porcelain_field (record_bytes b'2' c) ≡ ok (rename (record_bytes b'2' c) c.path)
unfolding porcelain_field starts_with
field-renamed c r = rw (record_path-record_bytes b'2' 7 c refl r) refl

field-conflicted :
    (c : Changed)
    → IsChanged 8 c
    → porcelain_field (record_bytes b'u' c) ≡ ok (entry (unmerged_entry c.path))
unfolding porcelain_field starts_with
field-conflicted c r = rw (record_path-record_bytes b'u' 8 c refl r) refl

field-new_file :
    (path : Text)
    → all is_scalar path ≡ true
    → porcelain_field (b'?' ∷ b' ' ∷ utf8 path) ≡ ok (entry (untracked_entry path))
unfolding porcelain_field starts_with
field-new_file path r = rw (from_utf8-utf8 path r) refl

field-branch_info : (text : Bytes) → porcelain_field (b'#' ∷ b' ' ∷ text) ≡ ok skipped
unfolding porcelain_field starts_with
field-branch_info text = refl

loop-entry :
    (f : Bytes) (fs : List Bytes) (e : StatusEntry)
    → porcelain_field f ≡ ok (entry e)
    → porcelain_loop at_record (f ∷ fs) ≡ push_ok e (porcelain_loop at_record fs)
unfolding porcelain_loop
loop-entry f fs e h = rw (porcelain_loop, h) refl

loop-skipped :
    (f : Bytes) (fs : List Bytes)
    → porcelain_field f ≡ ok skipped
    → porcelain_loop at_record (f ∷ fs) ≡ porcelain_loop at_record fs
unfolding porcelain_loop
loop-skipped f fs h = rw (porcelain_loop, h) refl

loop-rename :
    (c : Changed) (fs : List Bytes) (original : Text)
    → all is_scalar original ≡ true
    → porcelain_field (record_bytes b'2' c) ≡ ok (rename (record_bytes b'2' c) c.path)
    → porcelain_loop at_record (record_bytes b'2' c ∷ utf8 original ∷ fs)
      ≡ push_ok (changed_entry c (some original)) (porcelain_loop at_record fs)
unfolding porcelain_loop
loop-rename c fs original s h =
    rw (porcelain_loop, h)
      (rw
        (
          porcelain_loop,
          from_utf8-utf8 original s,
          status_entry-record_bytes b'2' c (some original),
        )
        refl)

porcelain_loop-printed :
    (rs : List GitRecord)
    → All IsRecord rs
    → porcelain_loop at_record (printed_records rs ++ ([] ∷ [])) ≡ ok (entries_of rs)
unfolding porcelain_loop porcelain_field starts_with
porcelain_loop-printed [] h = refl
porcelain_loop-printed (ordinary c ∷ rs) (r, h) =
    loop-entry (record_bytes b'1' c) (printed_records rs ++ ([] ∷ [])) (changed_entry c none)
      (field-ordinary c r)
    ∙ ap (push_ok _) (porcelain_loop-printed rs h)
porcelain_loop-printed (renamed_from c original ∷ rs) ((r, s), h) =
    loop-rename c (printed_records rs ++ ([] ∷ [])) original s (field-renamed c r)
    ∙ ap (push_ok _) (porcelain_loop-printed rs h)
porcelain_loop-printed (conflicted c ∷ rs) (r, h) =
    loop-entry (record_bytes b'u' c) (printed_records rs ++ ([] ∷ [])) (unmerged_entry c.path)
      (field-conflicted c r)
    ∙ ap (push_ok _) (porcelain_loop-printed rs h)
porcelain_loop-printed (new_file path ∷ rs) (r, h) =
    loop-entry (b'?' ∷ b' ' ∷ utf8 path) (printed_records rs ++ ([] ∷ [])) (untracked_entry path)
      (field-new_file path r)
    ∙ ap (push_ok _) (porcelain_loop-printed rs h)
porcelain_loop-printed (branch_info text ∷ rs) (r, h) =
    loop-skipped (b'#' ∷ b' ' ∷ text) (printed_records rs ++ ([] ∷ [])) (field-branch_info text)
    ∙ porcelain_loop-printed rs h

-- The status that git prints for well-formed records, each field ended by a NUL and none with a NUL
-- inside, is parsed into their entries in order: branch lines are skipped, and paths may hold spaces.
pub parse_porcelain-printed :
    (rs : List GitRecord)
    → All IsRecord rs
    → All (λ f. has_no 0 f ≡ true) (printed_records rs)
    → parse_porcelain (terminated (printed_records rs)) ≡ ok (entries_of rs)
unfolding parse_porcelain
parse_porcelain-printed rs h n =
    rw (split-terminated (printed_records rs) n) (porcelain_loop-printed rs h)
