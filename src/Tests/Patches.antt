-- ===== src/Tests/Patches.antt =====
-- The properties of the review's parsers at concrete inputs.
use portcode.Common.{
  ◌≡◌, ◌++◌, refl, true, false, List, [], ◌∷◌, map, none, some, arith, all, Text, codes, utf8,
  encode_utf8, ok,
}
use portcode.Public.{starts_with, lines_from, strip_cr}
use portcode.Hub.{strip_prefix}
use portcode.Review.{
  GitDiffHunk, context, addition, deletion, diff_line, parse_range, parse_hunk_header, open_hunk,
  read_line, push_line, patch_line, patch_lines, parse_unified_patch, parse_porcelain,
  quote_patch_header_path,
}
use portcode.Review.Text.{split_once, read_digits, parse_u64}
use portcode.Review.Anchors.{IsReview, parse_unified_patch-IsReview}
use portcode.Review.Reference.{shown, hunks_of, parse_unified_patch-hunks_of}
use portcode.Review.Porcelain.{
  GitRecord, ordinary, renamed_from, branch_info, printed_records, terminated, entries_of,
  parse_porcelain-printed,
}
use portcode.Review.Unquote.{unquote, is_header_char, quote_patch_header_path-unquote}

abbrev patch : Text
patch = codes "--- a\n@@ -1,2 +1,2 @@\n a\n-b\n+c\n"

abbrev hunk : GitDiffHunk
hunk = record {
  header = codes "@@ -1,2 +1,2 @@";
  old_start = 1;
  old_lines = 2;
  new_start = 1;
  new_lines = 2;
  lines =
      diff_line context (codes "a") (some 1) (some 1)
      ∷ diff_line deletion (codes "b") (some 2) none
      ∷ diff_line addition (codes "c") none (some 2)
      ∷ [];
}

patch_run : parse_unified_patch patch ≡ ok (hunk ∷ [], false)
unfolding parse_unified_patch patch_lines patch_line push_line open_hunk read_line parse_hunk_header
    parse_range split_once parse_u64 read_digits strip_prefix starts_with lines_from strip_cr
patch_run = refl

parse_unified_patch-IsReview_example : IsReview (hunk ∷ []) false
parse_unified_patch-IsReview_example =
    parse_unified_patch-IsReview patch (hunk ∷ []) false patch_run

parse_unified_patch-hunks_of_example : map shown (hunk ∷ []) ≡ hunks_of (lines_from [] patch)
parse_unified_patch-hunks_of_example = parse_unified_patch-hunks_of patch (hunk ∷ []) patch_run

abbrev records : List GitRecord
records =
    branch_info (codes "branch.head main")
    ∷ ordinary (record {
      index = b'M';
      worktree = b'.';
      fields =
          codes "N..."
          ∷ codes "100644"
          ∷ codes "100644"
          ∷ codes "100644"
          ∷ codes "1a"
          ∷ codes "2b"
          ∷ [];
      path = codes "a b.txt";
    })
    ∷ renamed_from
        (record {
          index = b'R';
          worktree = b'.';
          fields =
              codes "N..."
              ∷ codes "100644"
              ∷ codes "100644"
              ∷ codes "100644"
              ∷ codes "1a"
              ∷ codes "1a"
              ∷ codes "R100"
              ∷ [];
          path = codes "new";
        })
        (codes "old")
    ∷ []

parse_porcelain-printed_example :
    parse_porcelain (terminated (printed_records records)) ≡ ok (entries_of records)
unfolding encode_utf8
parse_porcelain-printed_example =
    parse_porcelain-printed records
      (
        tt,
        (
          record {
            counted = refl;
            spaceless = (refl, (refl, (refl, (refl, (refl, (refl, (refl, tt)))))));
            scalars = refl;
          },
          (
            (
              record {
                counted = refl;
                spaceless = (refl, (refl, (refl, (refl, (refl, (refl, (refl, (refl, tt))))))));
                scalars = refl;
              },
              refl,
            ),
            tt,
          ),
        ),
      )
      (refl, (refl, (refl, (refl, tt))))

quote_patch_header_path-unquote_example :
    (unquote (quote_patch_header_path (codes "a/") (codes "x\ny"))
      ≡ utf8 (codes "a/" ++ codes "x\ny"))
    × (all is_header_char (quote_patch_header_path (codes "a/") (codes "x\ny")) ≡ true)
quote_patch_header_path-unquote_example =
    quote_patch_header_path-unquote (codes "a/") (codes "x\ny")
      (omega arith, (omega arith, (omega arith, (omega arith, (omega arith, tt)))))
