-- ===== src/Review/Anchors.antt =====
-- The line numbers of a parsed patch, and its bound.
use portcode.Common.{
  ℕ, ◌+◌, ◌≤◌, ◌≡◌, ◌⊎◌, inl, inr, refl, ap, ◌∙◌, subst, ◌^◌, ◌<◌, Bool, false, List, [], ◌∷◌, ◌++◌,
  Option, none, some, arith, Bool-cases, Option-cases, leb, leb→le, leb-false, length,
  length-append, All, All-append, Text, codes, Result, ok, err,
}
use portcode.Public.{starts_with, lines_from}
use portcode.Hub.{strip_prefix}
use portcode.Review.Types.{GitDiffHunk}
use portcode.Review.Numbering.{
  capped, old_count, new_count, Anchored, IsAt, Anchored-push, old_count-push, new_count-push,
  next_old-capped, next_new-capped, read_line-IsAt,
}
use portcode.Review.Headers.{IsHeader, IsRange-lt, parse_hunk_header-IsHeader}
use portcode.Review.Patch.{
  HunkHeader, max_diff_lines, combined_diff_error, parse_hunk_header, PatchState, start_state,
  with_current, open_hunk, read_line, next_old, next_new, push_line, patch_line, patch_lines,
  finish_patch, parse_unified_patch,
}

abbrev pub header_of : GitDiffHunk → HunkHeader
header_of h = record {
  old_start = h.old_start;
  old_lines = h.old_lines;
  new_start = h.new_start;
  new_lines = h.new_lines;
}

-- The starts and counts are those of the header's text, and the lines are numbered from the starts.
abbrev pub IsAnchored : GitDiffHunk → Type 0
IsAnchored hunk =
    IsHeader hunk.header (header_of hunk) × Anchored hunk.old_start hunk.new_start hunk.lines

abbrev pub line_total : List GitDiffHunk → ℕ
line_total [] = 0
line_total (h ∷ hs) = length h.lines + line_total hs

line_total-append :
    (hs ks : List GitDiffHunk) → line_total (hs ++ ks) ≡ line_total hs + line_total ks
line_total-append [] ks = omega arith
line_total-append (h ∷ hs) ks = omega (arith, line_total-append hs ks)

-- The open hunk, whose next lines have the numbers `old` and `new`.
abbrev Open : Option GitDiffHunk → ℕ → ℕ → Type 0
Open none old new = Unit
Open (some h) old new =
    IsAnchored h
    × (old ≡ capped (h.old_start + old_count h.lines))
    × (new ≡ capped (h.new_start + new_count h.lines))

-- The loop's invariant.
record Inv (s : PatchState) : Type 0 where
  closed : All IsAnchored s.hunks
  current : Open s.current s.old_line s.new_line
  counted : line_total (with_current s.current s.hunks) ≡ s.rendered
  few : s.rendered ≤ max_diff_lines
  flagged : (s.truncated ≡ false) ⊎ (s.rendered ≡ max_diff_lines)

All-with_current :
    (c : Option GitDiffHunk) (hs : List GitDiffHunk) (old new : ℕ)
    → All IsAnchored hs
    → Open c old new
    → All IsAnchored (with_current c hs)
All-with_current none hs old new a o = a
All-with_current (some h) hs old new a o = All-append IsAnchored hs (h ∷ []) a (o.0, tt)

at_start : (n : ℕ) → n < 2 ^ 64 → n ≡ capped (n + 0)
at_start n h = omega arith

open_hunk-Inv : (raw : Text) (s : PatchState) → Inv s → Inv (open_hunk raw s)
unfolding open_hunk parse_hunk_header strip_prefix
open_hunk-Inv raw s w =
    let a = All-with_current s.current s.hunks s.old_line s.new_line w.closed w.current in
    elim (Option-cases (parse_hunk_header raw)) [
      | inl e ↦ rw e (record {
        closed = a;
        current = tt;
        counted = w.counted;
        few = w.few;
        flagged = w.flagged;
      })
      | inr (h, e) ↦ rw e (record {
        closed = a;
        current = (
          (parse_hunk_header-IsHeader raw h e, tt),
          at_start _ (IsRange-lt _ _ _ (parse_hunk_header-IsHeader raw h e).old_range),
          at_start _ (IsRange-lt _ _ _ (parse_hunk_header-IsHeader raw h e).new_range),
        );
        counted = line_total-append (with_current s.current s.hunks) _ ∙ omega (arith, w.counted);
        few = w.few;
        flagged = w.flagged;
      })
    ]

push_line-Inv :
    (raw : Text) (hunk : GitDiffHunk) (s : PatchState)
    → s.current ≡ some hunk
    → Inv s
    → Inv (push_line raw hunk s)
unfolding push_line
push_line-Inv raw hunk s e w =
    let ((header, a), o, n) : Open (some hunk) s.old_line s.new_line =
      subst (λ c. Open c s.old_line s.new_line) e w.current in
    let old = hunk.old_start + old_count hunk.lines in
    let new = hunk.new_start + new_count hunk.lines in
    let line = read_line raw s.old_line s.new_line in
    let at_line : IsAt line old new = rw (o, n) (read_line-IsAt raw old new) in
    let total : line_total (s.hunks ++ (hunk ∷ [])) ≡ s.rendered =
      subst (λ c. line_total (with_current c s.hunks) ≡ s.rendered) e w.counted in
    elim (Bool-cases (leb max_diff_lines s.rendered)) [
      | inl full ↦ rw full (record {
        closed = w.closed;
        current = w.current;
        counted = w.counted;
        few = w.few;
        flagged = inr (omega (arith, w.few, leb→le _ _ full));
      })
      | inr room ↦ rw room (record {
        closed = w.closed;
        current = (
          (header, Anchored-push hunk.lines line hunk.old_start hunk.new_start a at_line),
          ap (next_old line.kind) o
              ∙ next_old-capped line.kind old
              ∙ ap capped (omega (arith, old_count-push hunk.lines line)),
          ap (next_new line.kind) n
              ∙ next_new-capped line.kind new
              ∙ ap capped (omega (arith, new_count-push hunk.lines line)),
        );
        counted = omega (
          arith,
          total,
          line_total-append s.hunks (hunk ∷ []),
          line_total-append s.hunks (record hunk { lines = hunk.lines ++ (line ∷ []) } ∷ []),
          length-append hunk.lines (line ∷ []),
        );
        few = omega (arith, leb-false _ _ room);
        flagged = elim w.flagged [
          | inl f ↦ inl f
          | inr f ↦ absurd (omega (arith, f, leb-false _ _ room))
        ];
      })
    ]

at_current :
    (c : Option GitDiffHunk) (raw : Text) (s : PatchState)
    → s.current ≡ c
    → Inv s
    → Inv (elim c [ none ↦ s | some hunk ↦ push_line raw hunk s ])
at_current none raw s e w = w
at_current (some hunk) raw s e w = push_line-Inv raw hunk s e w

patch_line-Inv : (raw : Text) (s : PatchState) → Inv s → Inv (patch_line raw s)
unfolding patch_line
patch_line-Inv raw s w = elim (Bool-cases (starts_with raw (codes "@@ "))) [
  | inl e ↦ rw e (open_hunk-Inv raw s w)
  | inr e ↦ rw e (at_current s.current raw s refl w)
]

-- What a parsed review promises.
pub record IsReview (hunks : List GitDiffHunk) (truncated : Bool) : Type 0 where
  pub anchored : All IsAnchored hunks
  pub few : line_total hunks ≤ max_diff_lines
  pub flagged : (truncated ≡ false) ⊎ (line_total hunks ≡ max_diff_lines)

abbrev Parsed : Result Text (List GitDiffHunk × Bool) → Type 0
Parsed (ok (hunks, truncated)) = IsReview hunks truncated
Parsed (err e) = e ≡ combined_diff_error

patch_lines-Parsed :
    (raws : List Text) (s : PatchState) → Inv s → Parsed (finish_patch (patch_lines raws s))
unfolding patch_lines
patch_lines-Parsed [] s w = record {
  anchored = All-with_current s.current s.hunks s.old_line s.new_line w.closed w.current;
  few = omega (arith, w.counted, w.few);
  flagged = elim w.flagged [ inl f ↦ inl f | inr f ↦ inr (w.counted ∙ f) ];
}
patch_lines-Parsed (raw ∷ raws) s w = elim (Bool-cases (starts_with raw (codes "@@@ "))) [
  | inl e ↦ rw e refl
  | inr e ↦ rw e (patch_lines-Parsed raws (patch_line raw s) (patch_line-Inv raw s w))
]

-- Every hunk of a parsed patch has the starts and counts that stand in its header's text. The number of a
-- line on a side (context on both, an addition on the new, a deletion on the old, any other line on none)
-- is the start of the side and the count of its lines before, up to the largest number of 64 bits. The
-- patch holds at most 4000 lines, and is marked truncated only if it holds that many.
pub parse_unified_patch-IsReview :
    (patch : Text) (hunks : List GitDiffHunk) (truncated : Bool)
    → parse_unified_patch patch ≡ ok (hunks, truncated)
    → IsReview hunks truncated
unfolding parse_unified_patch
parse_unified_patch-IsReview patch hunks truncated h = subst Parsed h (
    patch_lines-Parsed (lines_from [] patch) start_state
      (record { closed = tt; current = tt; counted = refl; few = omega arith; flagged = inl refl }))
