-- ===== src/Review/Reference.antt =====
-- A patch that is not truncated against a reference: the hunks of its lines, each with the lines up to
-- the next header.
use mathlib.Core.List.{map-append}
use portcode.Common.{
  ℕ, ◌≡◌, refl, sym, ap, ◌∙◌, subst, inl, inr, Bool, true, false, List, [], ◌∷◌, ◌++◌, map,
  append_assoc, append-nil, Option, none, some, is_some, if◌then◌else◌, Bool-cases, Option-cases,
  leb, Text, codes, Result, ok, err,
}
use portcode.Public.{starts_with, lines_from}
use portcode.Hub.{strip_prefix}
use portcode.Hub.Mirror.{strip_prefix-append}
use portcode.Review.Types.{
  GitDiffLineKind, context, addition, deletion, meta, GitDiffLine, GitDiffHunk,
}
use portcode.Review.Patch.{
  max_diff_lines, parse_hunk_header, PatchState, start_state, with_current, open_hunk, read_line,
  push_line, patch_line, patch_lines, finish_patch, parse_unified_patch,
}

-- A diff line as git writes it.
abbrev pub print_line : GitDiffLineKind → Text → Text
print_line context content = codes " " ++ content
print_line addition content = codes "+" ++ content
print_line deletion content = codes "-" ++ content
print_line meta content = content

abbrev pub printed : GitDiffLine → Text
printed l = print_line l.kind l.content

abbrev pub shown : GitDiffHunk → Text × List Text
shown h = (h.header, map printed h.lines)

unfoldable pub is_header : Text → Bool
is_header raw = starts_with raw (codes "@@ ")

-- The lines up to the next header.
unfoldable pub body : List Text → List Text
body [] = []
body (raw ∷ raws) = let rest = body raws in if is_header raw then [] else raw ∷ rest

-- The headers that can be read, each with the lines up to the next header.
unfoldable pub hunks_of : List Text → List (Text × List Text)
hunks_of [] = []
hunks_of (raw ∷ raws) =
    let rest = hunks_of raws in
    if is_header raw
    then (if is_some (parse_hunk_header raw) then (raw, body raws) ∷ rest else rest)
    else rest

printed_lem : (raw : Text) (old new : ℕ) → printed (read_line raw old new) ≡ raw
unfolding read_line strip_prefix
printed_lem raw old new = elim (Option-cases (strip_prefix (codes "+") raw)) [
  | inr (t, e) ↦ rw e (sym (strip_prefix-append (codes "+") raw t e))
  | inl e ↦ elim (Option-cases (strip_prefix (codes "-") raw)) [
    | inr (t, f) ↦ rw (e, f) (sym (strip_prefix-append (codes "-") raw t f))
    | inl f ↦ elim (Option-cases (strip_prefix (codes " ") raw)) [
      | inr (t, g) ↦ rw (e, f, g) (sym (strip_prefix-append (codes " ") raw t g))
      | inl g ↦ rw (e, f, g) refl
    ]
  ]
]

-- The open hunk, with the lines still to come.
abbrev pending : Option GitDiffHunk → List Text → List (Text × List Text)
pending none raws = []
pending (some h) raws = (h.header, map printed h.lines ++ body raws) ∷ []

-- What a state shows in the end, if nothing is dropped.
abbrev outcome : PatchState → List Text → List (Text × List Text)
outcome s raws = map shown s.hunks ++ pending s.current raws ++ hunks_of raws

-- A dropped line shows in the state for good.
open_hunk-truncated : (raw : Text) (s : PatchState) → (open_hunk raw s).truncated ≡ s.truncated
unfolding open_hunk parse_hunk_header strip_prefix
open_hunk-truncated raw s = elim (Option-cases (parse_hunk_header raw)) [
  | inl e ↦ rw e refl
  | inr (h, e) ↦ rw e refl
]

push_line-truncated :
    (raw : Text) (hunk : GitDiffHunk) (s : PatchState)
    → s.truncated ≡ true
    → (push_line raw hunk s).truncated ≡ true
unfolding push_line
push_line-truncated raw hunk s h = elim (Bool-cases (leb max_diff_lines s.rendered)) [
  | inl e ↦ rw e refl
  | inr e ↦ rw e h
]

patch_line-truncated :
    (raw : Text) (s : PatchState) → s.truncated ≡ true → (patch_line raw s).truncated ≡ true
unfolding patch_line
patch_line-truncated raw s h = elim (Bool-cases (starts_with raw (codes "@@ "))) [
  | inl e ↦ rw e (open_hunk-truncated raw s ∙ h)
  | inr e ↦ rw e (at s.current)
]
  where
    at :
        (c : Option GitDiffHunk)
        → (elim c as (λ c. PatchState) [ none ↦ s | some hunk ↦ push_line raw hunk s ]).truncated
          ≡ true
    at none = h
    at (some hunk) = push_line-truncated raw hunk s h

-- Where no line of it follows, the open hunk is complete.
shown_current :
    (c : Option GitDiffHunk) (hs : List GitDiffHunk) (raws : List Text)
    → body raws ≡ []
    → map shown (with_current c hs) ≡ map shown hs ++ pending c raws
shown_current none hs raws h = sym (append-nil (map shown hs))
shown_current (some hunk) hs raws h = rw h (
    map-append shown hs (hunk ∷ [])
    ∙ ap (λ ls. map shown hs ++ ((hunk.header, ls) ∷ []))
        (sym (append-nil (map printed hunk.lines))))

body-header : (raw : Text) (raws : List Text) → is_header raw ≡ true → body (raw ∷ raws) ≡ []
unfolding body
body-header raw raws h = rw h refl

open_hunk-outcome :
    (raw : Text) (raws : List Text) (s : PatchState)
    → is_header raw ≡ true
    → outcome (open_hunk raw s) raws ≡ outcome s (raw ∷ raws)
unfolding open_hunk parse_hunk_header strip_prefix body hunks_of
open_hunk-outcome raw raws s h =
    let closes = shown_current s.current s.hunks (raw ∷ raws) (body-header raw raws h) in
    elim (Option-cases (parse_hunk_header raw)) [
      | inl e ↦
          rw (e, h)
            (ap (λ t. t ++ hunks_of raws)
              (append-nil (map shown (with_current s.current s.hunks)) ∙ closes))
      | inr (header, e) ↦
          rw (e, h)
            (ap (λ t. (t ++ ((raw, body raws) ∷ [])) ++ hunks_of raws) closes
              ∙ append_assoc (map shown s.hunks ++ pending s.current (raw ∷ raws))
                  ((raw, body raws) ∷ []) (hunks_of raws))
    ]

push_pending :
    (c : Option GitDiffHunk) (hunk : GitDiffHunk) (raw : Text) (raws : List Text)
    → c ≡ some hunk
    → is_header raw ≡ false
    → (hunk.header, map printed hunk.lines ++ raw ∷ body raws) ∷ [] ≡ pending c (raw ∷ raws)
unfolding body
push_pending c hunk raw raws e h = rw (e, h) refl

push_line-outcome :
    (raw : Text) (raws : List Text) (hunk : GitDiffHunk) (s : PatchState)
    → is_header raw ≡ false
    → s.current ≡ some hunk
    → (push_line raw hunk s).truncated ≡ false
    → outcome (push_line raw hunk s) raws ≡ outcome s (raw ∷ raws)
unfolding push_line body hunks_of
push_line-outcome raw raws hunk s h c t = elim (Bool-cases (leb max_diff_lines s.rendered)) [
  | inl full ↦ let no = rw full at t in absurd cc
  | inr room ↦
      let line = read_line raw s.old_line s.new_line in
      let lines : map printed (hunk.lines ++ (line ∷ [])) ++ body raws
          ≡ map printed hunk.lines ++ raw ∷ body raws =
        ap (λ ls. ls ++ body raws) (map-append printed hunk.lines (line ∷ []))
        ∙ append_assoc (map printed hunk.lines) (printed line ∷ []) (body raws)
        ∙ ap (λ l. map printed hunk.lines ++ l ∷ body raws)
            (printed_lem raw s.old_line s.new_line) in
      rw (room, h)
        (ap (λ ls. (map shown s.hunks ++ ((hunk.header, ls) ∷ [])) ++ hunks_of raws) lines
          ∙ ap (λ p. (map shown s.hunks ++ p) ++ hunks_of raws)
              (push_pending s.current hunk raw raws c h))
]

at_outcome :
    (c : Option GitDiffHunk) (raw : Text) (raws : List Text) (s : PatchState)
    → is_header raw ≡ false
    → s.current ≡ c
    → (elim c as (λ c. PatchState) [ none ↦ s | some hunk ↦ push_line raw hunk s ]).truncated
      ≡ false
    → outcome (elim c [ none ↦ s | some hunk ↦ push_line raw hunk s ]) raws ≡ outcome s (raw ∷ raws)
unfolding hunks_of
at_outcome none raw raws s h c t = rw (c, h) refl
at_outcome (some hunk) raw raws s h c t = push_line-outcome raw raws hunk s h c t

patch_line-outcome :
    (raw : Text) (raws : List Text) (s : PatchState)
    → (patch_line raw s).truncated ≡ false
    → outcome (patch_line raw s) raws ≡ outcome s (raw ∷ raws)
unfolding patch_line is_header
patch_line-outcome raw raws s t = elim (Bool-cases (is_header raw)) [
  | inl e ↦ rw e (open_hunk-outcome raw raws s e)
  | inr e ↦ rw e (at_outcome s.current raw raws s e refl (rw e at t))
]

-- What the loop gives, if nothing is dropped.
abbrev Shows : Result Text (List GitDiffHunk × Bool) → List (Text × List Text) → Type 0
Shows (err e) expected = Unit
Shows (ok (hunks, true)) expected = Unit
Shows (ok (hunks, false)) expected = map shown hunks ≡ expected

truncated_lem :
    (raws : List Text) (s : PatchState) (expected : List (Text × List Text))
    → s.truncated ≡ true
    → Shows (finish_patch (patch_lines raws s)) expected
unfolding patch_lines
truncated_lem [] s expected h = rw h tt
truncated_lem (raw ∷ raws) s expected h = elim (Bool-cases (starts_with raw (codes "@@@ "))) [
  | inl e ↦ rw e tt
  | inr e ↦ rw e (truncated_lem raws (patch_line raw s) expected (patch_line-truncated raw s h))
]

ended :
    (truncated : Bool) (hunks : List GitDiffHunk) (expected : List (Text × List Text))
    → map shown hunks ≡ expected
    → Shows (ok (hunks, truncated)) expected
ended true hunks expected h = tt
ended false hunks expected h = h

patch_lines-Shows :
    (raws : List Text) (s : PatchState) → Shows (finish_patch (patch_lines raws s)) (outcome s raws)
unfolding patch_lines hunks_of body
patch_lines-Shows [] s = ended s.truncated _ _ (
    shown_current s.current s.hunks [] refl
    ∙ sym (append-nil (map shown s.hunks ++ pending s.current [])))
patch_lines-Shows (raw ∷ raws) s = elim (Bool-cases (starts_with raw (codes "@@@ "))) [
  | inl e ↦ rw e tt
  | inr e ↦ elim (Bool-cases (patch_line raw s).truncated) [
    | inl t ↦ rw e (truncated_lem raws (patch_line raw s) _ t)
    | inr t ↦ rw e (
        subst (Shows (finish_patch (patch_lines raws (patch_line raw s))))
          (patch_line-outcome raw raws s t) (patch_lines-Shows raws (patch_line raw s)))
  ]
]

-- A patch that is parsed without being truncated shows exactly the hunks of its lines: each header that
-- can be read, with every line up to the next header, in order and with its mark.
pub parse_unified_patch-hunks_of :
    (patch : Text) (hunks : List GitDiffHunk)
    → parse_unified_patch patch ≡ ok (hunks, false)
    → map shown hunks ≡ hunks_of (lines_from [] patch)
unfolding parse_unified_patch
parse_unified_patch-hunks_of patch hunks h =
    subst (λ r. Shows r (hunks_of (lines_from [] patch))) h
      (patch_lines-Shows (lines_from [] patch) start_state)
