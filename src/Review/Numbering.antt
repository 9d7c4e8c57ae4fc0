-- ===== src/Review/Numbering.antt =====
-- How the lines of a hunk are numbered: by the start of a side and the count of its lines before.
use portcode.Common.{
  ℕ, ◌+◌, ◌-◌, ◌^◌, min, ◌≡◌, refl, sym, Bool, true, false, List, [], ◌∷◌, ◌++◌, none, some, inl,
  inr, arith, Option-cases, if◌then◌else◌, Text, codes,
}
use portcode.Hub.{strip_prefix}
use portcode.Review.Types.{GitDiffLineKind, context, addition, deletion, meta, GitDiffLine}
use portcode.Review.Patch.{read_line, next_old, next_new}

-- Context and deletions are lines of the old side, context and additions of the new side.
abbrev pub is_old : GitDiffLineKind → Bool
is_old context = true
is_old addition = false
is_old deletion = true
is_old meta = false

abbrev pub is_new : GitDiffLineKind → Bool
is_new context = true
is_new addition = true
is_new deletion = false
is_new meta = false

abbrev pub one_if : Bool → ℕ
one_if true = 1
one_if false = 0

abbrev pub old_count : List GitDiffLine → ℕ
old_count [] = 0
old_count (l ∷ ls) = one_if (is_old l.kind) + old_count ls

abbrev pub new_count : List GitDiffLine → ℕ
new_count [] = 0
new_count (l ∷ ls) = one_if (is_new l.kind) + new_count ls

-- A number of 64 bits, as far as it goes.
abbrev pub capped : ℕ → ℕ
capped n = min n (2 ^ 64 - 1)

-- A line of a side has the number, any other line none.
abbrev pub IsAt : GitDiffLine → ℕ → ℕ → Type 0
IsAt l old new =
    (l.old_line ≡ (if is_old l.kind then some (capped old) else none))
    × (l.new_line ≡ (if is_new l.kind then some (capped new) else none))

-- The number of a line is the start of its side and the count of that side's lines before it.
abbrev pub Anchored : ℕ → ℕ → List GitDiffLine → Type 0
Anchored old new [] = Unit
Anchored old new (l ∷ ls) =
    IsAt l old new × Anchored (old + one_if (is_old l.kind)) (new + one_if (is_new l.kind)) ls

IsAt-cast : (l : GitDiffLine) (a b c d : ℕ) → a ≡ c → b ≡ d → IsAt l a b → IsAt l c d
IsAt-cast l a b c d e f h = rw (sym e, sym f) h

pub Anchored-push :
    (ls : List GitDiffLine) (l : GitDiffLine) (old new : ℕ)
    → Anchored old new ls
    → IsAt l (old + old_count ls) (new + new_count ls)
    → Anchored old new (ls ++ (l ∷ []))
Anchored-push [] l old new h e = (IsAt-cast l _ _ old new (omega arith) (omega arith) e, tt)
Anchored-push (x ∷ ls) l old new (a, h) e = (
  a,
  Anchored-push ls l (old + one_if (is_old x.kind)) (new + one_if (is_new x.kind)) h
      (IsAt-cast l _ _ _ _ (omega arith) (omega arith) e),
)

pub old_count-push :
    (ls : List GitDiffLine) (l : GitDiffLine)
    → old_count (ls ++ (l ∷ [])) ≡ old_count ls + one_if (is_old l.kind)
old_count-push [] l = omega arith
old_count-push (x ∷ ls) l = omega (arith, old_count-push ls l)

pub new_count-push :
    (ls : List GitDiffLine) (l : GitDiffLine)
    → new_count (ls ++ (l ∷ [])) ≡ new_count ls + one_if (is_new l.kind)
new_count-push [] l = omega arith
new_count-push (x ∷ ls) l = omega (arith, new_count-push ls l)

pub next_old-capped :
    (k : GitDiffLineKind) (n : ℕ) → next_old k (capped n) ≡ capped (n + one_if (is_old k))
next_old-capped context n = omega arith
next_old-capped addition n = omega arith
next_old-capped deletion n = omega arith
next_old-capped meta n = omega arith

pub next_new-capped :
    (k : GitDiffLineKind) (n : ℕ) → next_new k (capped n) ≡ capped (n + one_if (is_new k))
next_new-capped context n = omega arith
next_new-capped addition n = omega arith
next_new-capped deletion n = omega arith
next_new-capped meta n = omega arith

pub read_line-IsAt :
    (raw : Text) (old new : ℕ) → IsAt (read_line raw (capped old) (capped new)) old new
unfolding read_line strip_prefix
read_line-IsAt raw old new = elim (Option-cases (strip_prefix (codes "+") raw)) [
  | inr (t, e) ↦ rw e (refl, refl)
  | inl e ↦ elim (Option-cases (strip_prefix (codes "-") raw)) [
    | inr (t, f) ↦ rw (e, f) (refl, refl)
    | inl f ↦ elim (Option-cases (strip_prefix (codes " ") raw)) [
      | inr (t, g) ↦ rw (e, f, g) (refl, refl)
      | inl g ↦ rw (e, f, g) (refl, refl)
    ]
  ]
]
