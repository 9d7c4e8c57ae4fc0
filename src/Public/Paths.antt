-- ===== src/Public/Paths.antt =====
-- Path labels: no directory of the desktop reaches a public receipt or session.
use portcode.Common.{
  ℕ, ◌-◌, ◌≤◌, ◌≡◌, refl, min, Bool, true, false, not, ◌||◌, List, [], ◌∷◌, ◌++◌, map, inl, inr,
  arith, ◌==◌, Option, none, some, unwrap_or, option_map, Bool-cases, Text, codes, len_utf8,
  byte_len, all, All, length, length-take, length-map, take, subst, ◌↔◌, slice_to, floor_boundary,
}
use portcode.External.{External, RegexLaws}
use portcode.Scrub.{Redactor, redactors, run_passes, redact_secrets_full, redact_secrets_bounded}
use portcode.Wire.{TurnReceipt, TurnChangedFile, PhoneTurnChangedFile}
use portcode.Public.Bounded.{public_char, copy_public, bounded_public_text}
use portcode.Public.Bounds.{bounded_public_text_bounds}
use portcode.Public.Labels.{split_path, last_nonempty, is_whitespace, label_leaf, safe_label}
use portcode.Public.Project.{project_file, project_receipt, max_changed_files}

-- Not a separator of directories.
unfoldable pub is_leaf_char : ℕ → Bool
is_leaf_char c = not (c == b'/' || c == b'\\')

all-snoc_leaf :
    (s : Text) (c : ℕ)
    → all is_leaf_char s ≡ true
    → is_leaf_char c ≡ true
    → all is_leaf_char (s ++ c ∷ []) ≡ true
all-snoc_leaf [] c h k = ground arith
all-snoc_leaf (x ∷ s) c h k = ground (arith, all-snoc_leaf s c)

split_path-leaf :
    (component t : Text)
    → all is_leaf_char component ≡ true
    → All (λ p. all is_leaf_char p ≡ true) (split_path component t)
unfolding split_path
split_path-leaf component [] h = (h, tt)
split_path-leaf component (c ∷ cs) h = elim (Bool-cases (c == b'/' || c == b'\\')) [
  | inl sep ↦ rw sep (h, split_path-leaf [] cs refl)
  | inr plain ↦ rw plain (
      split_path-leaf (component ++ c ∷ []) cs
        (all-snoc_leaf component c h (unfold is_leaf_char in rw plain)))
]

last_nonempty-leaf :
    (ps : List Text) (fallback : Text)
    → All (λ p. all is_leaf_char p ≡ true) ps
    → all is_leaf_char fallback ≡ true
    → all is_leaf_char (unwrap_or (last_nonempty ps) fallback) ≡ true
unfolding last_nonempty
last_nonempty-leaf [] fallback h k = k
last_nonempty-leaf (p ∷ ps) fallback (q, h) k = ground (arith, last_nonempty-leaf ps fallback h k)

public_char-leaf : (c : ℕ) → is_leaf_char c ≡ true → is_leaf_char (public_char c) ≡ true
unfolding is_leaf_char public_char
public_char-leaf c h = ground arith

copy_public-leaf :
    (m : ℕ) (out t : Text)
    → all is_leaf_char out ≡ true
    → all is_leaf_char t ≡ true
    → all is_leaf_char (copy_public m out t) ≡ true
unfolding copy_public
copy_public-leaf m out [] h k = h
copy_public-leaf m out (c ∷ []) h k =
    ground (arith, public_char-leaf c, all-snoc_leaf out (public_char c) h)
copy_public-leaf m out (c ∷ d ∷ rest) h k = ground (
  arith,
  public_char-leaf c,
  all-snoc_leaf out (public_char c) h,
  copy_public-leaf m (out ++ public_char c ∷ []) rest,
  copy_public-leaf m (out ++ public_char c ∷ []) (d ∷ rest),
)

slice_to-leaf :
    (t : Text) (n : ℕ) → all is_leaf_char t ≡ true → all is_leaf_char (slice_to t n) ≡ true
unfolding slice_to
slice_to-leaf [] n h = refl
slice_to-leaf (c ∷ cs) n h = ground (arith, slice_to-leaf cs (n - len_utf8 c))

redactors-leaf : All (λ (r : Redactor). all is_leaf_char r.repl ≡ true) redactors
unfolding is_leaf_char
redactors-leaf = assumption refl

label_leaf-leaf :
    (value fallback : Text)
    → all is_leaf_char fallback ≡ true
    → all is_leaf_char (label_leaf value fallback) ≡ true
unfolding label_leaf
label_leaf-leaf value fallback h =
    ground
      (arith, last_nonempty-leaf (split_path [] value) fallback (split_path-leaf [] value refl) h)

-- A path label: no separator of directories, within its bytes, and something to see.
pub record IsLabel (label : Text) (max_bytes : ℕ) : Type 0 where
  pub leaf : all is_leaf_char label ≡ true
  pub short : byte_len label ≤ max_bytes
  pub visible : all is_whitespace label ≡ false

-- A changed file of a public receipt, and the path it was renamed from.
abbrev pub HasLabels : PhoneTurnChangedFile → Type 0
HasLabels file = IsLabel file.path 192 × ((old : Text) → file.old_path ≡ some old → IsLabel old 192)

module _ {Value : Type 0} (ext : External Value) (regex : RegexLaws ext) where
  run_passes-leaf :
      (rs : List Redactor) (t : Text)
      → All (λ (r : Redactor). all is_leaf_char r.repl ≡ true) rs
      → all is_leaf_char t ≡ true
      → all is_leaf_char (run_passes ext rs t) ≡ true
  unfolding run_passes
  run_passes-leaf [] t h k = k
  run_passes-leaf (r ∷ rs) t (q, h) k =
      run_passes-leaf rs _ h (regex.replace_all_chars is_leaf_char r.re r.repl t q k)

  bounded_public_text-leaf :
      (t : Text) (n : ℕ)
      → all is_leaf_char t ≡ true
      → all is_leaf_char (bounded_public_text ext t n) ≡ true
  unfolding bounded_public_text redact_secrets_bounded redact_secrets_full
  bounded_public_text-leaf t n h =
      let full = run_passes ext redactors t in
      let plain = run_passes-leaf redactors t redactors-leaf h in
      copy_public-leaf n [] _ refl (
        ground
          (arith, plain, slice_to-leaf full (floor_boundary full (min n (byte_len full))) plain))

  -- The label of any path is one, when the fallback is.
  pub safe_label-IsLabel :
      (value fallback : Text) (max_bytes : ℕ)
      → IsLabel fallback max_bytes
      → IsLabel (safe_label ext value fallback max_bytes) max_bytes
  unfolding safe_label
  safe_label-IsLabel value fallback max_bytes f =
      let leaf = label_leaf value fallback in
      let label = bounded_public_text ext leaf max_bytes in
      elim (Bool-cases (all is_whitespace label)) [
        | inl blank ↦ rw blank f
        | inr seen ↦ rw seen (record {
          leaf = bounded_public_text-leaf leaf max_bytes (label_leaf-leaf value fallback f.leaf);
          short = (bounded_public_text_bounds ext leaf max_bytes).0;
          visible = seen;
        })
      ]

  file-IsLabel : IsLabel (codes "file") 192
  unfolding is_leaf_char is_whitespace len_utf8
  file-IsLabel = record { leaf = refl; short = omega arith; visible = refl }

  project_file-HasLabels : (file : TurnChangedFile) → HasLabels (project_file ext file)
  unfolding project_file
  project_file-HasLabels file =
      (safe_label-IsLabel file.path (codes "file") 192 file-IsLabel, renamed file.old_path)
    where
      renamed :
          (o : Option Text) (old : Text)
          → option_map (λ path. safe_label ext path (codes "file") 192) o ≡ some old
          → IsLabel old 192
      renamed none old e = absurd (ground arith)
      renamed (some path) old e =
          let same_label : safe_label ext path (codes "file") 192 ≡ old = cc in
          subst (λ t. IsLabel t 192) same_label
            (safe_label-IsLabel path (codes "file") 192 file-IsLabel)

  project_files-HasLabels :
      (files : List TurnChangedFile) → All HasLabels (map (project_file ext) files)
  project_files-HasLabels [] = tt
  project_files-HasLabels (file ∷ files) =
      (project_file-HasLabels file, project_files-HasLabels files)

  -- A public receipt lists at most 24 changed files, each by labels with no directory, and says that
  -- it is truncated exactly when the receipt did or has more than 24.
  pub project_receipt_labels :
      (receipt : TurnReceipt)
      → let public = project_receipt ext receipt in
        (length public.changed_files ≤ 24)
        × All HasLabels public.changed_files
        × ((public.files_truncated ≡ false)
            ↔ ((receipt.files_truncated ≡ false) × (length receipt.changed_files ≤ 24)))
  unfolding project_receipt
  project_receipt_labels receipt = (
    omega (
      arith,
      length-map (project_file ext) (take max_changed_files receipt.changed_files),
      length-take max_changed_files receipt.changed_files,
    ),
    project_files-HasLabels (take max_changed_files receipt.changed_files),
    ground arith,
  )
