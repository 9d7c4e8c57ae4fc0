-- ===== src/Review/Headers.antt =====
-- What `parse_hunk_header` reads from a hunk's header.
use portcode.Common.{
  ℕ, ◌+◌, ◌-◌, ◌*◌, ◌<◌, ◌^◌, ◌≡◌, ◌⊎◌, ◌∙◌, inl, inr, refl, ap, sym, subst, Bool-cases, [], ◌∷◌,
  ◌++◌, Option, none, some, option_map, arith, Option-cases, ltb, ◌==◌, ◌&&◌, Text, codes,
}
use portcode.Hub.{strip_prefix}
use portcode.Hub.Mirror.{strip_prefix-append}
use portcode.Review.Text.{is_digit, split_once, read_digits, parse_u64}
use portcode.Review.Patch.{parse_range, HunkHeader, parse_hunk_header}

-- A range is a start and a count, or a start alone for one line.
abbrev pub IsRange : Text → ℕ → ℕ → Type 0
IsRange range start lines =
    ((s : Text) × (n : Text) × (range ≡ s ++ (codes "," ++ n))
      × (parse_u64 s ≡ some start)
      × (parse_u64 n ≡ some lines))
    ⊎ ((split_once (codes ",") range ≡ none) × (parse_u64 range ≡ some start) × (lines ≡ 1))

-- The header is `@@ -old +new @@`, with anything behind it.
pub record IsHeader (header : Text) (h : HunkHeader) : Type 0 where
  pub old : Text
  pub new : Text
  pub behind : Text
  pub splits : header ≡ codes "@@ -" ++ (old ++ (codes " +" ++ (new ++ (codes " @@" ++ behind))))
  pub old_range : IsRange old h.old_start h.old_lines
  pub new_range : IsRange new h.new_start h.new_lines

split_once-append :
    (sep t : Text) (p : Text × Text) → split_once sep t ≡ some p → t ≡ p.0 ++ (sep ++ p.1)
unfolding split_once
split_once-append sep [] p h = absurd cc
split_once-append sep (c ∷ cs) p h =
    step (strip_prefix sep (c ∷ cs)) (split_once sep cs) (strip_prefix-append sep (c ∷ cs))
      (split_once-append sep cs) h
  where
    step :
        (here : Option Text) (rest : Option (Text × Text))
        → ((behind : Text) → here ≡ some behind → c ∷ cs ≡ sep ++ behind)
        → ((r : Text × Text) → rest ≡ some r → cs ≡ r.0 ++ (sep ++ r.1))
        → (elim here [
          | some behind ↦ some ([], behind)
          | none ↦ option_map (λ (r : Text × Text). (c ∷ r.0, r.1)) rest
        ])
          ≡ some p
        → c ∷ cs ≡ p.0 ++ (sep ++ p.1)
    step (some behind) rest a b e =
        let q : ([], behind) ≡ p = cc in
        a behind refl ∙ ap (λ (r : Text × Text). r.0 ++ (sep ++ r.1)) q
    step none none a b e = absurd cc
    step none (some r) a b e =
        let q : (c ∷ r.0, r.1) ≡ p = cc in
        ap (◌∷◌ c) (b r refl) ∙ ap (λ (r : Text × Text). r.0 ++ (sep ++ r.1)) q

read_digits-lt : (n : ℕ) (t : Text) (m : ℕ) → n < 2 ^ 64 → read_digits n t ≡ some m → m < 2 ^ 64
unfolding read_digits
read_digits-lt n [] m h e = let k : n ≡ m = cc in rw k at h
read_digits-lt n (c ∷ cs) m h e =
    elim (Bool-cases (is_digit c && ltb (n * 10 + (c - b'0')) (2 ^ 64))) [
      | inl k ↦ read_digits-lt (n * 10 + (c - b'0')) cs m (ground arith) (rw k at e)
      | inr k ↦ absurd (let t = rw k at e in cc)
    ]

pub parse_u64-lt : (t : Text) (m : ℕ) → parse_u64 t ≡ some m → m < 2 ^ 64
unfolding parse_u64
parse_u64-lt [] m e = absurd cc
parse_u64-lt (c ∷ []) m e = elim (Bool-cases (c == b'+')) [
  | inl k ↦ absurd (let t = rw k at e in cc)
  | inr k ↦ read_digits-lt 0 (c ∷ []) m (omega arith) (rw k at e)
]
parse_u64-lt (c ∷ d ∷ ds) m e = elim (Bool-cases (c == b'+')) [
  | inl k ↦ read_digits-lt 0 (d ∷ ds) m (omega arith) (rw k at e)
  | inr k ↦ read_digits-lt 0 (c ∷ d ∷ ds) m (omega arith) (rw k at e)
]

pub IsRange-lt : (range : Text) (start lines : ℕ) → IsRange range start lines → start < 2 ^ 64
IsRange-lt range start lines (inl (s, n, e, h, k)) = parse_u64-lt s start h
IsRange-lt range start lines (inr (e, h, k)) = parse_u64-lt range start h

parse_range-IsRange :
    (range : Text) (p : ℕ × ℕ) → parse_range range ≡ some p → IsRange range p.0 p.1
unfolding parse_range parse_u64 read_digits
parse_range-IsRange range p h = elim (Option-cases (split_once (codes ",") range)) [
  | inr ((s, n), e) ↦ elim (Option-cases (parse_u64 s)) [
    | inl f ↦ absurd (let t = rw (e, f) at h in cc)
    | inr (start, f) ↦ elim (Option-cases (parse_u64 n)) [
      | inl g ↦ absurd (let t = rw (e, f, g) at h in cc)
      | inr (lines, g) ↦
          let k : some (start, lines) ≡ some p = rw (e, f, g) at h in
          let q : (start, lines) ≡ p = cc in
          inl (
            s,
            n,
            split_once-append (codes ",") range (s, n) e,
            f ∙ ap (λ (r : ℕ × ℕ). some r.0) q,
            g ∙ ap (λ (r : ℕ × ℕ). some r.1) q,
          )
    ]
  ]
  | inl e ↦ elim (Option-cases (parse_u64 range)) [
    | inl f ↦ absurd (let t = rw (e, f) at h in cc)
    | inr (start, f) ↦
        let k : some (start, 1) ≡ some p = rw (e, f) at h in
        let q : (start, 1) ≡ p = cc in
        inr (e, f ∙ ap (λ (r : ℕ × ℕ). some r.0) q, sym (ap (λ (r : ℕ × ℕ). r.1) q))
  ]
]

-- A header that is read has the form of a header, with its two ranges in order.
pub parse_hunk_header-IsHeader :
    (header : Text) (h : HunkHeader) → parse_hunk_header header ≡ some h → IsHeader header h
unfolding parse_hunk_header
parse_hunk_header-IsHeader header h e = elim (Option-cases (strip_prefix (codes "@@ -") header)) [
  | inl a ↦ absurd (let t = rw (parse_hunk_header, a) at e in cc)
  | inr (body, a) ↦ elim (Option-cases (split_once (codes " +") body)) [
    | inl b ↦ absurd (let t = rw (parse_hunk_header, a, b) at e in cc)
    | inr ((old, remainder), b) ↦ elim (Option-cases (split_once (codes " @@") remainder)) [
      | inl c ↦ absurd (let t = rw (parse_hunk_header, a, b, c) at e in cc)
      | inr ((new, behind), c) ↦ elim (Option-cases (parse_range old)) [
        | inl f ↦ absurd (let t = rw (parse_hunk_header, a, b, c, f) at e in cc)
        | inr (r, f) ↦ elim (Option-cases (parse_range new)) [
          | inl g ↦ absurd (let t = rw (parse_hunk_header, a, b, c, f, g) at e in cc)
          | inr (q, g) ↦
              let made : HunkHeader = record {
                old_start = r.0;
                old_lines = r.1;
                new_start = q.0;
                new_lines = q.1;
              } in
              let k : some made ≡ some h = rw (parse_hunk_header, a, b, c, f, g) at e in
              let made_h : made ≡ h = cc in
              subst (IsHeader header) made_h (record {
                old = old;
                new = new;
                behind = behind;
                splits =
                    strip_prefix-append (codes "@@ -") header body a
                    ∙ ap (◌++◌ (codes "@@ -")) (
                        split_once-append (codes " +") body (old, remainder) b
                        ∙ ap (λ t. old ++ (codes " +" ++ t))
                            (split_once-append (codes " @@") remainder (new, behind) c));
                old_range = parse_range-IsRange old r f;
                new_range = parse_range-IsRange new q g;
              })
        ]
      ]
    ]
  ]
]
