-- ===== src/Review/Unquote.antt =====
-- A quoted path can be read back and breaks no header line.
use portcode.Common.{
  ℕ, zero, suc, ◌+◌, ◌-◌, ◌*◌, ◌/◌, ◌%◌, ◌<◌, ◌≡◌, refl, ap, ◌∙◌, inl, inr, Bool, true, false, ◌&&◌,
  ◌||◌, not, [], ◌∷◌, ◌++◌, append_assoc, arith, if◌then◌else◌, Bool-cases, ◌==◌, ==_iff, &&-true,
  any, all, All, Text, Bytes, utf8, encode_utf8,
}
use portcode.Public.{is_control, within}
use portcode.Review.Quote.{
  is_line_separator, needs_quotes, octal_bytes, quote_char, quote_chars, quote_patch_header_path,
}

-- Git's reading of a path in a header: the bytes up to the closing quote.
pub data Escape : Type 0 where
  plain : Escape
  escaped : Escape
  octal : (digits acc : ℕ) → Escape

abbrev pub escaped_byte : ℕ → ℕ
escaped_byte c =
    if c == b'n' then b'\n' else if c == b'r' then b'\r' else if c == b't' then b'\t' else c

unfoldable pub unquote_from : Escape → Text → Bytes
unquote_from e [] = []
unquote_from plain (c ∷ cs) =
    let escape = unquote_from escaped cs in
    let rest = unquote_from plain cs in
    if c == b'"' then [] else if c == b'\\' then escape else encode_utf8 c ++ rest
unquote_from escaped (c ∷ cs) =
    let digits = unquote_from (octal 2 (c - b'0')) cs in
    let rest = unquote_from plain cs in if within b'0' b'3' c then digits else escaped_byte c ∷ rest
unquote_from (octal zero acc) (c ∷ cs) = unquote_from plain cs
unquote_from (octal (suc zero) acc) (c ∷ cs) = (acc * 8 + (c - b'0')) ∷ unquote_from plain cs
unquote_from (octal (suc (suc n)) acc) (c ∷ cs) =
    unquote_from (octal (suc n) (acc * 8 + (c - b'0'))) cs

abbrev pub unquote : Text → Bytes
unquote [] = []
unquote (c ∷ cs) = if c == b'"' then unquote_from plain cs else utf8 (c ∷ cs)

abbrev IsByte : ℕ → Type 0
IsByte b = b < 256

unquote_from-octal_bytes :
    (bs : Bytes) (rest : Text)
    → All IsByte bs
    → unquote_from plain (octal_bytes bs ++ rest) ≡ bs ++ unquote_from plain rest
unfolding unquote_from
unquote_from-octal_bytes [] rest h = refl
unquote_from-octal_bytes (b ∷ bs) rest (p, h) =
    let q : within b'0' b'3' (b'0' + b / 64) ≡ true = ground arith in
    let v : ((b'0' + b / 64 - b'0') * 8 + (b'0' + b / 8 % 8 - b'0')) * 8 + (b'0' + b % 8 - b'0')
        ≡ b =
      omega arith in
    rw (q, v, unquote_from-octal_bytes bs rest h) refl

encode_utf8-IsByte : (c : ℕ) → c < 0x11_0000 → All IsByte (encode_utf8 c)
unfolding encode_utf8
encode_utf8-IsByte c h = ground arith

-- A character that stands for itself.
unquote_from-plain :
    (c : ℕ) (rest : Text)
    → (c == b'"') ≡ false
    → (c == b'\\') ≡ false
    → unquote_from plain (c ∷ rest) ≡ encode_utf8 c ++ unquote_from plain rest
unfolding unquote_from
unquote_from-plain c rest q b = rw (q, b) refl

unquote_from-quote_char :
    (c : ℕ) (rest : Text)
    → c < 0x11_0000
    → unquote_from plain (quote_char c ++ rest) ≡ encode_utf8 c ++ unquote_from plain rest
unfolding unquote_from quote_char encode_utf8
unquote_from-quote_char c rest h = elim (Bool-cases (c == b'"')) [
  | inl e ↦ let same_char = (==_iff c b'"').0 e in rw same_char refl
  | inr q ↦ elim (Bool-cases (c == b'\\')) [
    | inl e ↦ let same_char = (==_iff c b'\\').0 e in rw same_char refl
    | inr b ↦ elim (Bool-cases (c == b'\n')) [
      | inl e ↦ let same_char = (==_iff c b'\n').0 e in rw same_char refl
      | inr n ↦ elim (Bool-cases (c == b'\r')) [
        | inl e ↦ let same_char = (==_iff c b'\r').0 e in rw same_char refl
        | inr r ↦ elim (Bool-cases (c == b'\t')) [
          | inl e ↦ let same_char = (==_iff c b'\t').0 e in rw same_char refl
          | inr t ↦ elim (Bool-cases (is_control c || is_line_separator c)) [
            | inl e ↦
                rw (q, b, n, r, t, e)
                  (unquote_from-octal_bytes (encode_utf8 c) rest (encode_utf8-IsByte c h))
            | inr e ↦ rw (q, b, n, r, t, e) (unquote_from-plain c rest q b)
          ]
        ]
      ]
    ]
  ]
]

unquote_from-quote_chars :
    (t : Text)
    → All (λ c. c < 0x11_0000) t
    → unquote_from plain (quote_chars t ++ (b'"' ∷ [])) ≡ utf8 t
unfolding quote_chars unquote_from
unquote_from-quote_chars [] h = refl
unquote_from-quote_chars (c ∷ cs) (p, h) =
    ap (unquote_from plain) (append_assoc (quote_char c) (quote_chars cs) (b'"' ∷ []))
    ∙ unquote_from-quote_char c (quote_chars cs ++ (b'"' ∷ [])) p
    ∙ ap (λ bs. encode_utf8 c ++ bs) (unquote_from-quote_chars cs h)

unquote-bare : (t : Text) → any needs_quotes t ≡ false → unquote t ≡ utf8 t
unfolding needs_quotes
unquote-bare [] h = refl
unquote-bare (c ∷ cs) h = let q : (c == b'"') ≡ false = ground arith in rw q refl

-- A character that a header line may hold.
abbrev pub is_header_char : ℕ → Bool
is_header_char c = not (is_control c) && not (is_line_separator c)

all-append : (p : ℕ → Bool) (s t : Text) → all p s ≡ true → all p t ≡ true → all p (s ++ t) ≡ true
all-append p [] t h k = k
all-append p (c ∷ s) t h k =
    let (a, b) = &&-true (p c) (all p s) h in rw (a, all-append p s t b k) refl

octal-header : (d : ℕ) → d < 8 → is_header_char (b'0' + d) ≡ true
unfolding is_control
octal-header d h = ground arith

octal_bytes-header : (bs : Bytes) → All IsByte bs → all is_header_char (octal_bytes bs) ≡ true
unfolding is_control
octal_bytes-header [] h = refl
octal_bytes-header (b ∷ bs) (p, h) =
    rw
      (
        octal-header (b / 64) (omega arith),
        octal-header (b / 8 % 8) (omega arith),
        octal-header (b % 8) (omega arith),
        octal_bytes-header bs h,
      )
      refl

quote_char-header : (c : ℕ) → c < 0x11_0000 → all is_header_char (quote_char c) ≡ true
unfolding quote_char is_control
quote_char-header c h = elim (Bool-cases (c == b'"')) [
  | inl e ↦ rw e refl
  | inr q ↦ elim (Bool-cases (c == b'\\')) [
    | inl e ↦ rw (q, e) refl
    | inr b ↦ elim (Bool-cases (c == b'\n')) [
      | inl e ↦ rw (q, b, e) refl
      | inr n ↦ elim (Bool-cases (c == b'\r')) [
        | inl e ↦ rw (q, b, n, e) refl
        | inr r ↦ elim (Bool-cases (c == b'\t')) [
          | inl e ↦ rw (q, b, n, r, e) refl
          | inr t ↦ elim (Bool-cases (is_control c || is_line_separator c)) [
            | inl e ↦
                rw (q, b, n, r, t, e) (octal_bytes-header (encode_utf8 c) (encode_utf8-IsByte c h))
            | inr e ↦
                let own : is_header_char c ≡ true = ground arith in rw (q, b, n, r, t, e, own) refl
          ]
        ]
      ]
    ]
  ]
]

quote_chars-header :
    (t : Text) → All (λ c. c < 0x11_0000) t → all is_header_char (quote_chars t) ≡ true
unfolding quote_chars
quote_chars-header [] h = refl
quote_chars-header (c ∷ cs) (p, h) =
    all-append is_header_char (quote_char c) (quote_chars cs) (quote_char-header c p)
      (quote_chars-header cs h)

bare-header : (t : Text) → any needs_quotes t ≡ false → all is_header_char t ≡ true
unfolding needs_quotes
bare-header [] h = refl
bare-header (c ∷ cs) h =
    let own : is_header_char c ≡ true = ground arith in rw (own, bare-header cs (ground arith)) refl

-- The path in a made-up header, of Unicode scalar values, is read back by git's rules for quoted paths
-- as the bytes of the prefix and the path, and holds no control character and no line or paragraph
-- separator.
pub quote_patch_header_path-unquote :
    (prefix path : Text)
    → All (λ c. c < 0x11_0000) (prefix ++ path)
    → (unquote (quote_patch_header_path prefix path) ≡ utf8 (prefix ++ path))
      × (all is_header_char (quote_patch_header_path prefix path) ≡ true)
unfolding quote_patch_header_path is_control
quote_patch_header_path-unquote prefix path h =
    elim (Bool-cases (any needs_quotes (prefix ++ path))) [
      | inl e ↦ rw e (
        unquote_from-quote_chars (prefix ++ path) h,
        all-append is_header_char (quote_chars (prefix ++ path)) (b'"' ∷ [])
            (quote_chars-header (prefix ++ path) h) refl,
      )
      | inr e ↦ rw e (unquote-bare (prefix ++ path) e, bare-header (prefix ++ path) e)
    ]
