-- ===== src/Public/Bounds.antt =====
-- Bounded public text: its length, its characters, and that redaction comes before truncation.
use portcode.Common.{
  ℕ, ◌+◌, ◌≤◌, ◌≡◌, refl, Bool, true, ◌&&◌, ◌||◌, not, [], ◌∷◌, ◌++◌, inl, inr, arith, append_assoc,
  ◌==◌, if◌then◌else◌, Bool-cases, Text, len_utf8, byte_len, byte_len-append, all, subst, IsPrefix,
  IsPrefix-nil, IsPrefix-cons, IsPrefix-refl, IsPrefix-trans, slice_to-IsPrefix, byte_len-slice_to,
  floor_boundary, floor_boundary-le, min,
}
use portcode.External.{External}
use portcode.Scrub.{redact_secrets_full, redact_secrets_bounded}
use portcode.Public.Bounded.{is_control, public_char, copy_public, bounded_public_text}

byte_len-snoc : (out : Text) (c : ℕ) → byte_len (out ++ c ∷ []) ≡ byte_len out + len_utf8 c
byte_len-snoc out c = omega (arith, byte_len-append out (c ∷ []))

copy_public-le :
    (max_bytes : ℕ) (out t : Text)
    → byte_len out ≤ max_bytes
    → byte_len (copy_public max_bytes out t) ≤ max_bytes
unfolding copy_public
copy_public-le m out [] h = h
copy_public-le m out (c ∷ []) h = ground (arith, byte_len-snoc out (public_char c))
copy_public-le m out (c ∷ d ∷ rest) h = ground (
  arith,
  byte_len-snoc out (public_char c),
  copy_public-le m (out ++ public_char c ∷ []) rest,
  copy_public-le m (out ++ public_char c ∷ []) (d ∷ rest),
)

-- The characters that public text may hold.
unfoldable pub is_public_char : ℕ → Bool
unfolding is_control
is_public_char c = not (is_control c) || c == b'\n' || c == b'\t'

public_char-is_public_char : (c : ℕ) → is_public_char (public_char c) ≡ true
unfolding is_public_char public_char
public_char-is_public_char c = ground arith

all-snoc :
    (p : ℕ → Bool) (out : Text) (c : ℕ)
    → all p out ≡ true
    → p c ≡ true
    → all p (out ++ c ∷ []) ≡ true
all-snoc p [] c h k = ground arith
all-snoc p (x ∷ out) c h k = ground (arith, all-snoc p out c)

copy_public-chars :
    (m : ℕ) (out t : Text)
    → all is_public_char out ≡ true
    → all is_public_char (copy_public m out t) ≡ true
unfolding copy_public
copy_public-chars m out [] h = h
copy_public-chars m out (c ∷ []) h =
    ground (arith, all-snoc is_public_char out (public_char c) h (public_char-is_public_char c))
copy_public-chars m out (c ∷ d ∷ rest) h =
    let next = all-snoc is_public_char out (public_char c) h (public_char-is_public_char c) in
    ground (
      arith,
      copy_public-chars m (out ++ public_char c ∷ []) rest next,
      copy_public-chars m (out ++ public_char c ∷ []) (d ∷ rest) next,
    )

-- The normalised text with no limit: each carriage return, with the line feed behind it, becomes a
-- line feed, and every other control character but the line feed and the tab becomes a space.
abbrev pub normalize : Text → Text
normalize [] = []
normalize (c ∷ []) = public_char c ∷ []
normalize (c ∷ d ∷ rest) =
    let joined = public_char c ∷ normalize rest in
    let plain = public_char c ∷ normalize (d ∷ rest) in
    if c == b'\r' && d == b'\n' then joined else plain

IsPrefix-append : (s t : Text) → IsPrefix s (s ++ t)
IsPrefix-append s t = record { rest = t; splits = refl }

copy_public-normalize : (m : ℕ) (out t : Text) → IsPrefix (copy_public m out t) (out ++ normalize t)
unfolding copy_public
copy_public-normalize m out [] = IsPrefix-append out []
copy_public-normalize m out (c ∷ []) =
    ground
      (arith, IsPrefix-append out (public_char c ∷ []), IsPrefix-refl (out ++ public_char c ∷ []))
copy_public-normalize m out (c ∷ d ∷ rest) = ground (
  arith,
  IsPrefix-append out (normalize (c ∷ d ∷ rest)),
  append_assoc out (public_char c ∷ []) (normalize rest),
  append_assoc out (public_char c ∷ []) (normalize (d ∷ rest)),
  copy_public-normalize m (out ++ public_char c ∷ []) rest,
  copy_public-normalize m (out ++ public_char c ∷ []) (d ∷ rest),
)

normalize-append : (s t : Text) → IsPrefix (normalize s) (normalize (s ++ t))
normalize-append [] t = IsPrefix-nil _
normalize-append (c ∷ []) [] = IsPrefix-refl _
normalize-append (c ∷ []) (d ∷ t) = elim (Bool-cases (c == b'\r' && d == b'\n')) [
  | inl e ↦ rw e (IsPrefix-append (public_char c ∷ []) (normalize t))
  | inr e ↦ rw e (IsPrefix-append (public_char c ∷ []) (normalize (d ∷ t)))
]
normalize-append (c ∷ d ∷ s) t = elim (Bool-cases (c == b'\r' && d == b'\n')) [
  | inl e ↦ rw e (IsPrefix-cons _ (normalize-append s t))
  | inr e ↦ rw e (IsPrefix-cons _ (normalize-append (d ∷ s) t))
]

module _ {Value : Type 0} (ext : External Value) (value : Text) (max_bytes : ℕ) where
  redact_secrets_bounded-IsPrefix :
      IsPrefix (redact_secrets_bounded ext value max_bytes) (redact_secrets_full ext value)
  unfolding redact_secrets_bounded
  redact_secrets_bounded-IsPrefix =
      let out = redact_secrets_full ext value in
      ground (
        arith,
        IsPrefix-refl out,
        slice_to-IsPrefix out (floor_boundary out (min max_bytes (byte_len out))),
      )

  -- The redacted text within a budget is at most that many bytes long.
  pub redact_secrets_bounded-le : byte_len (redact_secrets_bounded ext value max_bytes) ≤ max_bytes
  unfolding redact_secrets_bounded
  redact_secrets_bounded-le =
      let out = redact_secrets_full ext value in
      let end = min max_bytes (byte_len out) in
      ground (arith, floor_boundary-le out end, byte_len-slice_to out (floor_boundary out end))

  -- A public text is within its byte budget, and holds no control character but line feeds and tabs.
  pub bounded_public_text_bounds :
      (byte_len (bounded_public_text ext value max_bytes) ≤ max_bytes)
      × (all is_public_char (bounded_public_text ext value max_bytes) ≡ true)
  unfolding bounded_public_text
  bounded_public_text_bounds =
      (copy_public-le max_bytes [] _ (omega arith), copy_public-chars max_bytes [] _ refl)

  -- A public text begins the normalised form of the completely redacted text: the cut is made behind
  -- the redaction, and adds nothing.
  pub bounded_public_text-normalize :
      IsPrefix (bounded_public_text ext value max_bytes) (normalize (redact_secrets_full ext value))
  unfolding bounded_public_text
  bounded_public_text-normalize =
      let cut = redact_secrets_bounded-IsPrefix in
      IsPrefix-trans
        (copy_public-normalize max_bytes [] (redact_secrets_bounded ext value max_bytes))
        (subst
          (λ t. IsPrefix (normalize (redact_secrets_bounded ext value max_bytes)) (normalize t))
          cut.splits (normalize-append (redact_secrets_bounded ext value max_bytes) cut.rest))
