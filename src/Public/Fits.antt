-- ===== src/Public/Fits.antt =====
-- Frames that fit a budget, and the size of a frame with no rows.
use portcode.Common.{
  ℕ, ◌≤◌, ◌≡◌, refl, true, [], ◌∷◌, inl, inr, arith, Option-cases, Text, byte_len, all,
}
use portcode.External.{External, Sha256Laws, EncodesWithin, is_plain}
use portcode.Wire.{SyncFrame}
use portcode.Public.Bounded.{is_identifier_byte, public_identifier}
use portcode.Public.Identifiers.{
  valid_remote_identifier_iff, public_identifier-valid, byte_len-identifier,
}
use portcode.Public.Frames.{frame_fits}

identifier-is_plain : (c : ℕ) → is_identifier_byte c ≡ true → is_plain c ≡ true
unfolding is_identifier_byte is_plain
identifier-is_plain c h = ground arith

all-is_plain : (t : Text) → all is_identifier_byte t ≡ true → all is_plain t ≡ true
all-is_plain [] h = refl
all-is_plain (c ∷ cs) h = ground (arith, identifier-is_plain c, all-is_plain cs)

pub EncodesWithin-le :
    {Value : Type 0} (ext : External Value) (frame : SyncFrame Value) (n m : ℕ)
    → n ≤ m
    → EncodesWithin ext frame n
    → EncodesWithin ext frame m
EncodesWithin-le ext frame n m h (bytes, e, k) = (bytes, e, omega arith)

module _ {Value : Type 0} (ext : External Value) where
  pub frame_fits_iff :
      (frame : SyncFrame Value) (budget : ℕ)
      → EncodesWithin ext frame budget
      → frame_fits ext frame budget ≡ true
  unfolding frame_fits
  frame_fits_iff frame budget (bytes, e, h) = ground arith

  pub fits-EncodesWithin :
      (frame : SyncFrame Value) (budget : ℕ)
      → frame_fits ext frame budget ≡ true
      → EncodesWithin ext frame budget
  unfolding frame_fits
  fits-EncodesWithin frame budget h = elim (Option-cases (ext.to_vec frame)) [
    | inl e ↦ absurd (ground arith)
    | inr (bytes, e) ↦ (bytes, e, ground arith)
  ]

  pub identifier-fits :
      (sha : Sha256Laws ext) (session_id : Text)
      → (all is_plain (public_identifier ext session_id) ≡ true)
        × (byte_len (public_identifier ext session_id) ≤ 128)
  identifier-fits sha session_id =
      let id = public_identifier ext session_id in
      let (_, short, plain) =
        (valid_remote_identifier_iff id).0 (public_identifier-valid ext sha session_id).0 in
      (all-is_plain id plain, omega (arith, byte_len-identifier id plain))
