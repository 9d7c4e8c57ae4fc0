-- ===== src/Public/Identifiers.antt =====
-- Public identifiers: the byte test read on characters, and that every identifier passes it.
use portcode.Common.{
  ℕ, ◌+◌, ◌*◌, ◌/◌, ◌%◌, ◌≤◌, ◌<◌, ◌≡◌, ◌≢◌, ◌↔◌, refl, ◌∙◌, Bool, true, ◌&&◌, not, [], ◌∷◌, ◌++◌,
  arith, leb, Text, Bytes, codes, len_utf8, encode_utf8, utf8, byte_len, all, All, All-take, take,
  length, length-append, length-take,
}
use portcode.External.{External, Sha256Laws}
use portcode.Public.Bounded.{
  is_empty, is_identifier_byte, valid_remote_identifier, hex_digit, hex_bytes, digest_label,
  public_identifier, public_tool_id, max_remote_identifier_bytes,
}

identifier-ascii : (c : ℕ) → is_identifier_byte c ≡ true → c < 128
unfolding is_identifier_byte
identifier-ascii c h = ground arith

ascii-len_utf8 : (c : ℕ) → c < 128 → len_utf8 c ≡ 1
unfolding len_utf8
ascii-len_utf8 c h = ground arith

ascii-encode_utf8 : (c : ℕ) → c < 128 → encode_utf8 c ≡ c ∷ []
unfolding encode_utf8
ascii-encode_utf8 c h = ground arith

all-append : (p : ℕ → Bool) (s t : Text) → all p (s ++ t) ≡ (all p s && all p t)
all-append p [] t = refl
all-append p (c ∷ s) t = ground (arith, all-append p s t)

encode_utf8-identifier : (c : ℕ) → all is_identifier_byte (encode_utf8 c) ≡ is_identifier_byte c
unfolding encode_utf8 is_identifier_byte
encode_utf8-identifier c = ground arith

utf8-identifier : (t : Text) → all is_identifier_byte (utf8 t) ≡ all is_identifier_byte t
utf8-identifier [] = refl
utf8-identifier (c ∷ cs) =
    all-append is_identifier_byte (encode_utf8 c) (utf8 cs)
    ∙ rw (encode_utf8-identifier c, utf8-identifier cs)

pub byte_len-identifier : (t : Text) → all is_identifier_byte t ≡ true → byte_len t ≡ length t
byte_len-identifier [] h = refl
byte_len-identifier (c ∷ cs) h =
    ground (arith, byte_len-identifier cs, identifier-ascii c, ascii-len_utf8 c)

is_empty_iff : (t : Text) → (not (is_empty t) ≡ true) ↔ (t ≢ [])
is_empty_iff [] = (λ h. cc, λ h. absurd (h refl))
is_empty_iff (c ∷ cs) = (λ h e. cc, λ h. refl)

-- An identifier of a peer is accepted exactly when it has 1 to 128 characters, each an ASCII letter
-- or digit, a dash, an underscore or a dot. The code tests UTF-8 bytes.
pub valid_remote_identifier_iff :
    (value : Text)
    → (valid_remote_identifier value ≡ true)
      ↔ ((value ≢ []) × (length value ≤ 128) × (all is_identifier_byte value ≡ true))
unfolding valid_remote_identifier
valid_remote_identifier_iff value = (there, back)
  where
    there :
        (not (is_empty value)
            && leb (byte_len value) max_remote_identifier_bytes
            && all is_identifier_byte (utf8 value))
          ≡ true
        → (value ≢ []) × (length value ≤ 128) × (all is_identifier_byte value ≡ true)
    there h = (
      (is_empty_iff value).0 (ground arith),
      ground (arith, utf8-identifier value, byte_len-identifier value),
      ground (arith, utf8-identifier value),
    )

    back :
        (value ≢ []) × (length value ≤ 128) × (all is_identifier_byte value ≡ true)
        → (not (is_empty value)
            && leb (byte_len value) max_remote_identifier_bytes
            && all is_identifier_byte (utf8 value))
          ≡ true
    back (ne, short, plain) =
        ground (arith, (is_empty_iff value).1 ne, utf8-identifier value, byte_len-identifier value)

hex_digit-identifier : (n : ℕ) → n < 16 → is_identifier_byte (hex_digit n) ≡ true
unfolding hex_digit is_identifier_byte
hex_digit-identifier n h = ground arith

hex_bytes-identifier :
    (bs : Bytes) → All (λ b. b < 256) bs → all is_identifier_byte (hex_bytes bs) ≡ true
hex_bytes-identifier [] h = refl
hex_bytes-identifier (b ∷ bs) (lt, h) = ground (
  arith,
  hex_digit-identifier (b / 16) (omega arith),
  hex_digit-identifier (b % 16) (omega arith),
  hex_bytes-identifier bs h,
)

length-hex_bytes : (bs : Bytes) → length (hex_bytes bs) ≡ 2 * length bs
length-hex_bytes [] = refl
length-hex_bytes (b ∷ bs) = omega (arith, length-hex_bytes bs)

module _ {Value : Type 0} (ext : External Value) (sha : Sha256Laws ext) (value : Text) where
  -- The digest's part of a label: twice as many hexadecimal digits as bytes.
  digest-identifier :
      (n : ℕ)
      → n ≤ 32
      → (all is_identifier_byte (hex_bytes (take n (ext.sha256 (utf8 value)))) ≡ true)
        × (length (hex_bytes (take n (ext.sha256 (utf8 value)))) ≡ 2 * n)
  digest-identifier n h =
      let digest = ext.sha256 (utf8 value) in
      (
        hex_bytes-identifier (take n digest) (All-take _ n digest (sha.sha256_bytes (utf8 value))),
        omega (
          arith,
          length-hex_bytes (take n digest),
          length-take n digest,
          sha.sha256_length (utf8 value),
        ),
      )

  digest_label-valid :
      (prefix : Text) (n : ℕ)
      → n ≤ 32
      → prefix ≢ []
      → length prefix + 2 * n ≤ 128
      → all is_identifier_byte prefix ≡ true
      → valid_remote_identifier (digest_label ext prefix n value) ≡ true
  digest_label-valid [] n h ne short plain = absurd (ne refl)
  digest_label-valid (c ∷ prefix) n h ne short plain =
      let (hex, size) = digest-identifier n h in
      let digits = hex_bytes (take n (ext.sha256 (utf8 value))) in
      (valid_remote_identifier_iff (digest_label ext (c ∷ prefix) n value)).1 (
        λ e. cc,
        omega (arith, length-append prefix digits),
        ground (arith, all-append is_identifier_byte (c ∷ prefix) digits),
      )

  -- Every public identifier passes the test that the desktop makes of identifiers from a peer, so it
  -- holds no colon and no control character. So does every public tool identifier.
  pub public_identifier-valid :
      (valid_remote_identifier (public_identifier ext value) ≡ true)
      × (valid_remote_identifier (public_tool_id ext value) ≡ true)
  unfolding public_identifier public_tool_id is_identifier_byte
  public_identifier-valid = (
    ground (arith, digest_label-valid (codes "id-") 16 (omega arith) (λ e. cc) (omega arith) refl),
    digest_label-valid (codes "tool-") 16 (omega arith) (λ e. cc) (omega arith) refl,
  )
