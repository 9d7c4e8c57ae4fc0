-- ===== src/Review/Decoding.antt =====
-- Reading back the UTF-8 bytes of a text.
use portcode.Common.{
  ℕ, zero, suc, ◌+◌, ◌-◌, ◌*◌, ◌/◌, ◌%◌, ◌≤◌, ◌<◌, ◌≡◌, refl, ap, ◌∙◌, inl, inr, Bool, true, false,
  ◌||◌, [], ◌∷◌, ◌++◌, some, option_map, arith, if◌then◌else◌, Bool-cases, ltb, ◌==◌, ==_iff,
  &&-true, all, Text, Bytes, encode_utf8, utf8,
}
use portcode.Public.{within}
use portcode.Review.Text.{lead_of, lead, decode, from_utf8}

-- A Unicode scalar value.
abbrev pub is_scalar : ℕ → Bool
is_scalar c = ltb c 0xd800 || within 0xe000 0x10_ffff c

decode_one :
    (c : ℕ) (bs : Bytes) → c < 0x80 → from_utf8 (c ∷ bs) ≡ option_map (◌∷◌ c) (from_utf8 bs)
unfolding decode lead
decode_one c bs h = let t : ltb c 0x80 ≡ true = ground arith in rw (decode, lead, t, t) refl

-- The last byte of a scalar value, and one before it.
decode_last :
    (low high acc b : ℕ) (bs : Bytes)
    → within low high b ≡ true
    → decode 1 low high acc (b ∷ bs) ≡ option_map (◌∷◌ (acc * 64 + (b - 0x80))) (from_utf8 bs)
unfolding decode
decode_last low high acc b bs h = rw h refl

decode_more :
    (need low high acc b : ℕ) (bs : Bytes)
    → within low high b ≡ true
    → decode (suc (suc need)) low high acc (b ∷ bs)
      ≡ decode (suc need) 0x80 0xbf (acc * 64 + (b - 0x80)) bs
unfolding decode
decode_more need low high acc b bs h = rw h refl

decode-lead :
    (need low high acc b : ℕ) (bs : Bytes)
    → lead b ≡ some (lead_of (suc need) low high acc)
    → ltb b 0x80 ≡ false
    → from_utf8 (b ∷ bs) ≡ decode (suc need) low high acc bs
unfolding decode lead
decode-lead need low high acc b bs h n = rw (decode, h, n) refl

lead_two : (q : ℕ) → 2 ≤ q → q < 32 → lead (0xc0 + q) ≡ some (lead_of 1 0x80 0xbf q)
unfolding lead
lead_two q l h =
    let a : ltb (0xc0 + q) 0x80 ≡ false = ground arith in
    let b : within 0xc2 0xdf (0xc0 + q) ≡ true = ground arith in
    let c : 0xc0 + q - 0xc0 ≡ q = omega arith in rw (a, b, c) refl

two_lem :
    (c : ℕ) (bs : Bytes)
    → 0x80 ≤ c
    → c < 0x800
    → from_utf8 ((0xc0 + c / 64) ∷ (0x80 + c % 64) ∷ bs) ≡ option_map (◌∷◌ c) (from_utf8 bs)
two_lem c bs l h =
    decode-lead 0 0x80 0xbf (c / 64) (0xc0 + c / 64) ((0x80 + c % 64) ∷ bs)
      (lead_two (c / 64) (omega arith) (omega arith)) (ground arith)
    ∙ decode_last 0x80 0xbf (c / 64) (0x80 + c % 64) bs (ground arith)
    ∙ ap (λ x. option_map (◌∷◌ x) (from_utf8 bs)) (omega arith)

abbrev low_three : ℕ → ℕ
low_three q = if q == 0 then 0xa0 else 0x80

abbrev high_three : ℕ → ℕ
high_three q = if q == 13 then 0x9f else 0xbf

lead_three : (q : ℕ) → q < 16 → lead (0xe0 + q) ≡ some (lead_of 2 (low_three q) (high_three q) q)
unfolding lead
lead_three q h =
    let a : ltb (0xe0 + q) 0x80 ≡ false = ground arith in
    let b : within 0xc2 0xdf (0xe0 + q) ≡ false = ground arith in
    elim (Bool-cases (q == 0)) [
      | inl z ↦ let e : q ≡ 0 = (==_iff q 0).0 z in rw e refl
      | inr z ↦
          let c : ((0xe0 + q) == 0xe0) ≡ false = ground arith in
          elim (Bool-cases (q == 13)) [
            | inl d ↦ let e : q ≡ 13 = (==_iff q 13).0 d in rw e refl
            | inr d ↦
                let f : ((0xe0 + q) == 0xed) ≡ false = ground arith in
                let g : within 0xe1 0xef (0xe0 + q) ≡ true = ground arith in
                let k : 0xe0 + q - 0xe0 ≡ q = omega arith in rw (a, b, c, f, g, k, z, d) refl
          ]
    ]

lead_four :
    (q low high : ℕ)
    → q < 5
    → low ≡ (if q == 0 then 0x90 else 0x80)
    → high ≡ (if q == 4 then 0x8f else 0xbf)
    → lead (0xf0 + q) ≡ some (lead_of 3 low high q)
unfolding lead
lead_four zero low high h e f = rw (e, f) refl
lead_four (suc zero) low high h e f = rw (e, f) refl
lead_four (suc (suc zero)) low high h e f = rw (e, f) refl
lead_four (suc (suc (suc zero))) low high h e f = rw (e, f) refl
lead_four (suc (suc (suc (suc zero)))) low high h e f = rw (e, f) refl
lead_four (suc (suc (suc (suc (suc q))))) low high h e f = absurd (omega arith)

three_lem :
    (c : ℕ) (bs : Bytes)
    → 0x800 ≤ c
    → c < 0x1_0000
    → is_scalar c ≡ true
    → from_utf8 ((0xe0 + c / 4096) ∷ (0x80 + c / 64 % 64) ∷ (0x80 + c % 64) ∷ bs)
      ≡ option_map (◌∷◌ c) (from_utf8 bs)
three_lem c bs l h s =
    decode-lead 1 (low_three (c / 4096)) (high_three (c / 4096)) (c / 4096) (0xe0 + c / 4096) _
      (lead_three (c / 4096) (omega arith)) (ground arith)
    ∙ decode_more 0 (low_three (c / 4096)) (high_three (c / 4096)) (c / 4096) (0x80 + c / 64 % 64) _
        (ground arith)
    ∙ decode_last 0x80 0xbf (c / 4096 * 64 + (0x80 + c / 64 % 64 - 0x80)) (0x80 + c % 64) bs
        (ground arith)
    ∙ ap (λ x. option_map (◌∷◌ x) (from_utf8 bs)) (omega arith)

low_four : ℕ → ℕ
low_four q = if q == 0 then 0x90 else 0x80

high_four : ℕ → ℕ
high_four q = if q == 4 then 0x8f else 0xbf

four_lem :
    (c : ℕ) (bs : Bytes)
    → 0x1_0000 ≤ c
    → c < 0x11_0000
    → from_utf8 (
        (0xf0 + c / 0x4_0000)
        ∷ (0x80 + c / 4096 % 64)
        ∷ (0x80 + c / 64 % 64)
        ∷ (0x80 + c % 64)
        ∷ bs)
      ≡ option_map (◌∷◌ c) (from_utf8 bs)
unfolding low_four high_four
four_lem c bs l h =
    let q = c / 0x4_0000 in
    decode-lead 2 (low_four q) (high_four q) q (0xf0 + q) _
      (lead_four q (low_four q) (high_four q) (omega arith) refl refl) (ground arith)
    ∙ decode_more 1 (low_four q) (high_four q) q (0x80 + c / 4096 % 64) _ (ground arith)
    ∙ decode_more 0 0x80 0xbf (q * 64 + (0x80 + c / 4096 % 64 - 0x80)) (0x80 + c / 64 % 64) _
        (ground arith)
    ∙ decode_last 0x80 0xbf
        ((q * 64 + (0x80 + c / 4096 % 64 - 0x80)) * 64 + (0x80 + c / 64 % 64 - 0x80))
        (0x80 + c % 64) bs (ground arith)
    ∙ ap (λ x. option_map (◌∷◌ x) (from_utf8 bs)) (omega arith)

-- The bytes of a character, and then the rest.
from_utf8-encode_utf8 :
    (c : ℕ) (bs : Bytes)
    → is_scalar c ≡ true
    → from_utf8 (encode_utf8 c ++ bs) ≡ option_map (◌∷◌ c) (from_utf8 bs)
unfolding encode_utf8
from_utf8-encode_utf8 c bs s = elim (Bool-cases (ltb c 0x80)) [
  | inl a ↦ rw a (decode_one c bs (ground arith))
  | inr a ↦ elim (Bool-cases (ltb c 0x800)) [
    | inl b ↦ rw (a, b) (two_lem c bs (ground arith) (ground arith))
    | inr b ↦ elim (Bool-cases (ltb c 0x1_0000)) [
      | inl d ↦ rw (a, b, d) (three_lem c bs (ground arith) (ground arith) s)
      | inr d ↦ rw (a, b, d) (four_lem c bs (ground arith) (ground arith))
    ]
  ]
]

-- The bytes of a text are read back as the text.
pub from_utf8-utf8 : (t : Text) → all is_scalar t ≡ true → from_utf8 (utf8 t) ≡ some t
unfolding decode
from_utf8-utf8 [] h = refl
from_utf8-utf8 (c ∷ cs) h =
    let (s, r) = &&-true (is_scalar c) (all is_scalar cs) h in
    let rest = from_utf8-utf8 cs r in
    from_utf8-encode_utf8 c (utf8 cs) s ∙ ap (option_map (◌∷◌ c)) rest
