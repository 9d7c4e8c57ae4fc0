-- ===== src/Review/Text.antt =====
-- Rust's readers of text and bytes, as git_review.rs uses them.
use portcode.Common.{
  ℕ, zero, suc, ◌+◌, ◌-◌, ◌*◌, ◌^◌, Bool, ◌&&◌, List, [], ◌∷◌, Option, none, some, option_map,
  if◌then◌else◌, ltb, ◌==◌, Text, Bytes,
}
use portcode.Public.{within}
use portcode.Hub.{strip_prefix}

-- `split_once`
unfoldable pub split_once : Text → Text → Option (Text × Text)
split_once sep [] = none
split_once sep (c ∷ cs) =
    let rest = option_map (λ (p : Text × Text). (c ∷ p.0, p.1)) (split_once sep cs) in
    elim (strip_prefix sep (c ∷ cs)) [ some behind ↦ some ([], behind) | none ↦ rest ]

-- `split(|byte| *byte == sep)`, which gives at least one part.
abbrev pub extend_first : ℕ → List Bytes → List Bytes
extend_first b [] = (b ∷ []) ∷ []
extend_first b (part ∷ parts) = (b ∷ part) ∷ parts

unfoldable pub split : ℕ → Bytes → List Bytes
split sep [] = [] ∷ []
split sep (b ∷ bs) = let rest = split sep bs in if b == sep then [] ∷ rest else extend_first b rest

-- `splitn(n, |byte| *byte == sep)`
unfoldable pub cut_once : ℕ → Bytes → Option (Bytes × Bytes)
cut_once sep [] = none
cut_once sep (b ∷ bs) =
    let rest = option_map (λ (p : Bytes × Bytes). (b ∷ p.0, p.1)) (cut_once sep bs) in
    if b == sep then some ([], bs) else rest

unfoldable pub splitn : ℕ → ℕ → Bytes → List Bytes
splitn zero sep bs = []
splitn (suc zero) sep bs = bs ∷ []
splitn (suc (suc n)) sep bs = elim (cut_once sep bs) [
  | none ↦ bs ∷ []
  | some (part, rest) ↦ part ∷ splitn (suc n) sep rest
]

-- `get(n)` and `nth(n)`
unfoldable pub get_nth : {A : Type 0} → ℕ → List A → Option A
get_nth n [] = none
get_nth zero (x ∷ xs) = some x
get_nth (suc n) (x ∷ xs) = get_nth n xs

-- `str::parse::<u64>`
abbrev pub is_digit : ℕ → Bool
is_digit c = within b'0' b'9' c

unfoldable pub read_digits : ℕ → Text → Option ℕ
read_digits n [] = some n
read_digits n (c ∷ cs) =
    let m = n * 10 + (c - b'0') in
    let rest = read_digits m cs in if is_digit c && ltb m (2 ^ 64) then rest else none

unfoldable pub parse_u64 : Text → Option ℕ
parse_u64 [] = none
parse_u64 (c ∷ cs) =
    if c == b'+'
    then elim cs [ [] ↦ none | d ∷ ds ↦ read_digits 0 (d ∷ ds) ]
    else read_digits 0 (c ∷ cs)

-- What the first byte of a scalar value asks for: `need` more bytes, the next one in `low..=high`, behind
-- the bits `acc`.
pub record Lead : Type 0 where
  pub need : ℕ
  pub low : ℕ
  pub high : ℕ
  pub acc : ℕ

abbrev pub lead_of : ℕ → ℕ → ℕ → ℕ → Lead
lead_of need low high acc = record { need = need; low = low; high = high; acc = acc }

unfoldable pub lead : ℕ → Option Lead
lead b =
    if ltb b 0x80
    then some (lead_of 0 0 0 0)
    else if within 0xc2 0xdf b
    then some (lead_of 1 0x80 0xbf (b - 0xc0))
    else if b == 0xe0
    then some (lead_of 2 0xa0 0xbf 0)
    else if b == 0xed
    then some (lead_of 2 0x80 0x9f 0xd)
    else if within 0xe1 0xef b
    then some (lead_of 2 0x80 0xbf (b - 0xe0))
    else if b == 0xf0
    then some (lead_of 3 0x90 0xbf 0)
    else if within 0xf1 0xf3 b
    then some (lead_of 3 0x80 0xbf (b - 0xf0))
    else if b == 0xf4
    then some (lead_of 3 0x80 0x8f 4)
    else none

-- `std::str::from_utf8`
unfoldable pub decode : ℕ → ℕ → ℕ → ℕ → Bytes → Option Text
decode zero low high acc [] = some []
decode (suc need) low high acc [] = none
decode zero low high acc (b ∷ bs) = elim (lead b) [
  | none ↦ none
  | some l ↦
      let rest = decode l.need l.low l.high l.acc bs in
      if ltb b 0x80 then option_map (◌∷◌ b) rest else rest
]
decode (suc zero) low high acc (b ∷ bs) =
    let rest = decode 0 0 0 0 bs in
    if within low high b then option_map (◌∷◌ (acc * 64 + (b - 0x80))) rest else none
decode (suc (suc need)) low high acc (b ∷ bs) =
    let rest = decode (suc need) 0x80 0xbf (acc * 64 + (b - 0x80)) bs in
    if within low high b then rest else none

abbrev pub from_utf8 : Bytes → Option Text
from_utf8 bs = decode 0 0 0 0 bs
