-- ===== src/Common/Utf8.antt =====
-- Rust text: a `String` is the list of its Unicode scalar values. What the source counts or cuts in
-- bytes is counted here in UTF-8 bytes, with the standard library's char boundaries.
use Prim.Native.Nat.{ℕ, zero, suc, ◌+◌, ◌-◌, ◌/◌, ◌%◌, ◌≤◌}
use Prim.Native.Char.{code}
use Prim.Native.String.{String}
use mathlib.Core.Path.{◌≡◌, refl}
use mathlib.Core.Logic.{◌↔◌}
use mathlib.Core.Bool.{Bool, true, false, ◌&&◌, ◌||◌}
use mathlib.Core.List.{List, [], ◌∷◌, ◌++◌}
use native.Mathlib.Omega.{arith}
use portcode.Common.Tests.{ltb, leb, ◌==◌, if◌then◌else◌}
use portcode.Common.Lists.{length, length-append}

abbrev pub Text : Type 0
Text = List ℕ

abbrev pub Bytes : Type 0
Bytes = List ℕ

-- The scalar values of a literal.
abbrev pub codes : String → Text
codes String.[] = []
codes (String.◌∷◌ c s) = code c ∷ codes s

-- `str` equality.
unfoldable pub same : Text → Text → Bool
same [] [] = true
same (x ∷ xs) (y ∷ ys) = x == y && same xs ys
same _ _ = false

pub same_iff : (s t : Text) → (same s t ≡ true) ↔ (s ≡ t)
unfolding same
same_iff (x ∷ s) (y ∷ t) = ground (arith, same_iff s t)
same_iff _ _ = ground arith

pub same_self : (s : Text) → same s s ≡ true
same_self s = (same_iff s s).1 refl

-- A match of a text against literals.
abbrev pub one_of : Text → List Text → Bool
one_of t [] = false
one_of t (l ∷ ls) = same t l || one_of t ls

-- The bytes of one scalar value in UTF-8, and their number (`char::len_utf8`).
unfoldable pub len_utf8 : ℕ → ℕ
len_utf8 c = if ltb c 0x80 then 1 else if ltb c 0x800 then 2 else if ltb c 0x1_0000 then 3 else 4

unfoldable pub encode_utf8 : ℕ → Bytes
encode_utf8 c =
    if ltb c 0x80
    then c ∷ []
    else if ltb c 0x800
    then (0xc0 + c / 64) ∷ (0x80 + c % 64) ∷ []
    else if ltb c 0x1_0000
    then (0xe0 + c / 4096) ∷ (0x80 + c / 64 % 64) ∷ (0x80 + c % 64) ∷ []
    else (0xf0 + c / 0x4_0000)
      ∷ (0x80 + c / 4096 % 64)
      ∷ (0x80 + c / 64 % 64)
      ∷ (0x80 + c % 64)
      ∷ []

-- `as_bytes`, and `len`.
abbrev pub utf8 : Text → Bytes
utf8 [] = []
utf8 (c ∷ cs) = encode_utf8 c ++ utf8 cs

abbrev pub byte_len : Text → ℕ
byte_len [] = 0
byte_len (c ∷ cs) = len_utf8 c + byte_len cs

pub length-encode_utf8 : (c : ℕ) → length (encode_utf8 c) ≡ len_utf8 c
unfolding encode_utf8 len_utf8
length-encode_utf8 c = ground arith

pub length-utf8 : (t : Text) → length (utf8 t) ≡ byte_len t
length-utf8 [] = refl
length-utf8 (c ∷ cs) =
    omega (arith, length-append (encode_utf8 c) (utf8 cs), length-encode_utf8 c, length-utf8 cs)

pub len_utf8-pos : (c : ℕ) → 1 ≤ len_utf8 c
unfolding len_utf8
len_utf8-pos c = ground arith

pub len_utf8-le : (c : ℕ) → len_utf8 c ≤ 4
unfolding len_utf8
len_utf8-le c = ground arith

pub byte_len-append : (s t : Text) → byte_len (s ++ t) ≡ byte_len s + byte_len t
byte_len-append [] t = omega arith
byte_len-append (c ∷ cs) t = omega (arith, byte_len-append cs t)

-- `str::is_char_boundary`.
unfoldable pub is_char_boundary : Text → ℕ → Bool
is_char_boundary t zero = true
is_char_boundary [] (suc n) = false
is_char_boundary (c ∷ cs) (suc n) =
    leb (len_utf8 c) (suc n) && is_char_boundary cs (suc n - len_utf8 c)

-- `&text[..end]` and `&text[end..]` at a boundary.
unfoldable pub slice_to : Text → ℕ → Text
slice_to [] end = []
slice_to (c ∷ cs) end = if leb (len_utf8 c) end then c ∷ slice_to cs (end - len_utf8 c) else []

unfoldable pub slice_from : Text → ℕ → Text
slice_from [] end = []
slice_from (c ∷ cs) end = if leb (len_utf8 c) end then slice_from cs (end - len_utf8 c) else c ∷ cs

-- `while !text.is_char_boundary(end) { end -= 1; }`
unfoldable pub floor_boundary : Text → ℕ → ℕ
floor_boundary t zero = zero
floor_boundary t (suc end) =
    let lower = floor_boundary t end in if is_char_boundary t (suc end) then suc end else lower
