-- ===== src/Common/Slices.antt =====
-- Laws of byte slices at char boundaries.
use Prim.Native.Nat.{ℕ, zero, suc, ◌+◌, ◌-◌, ◌≤◌}
use mathlib.Core.Path.{◌≡◌, refl, ap}
use mathlib.Core.Logic.{inl, inr}
use mathlib.Core.Bool.{true}
use mathlib.Core.List.{[], ◌∷◌, ◌++◌}
use native.Mathlib.Omega.{arith}
use portcode.Common.Tests.{leb, Bool-cases}
use portcode.Common.Lists.{IsPrefix}
use portcode.Common.Utf8.{
  Text, len_utf8, len_utf8-pos, byte_len, is_char_boundary, slice_to, slice_from, floor_boundary,
}

pub slice_to-append-slice_from : (t : Text) (n : ℕ) → slice_to t n ++ slice_from t n ≡ t
unfolding slice_to slice_from
slice_to-append-slice_from [] n = refl
slice_to-append-slice_from (c ∷ cs) n = elim (Bool-cases (leb (len_utf8 c) n)) [
  | inl fits ↦ rw fits (ap (◌∷◌ c) (slice_to-append-slice_from cs (n - len_utf8 c)))
  | inr over ↦ rw over
]

pub slice_to-IsPrefix : (t : Text) (n : ℕ) → IsPrefix (slice_to t n) t
slice_to-IsPrefix t n = record { rest = slice_from t n; splits = slice_to-append-slice_from t n }

pub byte_len-slice_to : (t : Text) (n : ℕ) → byte_len (slice_to t n) ≤ n
unfolding slice_to
byte_len-slice_to [] n = omega arith
byte_len-slice_to (c ∷ cs) n = ground (arith, byte_len-slice_to cs (n - len_utf8 c))

pub byte_len-slice_to_boundary :
    (t : Text) (n : ℕ) → is_char_boundary t n ≡ true → byte_len (slice_to t n) ≡ n
unfolding slice_to is_char_boundary
byte_len-slice_to_boundary [] zero h = refl
byte_len-slice_to_boundary [] (suc n) h = cc
byte_len-slice_to_boundary (c ∷ cs) zero h = ground (arith, len_utf8-pos c)
byte_len-slice_to_boundary (c ∷ cs) (suc n) h =
    ground (arith, byte_len-slice_to_boundary cs (suc n - len_utf8 c))

pub floor_boundary-le : (t : Text) (n : ℕ) → floor_boundary t n ≤ n
unfolding floor_boundary
floor_boundary-le t zero = omega arith
floor_boundary-le t (suc n) = ground (arith, floor_boundary-le t n)

pub floor_boundary-is_char_boundary :
    (t : Text) (n : ℕ) → is_char_boundary t (floor_boundary t n) ≡ true
unfolding floor_boundary
floor_boundary-is_char_boundary t zero = unfold is_char_boundary in refl
floor_boundary-is_char_boundary t (suc n) = elim (Bool-cases (is_char_boundary t (suc n))) [
  | inl here ↦ rw (here, here)
  | inr lower ↦ rw lower (floor_boundary-is_char_boundary t n)
]

pub slice_to-byte_len : (s t : Text) → slice_to (s ++ t) (byte_len s) ≡ s
unfolding slice_to
slice_to-byte_len [] [] = refl
slice_to-byte_len [] (c ∷ t) = ground (arith, len_utf8-pos c)
slice_to-byte_len (c ∷ s) t =
    let e : len_utf8 c + byte_len s - len_utf8 c ≡ byte_len s = omega arith in
    rw (e, slice_to-byte_len s t) (ground arith)

pub slice_from-byte_len : (s t : Text) → slice_from (s ++ t) (byte_len s) ≡ t
unfolding slice_from
slice_from-byte_len [] [] = refl
slice_from-byte_len [] (c ∷ t) = ground (arith, len_utf8-pos c)
slice_from-byte_len (c ∷ s) t =
    let e : len_utf8 c + byte_len s - len_utf8 c ≡ byte_len s = omega arith in
    rw (e, slice_from-byte_len s t) (ground arith)
