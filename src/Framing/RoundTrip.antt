-- ===== src/Framing/RoundTrip.antt =====
-- A frame that is written is read back.
use portcode.Common.{
  ℕ, ◌^◌, ◌≤◌, ◌≡◌, refl, ap, ◌∙◌, true, false, [], ◌++◌, arith, append_assoc, ltb, leb, Text,
  Bytes, length, length-append, take_all, drop_all, ok, le→leb,
}
use portcode.Framing.{
  max_frame, StreamEnd, ReadExactError, read_exact, read_after, payload_result, to_be_bytes,
  from_be_bytes, write_framed, read_framed,
}

from_be_bytes-to_be_bytes : (n : ℕ) → n ≤ max_frame → from_be_bytes (to_be_bytes n) ≡ n
from_be_bytes-to_be_bytes n h = omega (arith, h)

read_exact-append :
    (xs ys : Bytes) (ending : StreamEnd)
    → read_exact (length xs) (record { bytes = xs ++ ys; ending = ending })
      ≡ (ok xs, record { bytes = ys; ending = ending })
read_exact-append xs ys ending =
    let fits : leb (length xs) (length (xs ++ ys)) ≡ true =
      le→leb _ _ (omega (arith, length-append xs ys)) in
    rw (fits, take_all xs ys, drop_all xs ys) refl

-- A payload within the cap is written as one frame when no write fails, and reading a stream that begins
-- with this frame gives the payload and leaves the rest of the stream.
pub read_framed-write_framed :
    (show : ReadExactError → Text) (payload more sent : Bytes) (ending : StreamEnd)
    → length payload ≤ max_frame
    → (write_framed payload (record { written = sent; outcomes = [] }) ≡ (
      ok tt,
      record { written = sent ++ (to_be_bytes (length payload) ++ payload); outcomes = [] },
    ))
      × (read_framed show
            (record { bytes = (to_be_bytes (length payload) ++ payload) ++ more; ending = ending })
          ≡ (ok payload, record { bytes = more; ending = ending }))
unfolding write_framed read_framed
read_framed-write_framed show payload more sent ending h =
    let n = length payload in
    let small : ltb max_frame n ≡ false = ground arith in
    let narrow : leb (2 ^ 32) n ≡ false = ground arith in
    let prefix = read_exact-append (to_be_bytes n) (payload ++ more) ending in
    (
      rw (small, narrow)
          (ap (λ t. (ok tt, record { written = t; outcomes = [] }))
            (append_assoc sent (to_be_bytes n) payload)),
      ap (read_after show) prefix
          ∙ rw (from_be_bytes-to_be_bytes n h, small)
              (ap (payload_result show) (read_exact-append payload more ending)),
    )
