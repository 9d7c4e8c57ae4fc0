-- ===== src/Framing.antt =====
-- crates/portcode-sync/src/transport_native.rs: frames of bytes on a QUIC stream, behind a length
-- prefix. The streams are iroh's: what they do is written down as the answers to come and the bytes.
use portcode.Common.{
  ℕ, zero, ◌+◌, ◌*◌, ◌/◌, ◌%◌, ◌^◌, List, [], ◌∷◌, ◌++◌, ltb, leb, if◌then◌else◌, Text, Bytes,
  codes, decimal, length, take, drop, Result, ok, err,
}
use portcode.Session.{RecvError, closed, protocol}
pub mod RoundTrip
pub mod Refusals

abbrev pub max_frame : ℕ
max_frame = 128 * 1024

-- The bytes written, and the answers to the writes to come; past the last one a write succeeds.
pub record SendStream : Type 0 where
  pub written : Bytes
  pub outcomes : List (Result Text (Unit {0}))

-- How the bytes of a stream end: the peer finished it, or the connection broke.
pub data StreamEnd : Type 0 where
  finished : StreamEnd
  broken : (error : Text) → StreamEnd

pub record RecvStream : Type 0 where
  pub bytes : Bytes
  pub ending : StreamEnd

-- `iroh::endpoint::ReadExactError`
pub data ReadExactError : Type 0 where
  finished_early : (read : ℕ) → ReadExactError
  read_error : (error : Text) → ReadExactError

abbrev written_with :
    Bytes → List (Result Text (Unit {0})) → SendStream → Result Text (Unit {0}) × SendStream
written_with bs [] s = (ok tt, record s { written = s.written ++ bs })
written_with bs (ok _ ∷ os) s = (ok tt, record { written = s.written ++ bs; outcomes = os })
written_with bs (err e ∷ os) s = (err e, record s { outcomes = os })

abbrev pub write_all : Bytes → SendStream → Result Text (Unit {0}) × SendStream
write_all bs s = written_with bs s.outcomes s

abbrev early : Bytes → StreamEnd → ReadExactError
early bytes finished = finished_early (length bytes)
early bytes (broken e) = read_error e

abbrev pub read_exact : ℕ → RecvStream → Result ReadExactError Bytes × RecvStream
read_exact n s =
    if leb n (length s.bytes)
    then (ok (take n s.bytes), record s { bytes = drop n s.bytes })
    else (err (early s.bytes s.ending), record s { bytes = [] })

-- `u32::to_be_bytes` and `from_be_bytes`
abbrev pub to_be_bytes : ℕ → Bytes
to_be_bytes n = n / 16_777_216 % 256 ∷ n / 65_536 % 256 ∷ n / 256 % 256 ∷ n % 256 ∷ []

abbrev pub from_be_bytes : Bytes → ℕ
from_be_bytes (a ∷ b ∷ c ∷ d ∷ []) = a * 16_777_216 + b * 65_536 + c * 256 + d
from_be_bytes _ = 0

abbrev pub cap_error : ℕ → Text
cap_error n =
    codes "frame of "
    ++ decimal n
    ++ codes " bytes exceeds the "
    ++ decimal max_frame
    ++ codes "-byte cap"

abbrev write_rest :
    Bytes → Result Text (Unit {0}) × SendStream → Result Text (Unit {0}) × SendStream
write_rest payload (ok _, s) = write_all payload s
write_rest payload (err e, s) = (err e, s)

unfoldable pub write_framed : Bytes → SendStream → Result Text (Unit {0}) × SendStream
write_framed payload send =
    if ltb max_frame (length payload)
    then (err (cap_error (length payload)), send)
    else if leb (2 ^ 32) (length payload)
    then (err (codes "frame too large"), send)
    else write_rest payload (write_all (to_be_bytes (length payload)) send)

-- `show` is the error's own text, iroh's.
module _ (show : ReadExactError → Text) where
  abbrev pub payload_result :
      Result ReadExactError Bytes × RecvStream → Result RecvError Bytes × RecvStream
  payload_result (ok payload, s) = (ok payload, s)
  payload_result (err e, s) = (err (protocol (show e)), s)

  abbrev pub read_payload : ℕ → RecvStream → Result RecvError Bytes × RecvStream
  read_payload n s =
      if ltb max_frame n then (err (protocol (cap_error n)), s) else payload_result (read_exact n s)

  abbrev pub read_after :
      Result ReadExactError Bytes × RecvStream → Result RecvError Bytes × RecvStream
  read_after (ok len_buf, s) = read_payload (from_be_bytes len_buf) s
  read_after (err (finished_early zero), s) = (err closed, s)
  read_after (err e, s) = (err (protocol (show e)), s)

  unfoldable pub read_framed : RecvStream → Result RecvError Bytes × RecvStream
  read_framed recv = read_after (read_exact 4 recv)
