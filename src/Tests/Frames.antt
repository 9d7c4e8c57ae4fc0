-- ===== src/Tests/Frames.antt =====
-- The properties of framing at concrete inputs.
use portcode.Common.{◌≡◌, ◌↔◌, [], ◌∷◌, ◌++◌, arith, Text, Bytes, codes, length, ok, err}
use portcode.Session.{closed}
use portcode.Framing.{finished, ReadExactError, to_be_bytes, write_framed, read_framed}
use portcode.Framing.RoundTrip.{read_framed-write_framed}
use portcode.Framing.Refusals.{read_framed-closed_iff}

abbrev show : ReadExactError → Text
show e = codes "truncated"

abbrev empty : Bytes
empty = []

abbrev payload : Bytes
payload = 10 ∷ 20 ∷ 30 ∷ []

read_framed-write_framed_example :
    (write_framed payload (record { written = []; outcomes = [] }) ≡ (
      ok tt,
      record { written = [] ++ (to_be_bytes (length payload) ++ payload); outcomes = [] },
    ))
    × (read_framed show (record {
      bytes = (to_be_bytes (length payload) ++ payload) ++ (9 ∷ []);
      ending = finished;
    })
        ≡ (ok payload, record { bytes = 9 ∷ []; ending = finished }))
read_framed-write_framed_example =
    read_framed-write_framed show payload (9 ∷ []) [] finished (omega arith)

read_framed-closed_iff_example :
    ((read_framed show (record { bytes = empty; ending = finished })).0 ≡ err closed)
    ↔ ((empty ≡ []) × (finished ≡ finished))
read_framed-closed_iff_example =
    read_framed-closed_iff show (record { bytes = empty; ending = finished })
