-- ===== src/Framing/Refusals.antt =====
-- What framing refuses: oversized frames at both ends, and truncated ones.
use portcode.Common.{
  ℕ, ◌≤◌, ◌≡◌, ◌↔◌, refl, ap, true, false, [], ◌∷◌, inl, inr, arith, ltb, leb, Bool-cases, Text,
  Bytes, length, length-take, take, drop, Result, ok, err,
}
use portcode.Session.{RecvError, closed, protocol}
use portcode.Framing.{
  max_frame, RecvStream, StreamEnd, finished, broken, ReadExactError, read_payload, from_be_bytes,
  read_framed,
}

module _ (show : ReadExactError → Text) where
  -- What a read may answer: a payload within the cap, or an error that is no clean close.
  abbrev IsBody : Result RecvError Bytes → Type 0
  IsBody (ok payload) = length payload ≤ max_frame
  IsBody (err closed) = ⊥
  IsBody (err (protocol e)) = Unit {0}

  read_payload-IsBody : (n : ℕ) (s : RecvStream) → IsBody (read_payload show n s).0
  read_payload-IsBody n s = elim (Bool-cases (ltb max_frame n)) [
    | inl over ↦ rw over tt
    | inr within ↦ elim (Bool-cases (leb n (length s.bytes))) [
      | inl enough ↦ rw (within, enough) (ground (arith, length-take n s.bytes))
      | inr short ↦ rw (within, short) tt
    ]
  ]

  not_closed : (r : Result RecvError Bytes) → IsBody r → r ≡ err closed → ⊥
  not_closed (ok payload) b h = cc
  not_closed (err closed) b h = b
  not_closed (err (protocol e)) b h = cc

  read_framed-IsBody :
      (s : RecvStream) → leb 4 (length s.bytes) ≡ true → IsBody (read_framed show s).0
  unfolding read_framed
  read_framed-IsBody s h =
      rw h
        (read_payload-IsBody (from_be_bytes (take 4 s.bytes)) (record s { bytes = drop 4 s.bytes }))

  closed_lem :
      (bytes : Bytes) (ending : StreamEnd)
      → ((read_framed show (record { bytes = bytes; ending = ending })).0 ≡ err closed)
        ↔ ((bytes ≡ []) × (ending ≡ finished))
  unfolding read_framed
  closed_lem [] finished = (λ h. (refl, refl), λ h. refl)
  closed_lem [] (broken e) = (λ h. cc, λ (a, b). cc)
  closed_lem (b ∷ bs) finished = elim (Bool-cases (leb 4 (length (b ∷ bs)))) [
    | inl enough ↦ (
      λ h. absurd (
          not_closed _ (read_framed-IsBody (record { bytes = b ∷ bs; ending = finished }) enough)
            h),
      λ (a, e). cc,
    )
    | inr short ↦ rw short (λ h. cc, λ (a, e). cc)
  ]
  closed_lem (b ∷ bs) (broken e) = elim (Bool-cases (leb 4 (length (b ∷ bs)))) [
    | inl enough ↦ (
      λ h. absurd (
          not_closed _ (read_framed-IsBody (record { bytes = b ∷ bs; ending = broken e }) enough)
            h),
      λ (a, e). cc,
    )
    | inr short ↦ rw short (λ h. cc, λ (a, e). cc)
  ]

  -- A read reports a clean close exactly when the peer finished the stream between two frames: no bytes
  -- are left and the connection did not break.
  pub read_framed-closed_iff :
      (s : RecvStream)
      → ((read_framed show s).0 ≡ err closed) ↔ ((s.bytes ≡ []) × (s.ending ≡ finished))
  read_framed-closed_iff s = closed_lem s.bytes s.ending

  payload-le :
      (r : Result RecvError Bytes) (payload : Bytes)
      → IsBody r
      → r ≡ ok payload
      → length payload ≤ max_frame
  payload-le (ok x) payload b h = let e : x ≡ payload = cc in omega (arith, ap length e, b)
  payload-le (err x) payload b h = cc

  short_read :
      (bytes : Bytes) (ending : StreamEnd) (payload : Bytes)
      → leb 4 (length bytes) ≡ false
      → (read_framed show (record { bytes = bytes; ending = ending })).0 ≡ ok payload
      → ⊥
  unfolding read_framed
  short_read [] finished payload k e = cc
  short_read [] (broken t) payload k e = cc
  short_read (b ∷ bs) finished payload k e = let t = rw k at e in cc
  short_read (b ∷ bs) (broken t) payload k e = let t = rw k at e in cc

  -- A payload that is read is within the cap, whatever length the peer claims.
  pub read_framed-le :
      (recv : RecvStream) (payload : Bytes)
      → (read_framed show recv).0 ≡ ok payload
      → length payload ≤ max_frame
  read_framed-le recv payload h = elim (Bool-cases (leb 4 (length recv.bytes))) [
    | inl enough ↦ payload-le _ payload (read_framed-IsBody recv enough) h
    | inr short ↦ absurd (short_read recv.bytes recv.ending payload short h)
  ]
