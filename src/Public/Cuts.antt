-- ===== src/Public/Cuts.antt =====
-- Where a run of text deltas is cut, and that cutting loses nothing.
use mathlib.Core.List.{flatten}
use portcode.Common.{
  ℕ, zero, suc, ◌+◌, ◌-◌, ◌≤◌, ◌≡◌, refl, sym, ap, ◌∙◌, min, true, List, [], ◌∷◌, ◌++◌, inl, inr,
  arith, append_assoc, ltb, leb, Option, none, some, Option-cases, Bool-cases, leb-false, subst,
  Text, len_utf8, byte_len, byte_len-append, length, length-append, All, slice_to, slice_from,
  slice_to-byte_len, slice_from-byte_len, floor_boundary, floor_boundary-le,
}
use portcode.Public.Boundary.{
  is_safe_cut, scan_boundary, stream_boundary, text_emit_target_bytes, text_raw_holdback_bytes,
}
use portcode.Public.Stream.{drain_chunks}

-- A cut of `raw` behind the character `last`, at most `limit` bytes in.
pub record IsCut (limit : ℕ) (raw : Text) (boundary : ℕ) : Type 0 where
  pub before : Text
  pub last : ℕ
  pub after : Text
  pub splits : raw ≡ (before ++ last ∷ []) ++ after
  pub bytes : byte_len (before ++ last ∷ []) ≡ boundary
  pub safe : is_safe_cut before last after ≡ true
  pub below : boundary ≤ limit

abbrev FoundCut : ℕ → Text → Option ℕ → Type 0
FoundCut limit raw none = Unit {0}
FoundCut limit raw (some b) = IsCut limit raw b

scan_boundary-FoundCut :
    (limit : ℕ) (raw before : Text) (index : ℕ) (found : Option ℕ) (rest : Text)
    → index ≡ byte_len before
    → raw ≡ before ++ rest
    → FoundCut limit raw found
    → FoundCut limit raw (scan_boundary limit before index found rest)
unfolding scan_boundary
scan_boundary-FoundCut limit raw before index found [] e s h = h
scan_boundary-FoundCut limit raw before index found (c ∷ cs) e s h =
    let size = byte_len-append before (c ∷ []) in
    let next = s ∙ sym (append_assoc before (c ∷ []) cs) in
    elim (Bool-cases (ltb limit (index + len_utf8 c))) [
      | inl over ↦ rw over h
      | inr within ↦ rw within (
          scan_boundary-FoundCut limit raw (before ++ c ∷ []) (index + len_utf8 c) _ cs
            (omega arith) next
            (elim (Bool-cases (is_safe_cut before c cs)) [
              | inl safe ↦ rw safe (record {
                before = before;
                last = c;
                after = cs;
                splits = next;
                bytes = omega arith;
                safe = safe;
                below = ground arith;
              })
              | inr unsafe ↦ rw unsafe h
            ]))
    ]

-- A boundary that is found lies behind a character of the text where a cut is safe, at most 2 KiB in,
-- and leaves at least 1 KiB of text.
pub stream_boundary-IsCut :
    (raw : Text) (boundary : ℕ)
    → stream_boundary raw ≡ some boundary
    → IsCut text_emit_target_bytes raw boundary
      × (boundary + text_raw_holdback_bytes ≤ byte_len raw)
unfolding stream_boundary
stream_boundary-IsCut raw boundary h =
    elim (Bool-cases (leb (byte_len raw) (text_emit_target_bytes + text_raw_holdback_bytes))) [
      | inl small ↦ absurd (ground arith)
      | inr big ↦
          let target = min text_emit_target_bytes (byte_len raw - text_raw_holdback_bytes) in
          let limit = floor_boundary raw target in
          let cut =
            subst (FoundCut limit raw) (rw big at h)
              (scan_boundary-FoundCut limit raw [] 0 none raw refl refl tt) in
          (
            record {
              before = cut.before;
              last = cut.last;
              after = cut.after;
              splits = cut.splits;
              bytes = cut.bytes;
              safe = cut.safe;
              below = omega (arith, cut.below, floor_boundary-le raw target);
            },
            omega (arith, cut.below, floor_boundary-le raw target, leb-false _ _ big),
          )
    ]

-- The chunks that a drain cuts off, and the tail that it keeps.
pub record IsDrained (raw : Text) (chunks : List Text) (tail : Text) : Type 0 where
  pub keeps_all : flatten chunks ++ tail ≡ raw
  pub finished : stream_boundary tail ≡ none
  pub small : All (λ chunk. byte_len chunk ≤ 2048) chunks

slices_at :
    (raw head after : Text) (b : ℕ)
    → raw ≡ head ++ after
    → byte_len head ≡ b
    → (slice_to raw b ≡ head) × (slice_from raw b ≡ after)
slices_at raw head after b e k =
    (rw (e, ← k) (slice_to-byte_len head after), rw (e, ← k) (slice_from-byte_len head after))

drain_chunks-IsDrained :
    (fuel : ℕ) (raw : Text)
    → length raw ≤ fuel
    → IsDrained raw (drain_chunks fuel raw).0 (drain_chunks fuel raw).1
unfolding drain_chunks flatten
drain_chunks-IsDrained zero [] h = record {
  keeps_all = refl;
  finished = unfold stream_boundary in refl;
  small = tt;
}
drain_chunks-IsDrained zero (c ∷ cs) h = absurd (omega arith)
drain_chunks-IsDrained (suc fuel) raw h = elim (Option-cases (stream_boundary raw)) [
  | inl e ↦ rw (e, drain_chunks) (record { keeps_all = refl; finished = e; small = tt })
  | inr (b, e) ↦
      let (cut, rest) = stream_boundary-IsCut raw b e in
      let head = cut.before ++ cut.last ∷ [] in
      let (to, from) = slices_at raw head cut.after b cut.splits cut.bytes in
      let r = drain_chunks-IsDrained fuel cut.after (
        omega (
          arith,
          h,
          ap length cut.splits,
          length-append head cut.after,
          length-append cut.before (cut.last ∷ []),
        )) in
      rw (e, drain_chunks, to, from)
        (record {
          keeps_all = append_assoc head _ _ ∙ ap (◌++◌ head) r.keeps_all ∙ sym cut.splits;
          finished = r.finished;
          small = (omega (arith, cut.bytes, cut.below), r.small);
        })
]

-- Draining cuts chunks of at most 2 KiB off the front until no safe cut is left, and loses no
-- character: the number of characters is fuel enough.
pub drain_chunks-IsDrained_all :
    (raw : Text) → IsDrained raw (drain_chunks (length raw) raw).0 (drain_chunks (length raw) raw).1
drain_chunks-IsDrained_all raw = drain_chunks-IsDrained (length raw) raw (omega arith)
