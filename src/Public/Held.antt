-- ===== src/Public/Held.antt =====
-- The text that one session holds: bounds on every delta, and the end of the loop over it.
use portcode.Common.{
  ℕ, zero, suc, ◌≤◌, ◌<◌, ◌≡◌, ◌≢◌, refl, sym, ap, ◌⊎◌, true, ◌||◌, List, [], ◌∷◌, ◌++◌, inl, inr,
  arith, Bool-cases, Text, byte_len, length, length-append, slice_to, slice_from,
  slice_to-append-slice_from, byte_len-slice_to_boundary, floor_boundary-is_char_boundary,
  is_char_boundary,
}
use portcode.External.{External}
use portcode.Wire.{PhoneStreamEvent}
use portcode.Public.Bounded.{is_empty}
use portcode.Public.Stream.{
  PendingText, drain_ready_text, Append, push_events, suppress_if_full, append_chunk, append_round,
  append_take, append_loop, append_text, max_pending_text_bytes,
}

-- A session's held text stays below 64 KiB, and a suppressed session holds none.
abbrev pub IsHeld : PendingText → Type 0
IsHeld p = ((p.suppressed ≡ true) × (p.raw ≡ [])) ⊎ (byte_len p.raw < max_pending_text_bytes)

module _ {Value : Type 0} (ext : External Value) where
  push_events-le :
      (s : Append ext) (events : List (PhoneStreamEvent Value))
      → length s.events ≤ 32
      → length (push_events ext s events).events ≤ 32
  unfolding push_events
  push_events-le s [] h = h
  push_events-le s (e ∷ es) h = ground (
    arith,
    length-append s.events (e ∷ []),
    push_events-le (record s { events = s.events ++ e ∷ [] }) es,
  )

  push_events-text :
      (s : Append ext) (events : List (PhoneStreamEvent Value))
      → (push_events ext s events).text ≡ s.text
  unfolding push_events
  push_events-text s [] = refl
  push_events-text s (e ∷ es) =
      ground (arith, push_events-text (record s { events = s.events ++ e ∷ [] }) es)

  suppress_if_full-IsHeld : (s : Append ext) → IsHeld (suppress_if_full ext s).pending
  suppress_if_full-IsHeld s = ground arith

  -- What every round that takes text leaves behind.
  record IsRound (s r : Append ext) (text : Text) : Type 0 where
    held : IsHeld r.pending
    events : length r.events ≤ 32
    left : r.text ≡ text

  push_events-IsRound :
      (s : Append ext) (ready : List (PhoneStreamEvent Value))
      → length s.events ≤ 32
      → IsRound s (suppress_if_full ext (push_events ext s ready)) s.text
  push_events-IsRound s ready h =
      let r = push_events ext s ready in
      record {
        held = suppress_if_full-IsHeld r;
        events = ground (arith, push_events-le s ready h);
        left = ground (arith, push_events-text s ready);
      }

  append_chunk-lem :
      (s : Append ext) (take : ℕ)
      → length s.events ≤ 32
      → IsHeld (append_chunk ext s take).pending
        × (length (append_chunk ext s take).events ≤ 32)
        × ((append_chunk ext s take).text ≡ slice_from s.text take)
  unfolding append_chunk
  append_chunk-lem s take h =
      let held = record s.pending { raw = s.pending.raw ++ slice_to s.text take } in
      let drained = drain_ready_text ext held in
      let r =
        push_events-IsRound (record s { pending = drained.1; text = slice_from s.text take })
          drained.0 h in
      (r.held, r.events, r.left)

  shorter :
      (t : Text) (n : ℕ) → is_char_boundary t n ≡ true → n ≢ 0 → length (slice_from t n) < length t
  shorter t n b h =
      shrink (slice_to t n) (slice_to-append-slice_from t n) (byte_len-slice_to_boundary t n b)
    where
      shrink :
          (s : Text) → s ++ slice_from t n ≡ t → byte_len s ≡ n → length (slice_from t n) < length t
      shrink [] e k = absurd (h (sym k))
      shrink (c ∷ s) e k = omega (arith, ap length e, length-append (c ∷ s) (slice_from t n))

  -- A round suppresses the session, or takes a character.
  append_round-lem :
      (s : Append ext)
      → length s.events ≤ 32
      → IsHeld (append_round ext s).pending
        × (length (append_round ext s).events ≤ 32)
        × (((append_round ext s).pending.suppressed ≡ true)
            ⊎ (length (append_round ext s).text < length s.text))
  unfolding append_round
  append_round-lem s h =
      let take = append_take ext s in
      let (held, few, left) = append_chunk-lem s take h in
      ground (
        arith,
        held,
        few,
        ap length left,
        shorter s.text take (floor_boundary-is_char_boundary s.text _),
      )

  is_empty-nil : (t : Text) → is_empty t ≡ true → t ≡ []
  is_empty-nil [] h = refl
  is_empty-nil (c ∷ cs) h = cc

  stopped :
      (s : Append ext)
      → (is_empty s.text || s.pending.suppressed) ≡ true
      → (s.pending.suppressed ≡ true) ⊎ (s.text ≡ [])
  stopped s h = ground (arith, is_empty-nil s.text)

  append_loop-suppressed :
      (fuel : ℕ) (s : Append ext) → s.pending.suppressed ≡ true → append_loop ext fuel s ≡ s
  unfolding append_loop
  append_loop-suppressed zero s h = refl
  append_loop-suppressed (suc fuel) s h = ground arith

  append_loop-lem :
      (fuel : ℕ) (s : Append ext)
      → length s.text < fuel
      → length s.events ≤ 32
      → IsHeld s.pending
      → IsHeld (append_loop ext fuel s).pending
        × (length (append_loop ext fuel s).events ≤ 32)
        × (((append_loop ext fuel s).pending.suppressed ≡ true)
            ⊎ ((append_loop ext fuel s).text ≡ []))
  unfolding append_loop
  append_loop-lem zero s h k v = absurd (omega arith)
  append_loop-lem (suc fuel) s h k v = elim (Bool-cases (is_empty s.text || s.pending.suppressed)) [
    | inl done ↦ rw done (v, k, stopped s done)
    | inr more ↦
        let r = append_round ext s in
        let (held, few, progress) = append_round-lem s k in
        rw more (elim progress [
          | inl off ↦ rw (append_loop-suppressed fuel r off) (held, few, inl off)
          | inr less ↦ append_loop-lem fuel r (omega arith) few held
        ])
  ]

  -- The loop over one delta ends on its own with the fuel given: at most 32 events are ready, and the
  -- session holds less than 64 KiB or is suppressed and holds nothing.
  pub append_text-lem :
      (pending : PendingText) (text : Text)
      → IsHeld pending
      → (length (append_text ext pending text).0 ≤ 32) × IsHeld (append_text ext pending text).1
  unfolding append_text
  append_text-lem pending text v =
      let (held, few, _) =
        append_loop-lem (suc (length text)) (record { pending = pending; text = text; events = [] })
          (omega arith) (omega arith) v in
      (few, held)
