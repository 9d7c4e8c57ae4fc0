-- ===== src/Public/Stream.antt =====
-- sync/public.rs: `PhoneEventProjector`, the stateful projector of the live stream.
use portcode.Common.{
  ℕ, zero, suc, ◌-◌, ◌*◌, min, Bool, true, false, not, ◌&&◌, ◌||◌, List, [], ◌∷◌, ◌++◌, leb, ◌==◌,
  if◌then◌else◌, Option, none, some, is_some, unwrap_or, Text, same, byte_len, length, filter_map,
  push_some, slice_to, slice_from, floor_boundary,
}
use portcode.External.{External}
use portcode.Wire.{StreamEvent, PhoneStreamEvent, SyncFrame, live}
use portcode.Public.Bounded.{is_empty, bounded_public_text, public_identifier}
use portcode.Public.Project.{project_event, omitted_text, max_live_text_bytes}
use portcode.Public.Frames.{frame_fits, phone_live_frame_budget}
use portcode.Public.Boundary.{stream_boundary}

abbrev pub max_pending_sessions : ℕ
max_pending_sessions = 32

abbrev pub text_append_chunk_bytes : ℕ
text_append_chunk_bytes = 4 * 1024

abbrev pub max_live_frames_per_event : ℕ
max_live_frames_per_event = 32

abbrev pub max_pending_text_bytes : ℕ
max_pending_text_bytes = 64 * 1024

pub record PendingText : Type 0 where
  pub raw : Text
  pub suppressed : Bool

-- `HashMap<String, PendingText>`, keyed by the public session identifier.
pub record PhoneEventProjector : Type 0 where
  pub pending : List (Text × PendingText)

unfoldable pub get_pending : Text → List (Text × PendingText) → Option PendingText
get_pending k [] = none
get_pending k ((j, p) ∷ m) = if same j k then some p else get_pending k m

unfoldable pub set_pending :
    Text → PendingText → List (Text × PendingText) → List (Text × PendingText)
set_pending k p [] = (k, p) ∷ []
set_pending k p ((j, q) ∷ m) = if same j k then (k, p) ∷ m else (j, q) ∷ set_pending k p m

unfoldable pub remove_pending : Text → List (Text × PendingText) → List (Text × PendingText)
remove_pending k [] = []
remove_pending k ((j, q) ∷ m) =
    let rest = remove_pending k m in if same j k then m else (j, q) ∷ rest

abbrev pub default_pending : PendingText
default_pending = record { raw = []; suppressed = false }

pub new_projector : PhoneEventProjector
new_projector = record { pending = [] }

pub clear : PhoneEventProjector → PhoneEventProjector
clear p = record p { pending = [] }

abbrev pub suppress_pending : PendingText → PendingText
suppress_pending pending = record { raw = []; suppressed = true }

-- The raw chunks that `drain_ready_text` splits off, and the tail that it keeps. Every chunk holds a
-- character, so the number of characters is fuel enough.
unfoldable pub drain_chunks : ℕ → Text → List Text × Text
drain_chunks zero raw = ([], raw)
drain_chunks (suc fuel) raw = elim (stream_boundary raw) [
  | none ↦ ([], raw)
  | some boundary ↦
      let (chunks, tail) = drain_chunks fuel (slice_from raw boundary) in
      (slice_to raw boundary ∷ chunks, tail)
]

module _ {Value : Type 0} (ext : External Value) where
  -- A bounded public text as an event, unless it is empty.
  unfoldable pub text_event : Text → Option (PhoneStreamEvent Value)
  text_event text = if is_empty text then none else some (PhoneStreamEvent.text_delta text)

  unfoldable pub chunk_event : Text → Option (PhoneStreamEvent Value)
  unfolding text_event
  chunk_event chunk = text_event (bounded_public_text ext chunk max_live_text_bytes)

  unfoldable pub drain_ready_text : PendingText → List (PhoneStreamEvent Value) × PendingText
  unfolding drain_chunks chunk_event
  drain_ready_text pending =
      let (chunks, tail) = drain_chunks (length pending.raw) pending.raw in
      (filter_map chunk_event chunks, record pending { raw = tail })

  -- The variables of the loop of `append_text`.
  pub record Append : Type 0 where
    pub pending : PendingText
    pub text : Text
    pub events : List (PhoneStreamEvent Value)

  -- The inner loop over the drained events.
  unfoldable pub push_events : Append → List (PhoneStreamEvent Value) → Append
  push_events s [] = s
  push_events s (event ∷ events) =
      let rest = push_events (record s { events = s.events ++ event ∷ [] }) events in
      if length s.events == max_live_frames_per_event
      then record s { pending = suppress_pending s.pending }
      else rest

  abbrev pub suppress_append : Append → Append
  suppress_append s = record s { pending = suppress_pending s.pending }

  abbrev pub suppress_if_full : Append → Append
  suppress_if_full s =
      if leb max_pending_text_bytes (byte_len s.pending.raw) then suppress_append s else s

  abbrev pub append_room : Append → ℕ
  append_room s = max_pending_text_bytes - byte_len s.pending.raw

  abbrev pub append_take : Append → ℕ
  append_take s =
      floor_boundary s.text (min (min (byte_len s.text) (append_room s)) text_append_chunk_bytes)

  -- The rest of one round of `append_text`, with `take` bytes taken.
  unfoldable pub append_chunk : Append → ℕ → Append
  unfolding drain_ready_text push_events
  append_chunk s take =
      let held = record s.pending { raw = s.pending.raw ++ slice_to s.text take } in
      let (ready, pending) = drain_ready_text held in
      suppress_if_full
        (push_events (record s { pending = pending; text = slice_from s.text take }) ready)

  unfoldable pub append_round : Append → Append
  unfolding append_chunk
  append_round s =
      if leb max_live_frames_per_event (length s.events)
      then suppress_append s
      else if append_room s == 0
      then suppress_append s
      else if append_take s == 0
      then suppress_append s
      else append_chunk s (append_take s)

  unfoldable pub append_loop : ℕ → Append → Append
  unfolding append_round
  append_loop zero s = s
  append_loop (suc fuel) s =
      let rest = append_loop fuel (append_round s) in
      if is_empty s.text || s.pending.suppressed then s else rest

  -- Every round takes a character or suppresses the session, so this fuel is enough.
  unfoldable pub append_text : PendingText → Text → List (PhoneStreamEvent Value) × PendingText
  unfolding append_loop
  append_text pending text =
      let s =
        append_loop (suc (length text)) (record { pending = pending; text = text; events = [] }) in
      (s.events, s.pending)

  unfoldable pub frame : Text → PhoneStreamEvent Value → Option (SyncFrame Value)
  frame session_id event =
      if frame_fits ext (live session_id event) phone_live_frame_budget
      then some (live session_id event)
      else none

  unfoldable pub flush_event : PendingText → Option (PhoneStreamEvent Value)
  unfolding text_event
  flush_event pending = text_event (
      if pending.suppressed
      then omitted_text
      else bounded_public_text ext pending.raw max_live_text_bytes)

  unfoldable pub flush_pending :
      Text → PhoneEventProjector → Option (PhoneStreamEvent Value) × PhoneEventProjector
  unfolding flush_event get_pending remove_pending
  flush_pending session_id p = elim (get_pending session_id p.pending) [
    | none ↦ (none, p)
    | some pending ↦
        (flush_event pending, record p { pending = remove_pending session_id p.pending })
  ]

  -- A text delta, for the public session identifier.
  unfoldable pub project_text :
      Text → Text → PhoneEventProjector → List (SyncFrame Value) × PhoneEventProjector
  project_text session_id text p =
      let held = get_pending session_id p.pending in
      let pending = unwrap_or held default_pending in
      let (ready, after) = append_text pending text in
      if not (is_some held) && leb max_pending_sessions (length p.pending)
      then (push_some (frame session_id (PhoneStreamEvent.text_delta omitted_text)) [], p)
      else if pending.suppressed
      then ([], record p { pending = set_pending session_id pending p.pending })
      else (
        filter_map (frame session_id) ready,
        record p { pending = set_pending session_id after p.pending },
      )

  -- Any other event.
  unfoldable pub project_other :
      Text → StreamEvent Value → PhoneEventProjector → List (SyncFrame Value) × PhoneEventProjector
  unfolding flush_pending frame
  project_other session_id event p =
      let (text, q) = flush_pending session_id p in
      (
        push_some (elim text [ none ↦ none | some e ↦ frame session_id e ])
            (push_some (frame session_id (project_event ext event)) []),
        q,
      )

  unfoldable pub project_frames :
      Text → StreamEvent Value → PhoneEventProjector → List (SyncFrame Value) × PhoneEventProjector
  unfolding project_text project_other
  project_frames session_id (StreamEvent.text_delta text) p =
      project_text (public_identifier ext session_id) text p
  project_frames session_id event p = project_other (public_identifier ext session_id) event p
