-- ===== src/Public/Retained.antt =====
-- What the live projector holds back and emits: bounds on every event, however hostile.
use portcode.Common.{
  suc, ◌≤◌, ◌≡◌, refl, true, false, not, ◌&&◌, List, [], ◌∷◌, inl, inr, arith, leb, is_some,
  unwrap_or, Option-cases, Bool-cases, Text, length, All, filter_map, push_some,
}
use portcode.External.{External}
use portcode.Wire.{StreamEvent, PhoneStreamEvent, SyncFrame, live}
use portcode.Public.Bounded.{public_identifier}
use portcode.Public.Project.{omitted_text, project_event}
use portcode.Public.Frames.{frame_fits, phone_live_frame_budget}
use portcode.Public.Stream.{
  PendingText, PhoneEventProjector, default_pending, get_pending, set_pending, append_text, frame,
  flush_pending, project_text, project_other, project_frames,
}
use portcode.Public.Held.{IsHeld, append_text-lem}
use portcode.Public.Sessions.{
  IsBounded, get_pending-IsHeld, set_pending-IsHeld, length-set_pending, remove_pending-IsHeld,
}

module _ {Value : Type 0} (ext : External Value) where
  -- A live frame of the session, within the live budget.
  abbrev pub IsLive : Text → SyncFrame Value → Type 0
  IsLive id f =
      (event : PhoneStreamEvent Value) × (f ≡ live id event)
      × (frame_fits ext f phone_live_frame_budget ≡ true)

  push_frame-IsLive :
      (id : Text) (event : PhoneStreamEvent Value) (fs : List (SyncFrame Value))
      → All (IsLive id) fs
      → All (IsLive id) (push_some (frame ext id event) fs)
        × (length (push_some (frame ext id event) fs) ≤ suc (length fs))
  unfolding frame
  push_frame-IsLive id event fs h =
      elim (Bool-cases (frame_fits ext (live id event) phone_live_frame_budget)) [
        | inl e ↦ rw e (((event, refl, e), h), omega arith)
        | inr e ↦ rw e (h, omega arith)
      ]

  filter_frames-IsLive :
      (id : Text) (events : List (PhoneStreamEvent Value))
      → All (IsLive id) (filter_map (frame ext id) events)
        × (length (filter_map (frame ext id) events) ≤ length events)
  filter_frames-IsLive id [] = (tt, omega arith)
  filter_frames-IsLive id (e ∷ es) =
      let (rest, few) = filter_frames-IsLive id es in
      let (live_, more) = push_frame-IsLive id e (filter_map (frame ext id) es) rest in
      (live_, omega arith)

  -- The result of projecting one event.
  pub record IsProjected (id : Text) (r : List (SyncFrame Value) × PhoneEventProjector)
      : Type 0 where
    pub bounded : IsBounded r.1
    pub frames : All (IsLive id) r.0
    pub few : length r.0 ≤ 32

  stored :
      (k : Text) (p : PhoneEventProjector) (after : PendingText)
      → (not (is_some (get_pending k p.pending)) && leb 32 (length p.pending)) ≡ false
      → IsBounded p
      → IsHeld after
      → IsBounded (record p { pending = set_pending k after p.pending })
  stored k p after h v a = record {
    sessions = ground (arith, length-set_pending k after p.pending, v.sessions);
    texts = set_pending-IsHeld k after p.pending a v.texts;
  }

  project_text-IsProjected :
      (id text : Text) (p : PhoneEventProjector)
      → IsBounded p
      → IsProjected id (project_text ext id text p)
  unfolding project_text
  project_text-IsProjected id text p v =
      let pending = unwrap_or (get_pending id p.pending) default_pending in
      let held = get_pending-IsHeld id p.pending v.texts in
      let (few, after) = append_text-lem ext pending text held in
      let (live_, less) = filter_frames-IsLive id (append_text ext pending text).0 in
      let (one, single) = push_frame-IsLive id (PhoneStreamEvent.text_delta omitted_text) [] tt in
      elim (Bool-cases (not (is_some (get_pending id p.pending)) && leb 32 (length p.pending))) [
        | inl full ↦ rw full (record { bounded = v; frames = one; few = omega arith })
        | inr room ↦ rw room (elim (Bool-cases pending.suppressed) [
          | inl off ↦
              rw off (record {
                bounded = stored id p pending room v held;
                frames = tt;
                few = omega arith;
              })
          | inr on ↦
              rw on
                (record { bounded = stored id p _ room v after; frames = live_; few = omega arith })
        ])
      ]

  flush_pending-IsBounded :
      (id : Text) (p : PhoneEventProjector) → IsBounded p → IsBounded (flush_pending ext id p).1
  unfolding flush_pending
  flush_pending-IsBounded id p v =
      let (rest, less) = remove_pending-IsHeld id p.pending v.texts in
      elim (Option-cases (get_pending id p.pending)) [
        | inl e ↦ rw (e, flush_pending) v
        | inr (q, e) ↦
            rw (e, flush_pending) (record { sessions = omega (arith, v.sessions); texts = rest })
      ]

  project_other-IsProjected :
      (id : Text) (event : StreamEvent Value) (p : PhoneEventProjector)
      → IsBounded p
      → IsProjected id (project_other ext id event p)
  unfolding project_other
  project_other-IsProjected id event p v =
      let (last, one) = push_frame-IsLive id (project_event ext event) [] tt in
      let flushed = flush_pending-IsBounded id p v in
      elim (Option-cases (flush_pending ext id p).0) [
        | inl e ↦
            rw (e, project_other) (record { bounded = flushed; frames = last; few = omega arith })
        | inr (text, e) ↦
            let (all_, two) = push_frame-IsLive id text _ last in
            rw (e, project_other) (record { bounded = flushed; frames = all_; few = omega arith })
      ]

  -- Whatever the event: at most 32 frames come out, each a live frame of the session's public
  -- identifier within the live budget, and the projector stays within its bounds.
  pub project_frames-IsProjected :
      (session_id : Text) (event : StreamEvent Value) (p : PhoneEventProjector)
      → IsBounded p
      → IsProjected (public_identifier ext session_id) (project_frames ext session_id event p)
  unfolding project_frames
  project_frames-IsProjected session_id (StreamEvent.text_delta text) p v =
      project_text-IsProjected (public_identifier ext session_id) text p v
  project_frames-IsProjected session_id event p v =
      project_other-IsProjected (public_identifier ext session_id) event p v
