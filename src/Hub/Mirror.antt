-- ===== src/Hub/Mirror.antt =====
-- What publishing an event does to the hub, on every branch.
use portcode.Common.{
  ◌≤◌, ◌≡◌, refl, sym, ap, ◌⊎◌, Bool, true, false, not, ◌||◌, List, [], ◌∷◌, ◌++◌, inl, inr, arith,
  append_assoc, append-nil, ◌==◌, Bool-cases, some, Option-cases, Text, All, length,
}
use portcode.External.{External}
use portcode.Wire.{StreamEvent, SyncFrame}
use portcode.Public.{public_identifier, project_frames, valid_remote_identifier}
use portcode.Public.Sessions.{IsBounded}
use portcode.Public.Retained.{IsLive, project_frames-IsProjected}
use portcode.Hub.{SyncHub, agent_channel_prefix, strip_prefix, send_frames, mirror, publish}

pub strip_prefix-append : (p t r : Text) → strip_prefix p t ≡ some r → t ≡ p ++ r
unfolding strip_prefix
strip_prefix-append [] t r h = cc
strip_prefix-append (p ∷ ps) [] r h = absurd cc
strip_prefix-append (p ∷ ps) (c ∷ cs) r h = elim (Bool-cases (p == c)) [
  | inl e ↦ let k : p ≡ c = ground arith in let t = strip_prefix-append ps cs r (rw e at h) in cc
  | inr e ↦ absurd (let t = rw e at h in cc)
]

abbrev is_nil : {A : Type 0} → List A → Bool
is_nil [] = true
is_nil (x ∷ xs) = false

or_true : (b : Bool) → (b || true) ≡ true
or_true true = refl
or_true false = refl

module _ {Value : Type 0} where
  send_frames-lem :
      (b : Bool) (frames : List (SyncFrame Value)) (hub : SyncHub Value)
      → (hub.receivers == 0) ≡ false
      → send_frames b frames hub
        ≡ (not (is_nil frames) || b, record hub { sent = hub.sent ++ frames })
  unfolding send_frames
  send_frames-lem b [] hub h = ap (λ t. (b, record hub { sent = t })) (sym (append-nil hub.sent))
  send_frames-lem b (f ∷ fs) hub h =
      rw
        (
          h,
          send_frames-lem true fs (record hub { sent = hub.sent ++ f ∷ [] }) h,
          or_true (not (is_nil fs)),
          append_assoc hub.sent (f ∷ []) fs,
        )
        refl

module _ {Value : Type 0} (ext : External Value) where
  -- What one call of `publish` did.
  pub record IsPublished (channel : Text) (before : SyncHub Value) (r : Bool × SyncHub Value)
      : Type 0 where
    pub frames : List (SyncFrame Value)
    pub appended : r.1.sent ≡ before.sent ++ frames
    pub reported : r.0 ≡ not (is_nil frames)
    pub bounded : IsBounded r.1.projector
    pub few : length frames ≤ 32
    pub mirrored :
        (frames ≡ [])
        ⊎ ((id : Text) × (channel ≡ agent_channel_prefix ++ id)
            × (valid_remote_identifier id ≡ true)
            × All (IsLive ext (public_identifier ext id)) frames)

  unchanged :
      (channel : Text) (hub : SyncHub Value)
      → IsBounded hub.projector
      → IsPublished channel hub (false, hub)
  unchanged channel hub v = record {
    frames = [];
    appended = sym (append-nil hub.sent);
    reported = refl;
    bounded = v;
    few = omega arith;
    mirrored = inl refl;
  }

  mirror-IsPublished :
      (channel id : Text) (event : StreamEvent Value) (hub : SyncHub Value)
      → channel ≡ agent_channel_prefix ++ id
      → valid_remote_identifier id ≡ true
      → (hub.receivers == 0) ≡ false
      → IsBounded hub.projector
      → IsPublished channel hub (mirror ext id event hub)
  mirror-IsPublished channel id event hub e k h v =
      let p = project_frames-IsProjected ext id event hub.projector v in
      let projected = project_frames ext id event hub.projector in
      rw (send_frames-lem false projected.0 (record hub { projector = projected.1 }) h) (record {
        frames = projected.0;
        appended = refl;
        reported = or_false (not (is_nil projected.0));
        bounded = p.bounded;
        few = p.few;
        mirrored = inr (id, e, k, p.frames);
      })
    where
      or_false : (b : Bool) → (b || false) ≡ b
      or_false true = refl
      or_false false = refl

  -- Publishing an event sends at most 32 frames, each a live frame of the public identifier of the
  -- session that the channel names. It sends nothing if the channel names no session by a valid
  -- identifier. It reports whether it sent any, and keeps the projector bounded.
  pub publish-IsPublished :
      (channel : Text) (event : StreamEvent Value) (hub : SyncHub Value)
      → IsBounded hub.projector
      → IsPublished channel hub (publish ext channel event hub)
  unfolding publish
  publish-IsPublished channel event hub v = elim (Bool-cases (hub.receivers == 0)) [
    | inl nobody ↦ rw nobody (unchanged channel hub v)
    | inr some_ ↦ elim (Option-cases (strip_prefix agent_channel_prefix channel)) [
      | inl e ↦ rw (some_, e) (unchanged channel hub v)
      | inr (id, e) ↦ elim (Bool-cases (valid_remote_identifier id)) [
        | inl k ↦
            rw (some_, e, k)
              (mirror-IsPublished channel id event hub (strip_prefix-append _ channel id e) k some_
                v)
        | inr k ↦ rw (some_, e, k) (unchanged channel hub v)
      ]
    ]
  ]
