-- ===== src/Hub.antt =====
-- src-tauri/src/sync/mod.rs: `SyncHub`, which fans live events out to the attached phones. The
-- broadcast channel is tokio's: a send reaches every receiver, and fails when there is none.
use portcode.Common.{
  ℕ, zero, suc, ◌+◌, Bool, true, false, not, ◌&&◌, ◌||◌, List, [], ◌∷◌, ◌++◌, ◌==◌, if◌then◌else◌,
  Option, none, some, Text, codes,
}
use portcode.External.{External}
use portcode.Wire.{StreamEvent, SyncFrame}
use portcode.Public.{
  PhoneEventProjector, new_projector, clear, project_frames, valid_remote_identifier,
}
pub mod Mirror

-- The receivers attached, the projector, and the frames sent so far.
pub record SyncHub (Value : Type 0) : Type 0 where
  pub receivers : ℕ
  pub projector : PhoneEventProjector
  pub sent : List (SyncFrame Value)

abbrev pub agent_channel_prefix : Text
agent_channel_prefix = codes "agent://"

unfoldable pub strip_prefix : Text → Text → Option Text
strip_prefix [] t = some t
strip_prefix (p ∷ ps) [] = none
strip_prefix (p ∷ ps) (c ∷ cs) = let rest = strip_prefix ps cs in if p == c then rest else none

module _ {Value : Type 0} where
  abbrev pub new_hub : SyncHub Value
  new_hub = record { receivers = 0; projector = new_projector; sent = [] }

  abbrev pub subscriber_count : SyncHub Value → ℕ
  subscriber_count hub = hub.receivers

  -- `tx.send(frame).is_ok()`
  abbrev pub send_frame : SyncFrame Value → SyncHub Value → Bool × SyncHub Value
  send_frame frame hub =
      if hub.receivers == 0
      then (false, hub)
      else (true, record hub { sent = hub.sent ++ frame ∷ [] })

  unfoldable pub subscribe : SyncHub Value → SyncHub Value
  subscribe hub =
      let attached = record hub { receivers = hub.receivers + 1 } in
      if hub.receivers == 0 then record attached { projector = clear hub.projector } else attached

  unfoldable pub publish_frame : SyncFrame Value → SyncHub Value → Bool × SyncHub Value
  publish_frame frame hub = if subscriber_count hub == 0 then (false, hub) else send_frame frame hub

  -- The loop over the projected frames.
  unfoldable pub send_frames : Bool → List (SyncFrame Value) → SyncHub Value → Bool × SyncHub Value
  send_frames published [] hub = (published, hub)
  send_frames published (frame ∷ frames) hub =
      let (reached, after) = send_frame frame hub in send_frames (reached || published) frames after

module _ {Value : Type 0} (ext : External Value) where
  abbrev pub mirror : Text → StreamEvent Value → SyncHub Value → Bool × SyncHub Value
  mirror session_id event hub =
      let (frames, projector) = project_frames ext session_id event hub.projector in
      send_frames false frames (record hub { projector = projector })

  abbrev pub mirror_valid : Option Text → StreamEvent Value → SyncHub Value → Bool × SyncHub Value
  mirror_valid none event hub = (false, hub)
  mirror_valid (some session_id) event hub =
      if valid_remote_identifier session_id then mirror session_id event hub else (false, hub)

  unfoldable pub publish : Text → StreamEvent Value → SyncHub Value → Bool × SyncHub Value
  publish channel event hub =
      if subscriber_count hub == 0
      then (false, hub)
      else mirror_valid (strip_prefix agent_channel_prefix channel) event hub
