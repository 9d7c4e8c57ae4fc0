-- ===== src/Pairing/Serve.antt =====
-- lib.rs: the part of `serve_connection` that decides trust, and the commands that answer a prompt.
use portcode.Common.{
  ℕ, Bool, true, false, List, [], ◌∷◌, if◌then◌else◌, Option, none, some, ℤ, Text, codes, Result,
  ok, err,
}
use portcode.Wire.{Cursor, SyncFrame, hello}
use portcode.Session.{RecvError}
use portcode.Pairing.Gate.{
  PairingGate, ServeDecision, serve_decision, serve, drop_peer, prompt, window_is_open,
  register_pending, resolve_pending, forget_pending, close_window,
}
use portcode.Pairing.Devices.{
  PairedDevice, add_paired_device, confirm_paired_device, is_device_confirmed,
}

pub record Desktop : Type 0 where
  pub gate : PairingGate
  pub devices : List PairedDevice

-- What the trust gate makes of a connection: serve it, drop it, or prompt and await a channel.
pub data Admission : Type 0 where
  serves : Admission
  drops : Admission
  prompts : (receiver : ℕ) → Admission

-- `stored` says whether the statement on the device's row ran; its error is dropped.
abbrev admit : Text → Text → ℤ → Bool → ServeDecision → Desktop → Admission × Desktop
admit request_id pk ts stored serve d = (
  serves,
  if stored then record d { devices = add_paired_device pk (codes "Phone") ts d.devices } else d,
)
admit request_id pk ts stored drop_peer d = (drops, d)
admit request_id pk ts stored prompt d =
    let (receiver, gate) = register_pending request_id pk d.gate in
    (prompts receiver, record d { gate = gate })

-- Up to the prompt. `readable` says whether the query of the device's row runs, `request_id` is the fresh UUID, `pk` the peer's key in base64, if it has one.
unfoldable pub connect : ℕ → ℤ → Bool → Bool → Text → Option Text → Desktop → Admission × Desktop
connect now ts readable stored request_id none d = (drops, d)
connect now ts readable stored request_id (some pk) d =
    let (open_, gate) = window_is_open now d.gate in
    admit request_id pk ts stored (serve_decision (is_device_confirmed readable pk d.devices) open_)
      (record d { gate = gate })

-- One result of the `select!`: the oneshot (`none` when its sender was dropped), the timeout, or a frame.
pub data Awaited (Value : Type 0) : Type 0 where
  decided : (answer : Option Bool) → Awaited Value
  timed_out : Awaited Value
  inbound : Result RecvError (SyncFrame Value) → Awaited Value

pub record Outcome : Type 0 where
  pub confirmed : Bool
  pub desktop_rejected : Bool
  pub prefetched_cursors : Option (List Cursor)
  pub gate : PairingGate

abbrev give_up : Text → Option (List Cursor) → PairingGate → Outcome
give_up request_id cursors g = record {
  confirmed = false;
  desktop_rejected = false;
  prefetched_cursors = cursors;
  gate = forget_pending request_id g;
}

module _ {Value : Type 0} (request_id : Text) where
  -- The loop of the prompt. The timeout ends it at the latest, so it ends the list too.
  unfoldable pub await_decision :
      List (Awaited Value) → Option (List Cursor) → PairingGate → Outcome
  await_decision [] cursors g = give_up request_id cursors g
  await_decision (decided (some true) ∷ events) cursors g = record {
    confirmed = true;
    desktop_rejected = false;
    prefetched_cursors = cursors;
    gate = g;
  }
  await_decision (decided (some false) ∷ events) cursors g = record {
    confirmed = false;
    desktop_rejected = true;
    prefetched_cursors = cursors;
    gate = g;
  }
  await_decision (decided none ∷ events) cursors g = record {
    confirmed = false;
    desktop_rejected = false;
    prefetched_cursors = cursors;
    gate = g;
  }
  await_decision (timed_out ∷ events) cursors g = give_up request_id cursors g
  await_decision (inbound (ok (hello device_id sent)) ∷ events) cursors g =
      await_decision events (some sent) g
  await_decision (inbound _ ∷ events) cursors g = give_up request_id cursors g

abbrev pub confirm_key :
    Text → ℤ → Result Text (Unit {0}) → Option Text → Desktop → Result Text (Unit {0}) × Desktop
confirm_key request_id ts answer none d = (ok tt, d)
confirm_key request_id ts (err e) (some key) d = (err e, d)
confirm_key request_id ts (ok _) (some key) d = (
  ok tt,
  record {
    gate = close_window d.gate;
    devices = confirm_paired_device key (codes "Phone") ts d.devices;
  },
)

-- `answer` is the database's answer to the statement; an error leaves its rows alone.
unfoldable pub confirm_pairing :
    Text → ℤ → Result Text (Unit {0}) → Desktop → Result Text (Unit {0}) × Desktop
confirm_pairing request_id ts answer d =
    let (key, gate) = resolve_pending request_id true d.gate in
    confirm_key request_id ts answer key (record d { gate = gate })

unfoldable pub reject_pairing : Text → Desktop → Desktop
reject_pairing request_id d = record d { gate = (resolve_pending request_id false d.gate).1 }
