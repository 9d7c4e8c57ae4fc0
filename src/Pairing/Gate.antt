-- ===== src/Pairing/Gate.antt =====
-- pairing_gate.rs. An instant is a number of milliseconds. No method panics while it holds a lock, so
-- a lock is never poisoned, and its `Err` branches are left out.
use portcode.Common.{
  ℕ, ◌+◌, ◌*◌, Bool, List, [], ◌∷◌, ltb, if◌then◌else◌, Option, none, some, is_some, Text, Bytes,
  map_get, map_remove, map_insert,
}

abbrev pub pairing_window_ttl : ℕ
pairing_window_ttl = 120 * 1000

abbrev pub pairing_confirm_timeout : ℕ
pairing_confirm_timeout = 60 * 1000

pub record PairingWindow : Type 0 where
  pub nonce : Bytes
  pub expires_at : ℕ

-- The responder is the number of its oneshot channel.
pub record PendingPairing : Type 0 where
  pub responder : ℕ
  pub peer_key_b64 : Text

pub data ServeDecision : Type 0 where
  serve drop_peer prompt : ServeDecision

abbrev pub serve_decision : Bool → Bool → ServeDecision
serve_decision is_confirmed window_open =
    if is_confirmed
    then ServeDecision.serve
    else if window_open
    then ServeDecision.prompt
    else ServeDecision.drop_peer

-- `signals` holds what the oneshot channels delivered: an answer, or `none` for a dropped sender.
pub record PairingGate : Type 0 where
  pub window : Option PairingWindow
  pub pending : List (Text × PendingPairing)
  pub channels : ℕ
  pub signals : List (ℕ × Option Bool)

abbrev pub new_gate : PairingGate
new_gate = record { window = none; pending = []; channels = 0; signals = [] }

abbrev pub open_window : ℕ → Bytes → PairingGate → PairingGate
open_window now nonce g = record g {
  window = some (record { nonce = nonce; expires_at = now + pairing_window_ttl });
}

abbrev pub close_window : PairingGate → PairingGate
close_window g = record g { window = none }

abbrev active_in : ℕ → Option PairingWindow → PairingGate → Option Bytes × PairingGate
active_in now none g = (none, g)
active_in now (some w) g =
    if ltb now w.expires_at then (some w.nonce, g) else (none, record g { window = none })

unfoldable pub active_nonce : ℕ → PairingGate → Option Bytes × PairingGate
active_nonce now g = active_in now g.window g

unfoldable pub window_is_open : ℕ → PairingGate → Bool × PairingGate
unfolding active_nonce
window_is_open now g = let (nonce, after) = active_nonce now g in (is_some nonce, after)

-- The sender of an entry that is dropped unanswered.
abbrev dropped_sender : Option PendingPairing → List (ℕ × Option Bool) → List (ℕ × Option Bool)
dropped_sender none signals = signals
dropped_sender (some p) signals = (p.responder, none) ∷ signals

-- The receiver is the number of the new channel.
unfoldable pub register_pending : Text → Text → PairingGate → ℕ × PairingGate
register_pending request_id peer_key_b64 g = (
  g.channels,
  record g {
    pending =
        map_insert request_id (record { responder = g.channels; peer_key_b64 = peer_key_b64 })
          g.pending;
    channels = g.channels + 1;
    signals = dropped_sender (map_get request_id g.pending) g.signals;
  },
)

abbrev resolve : Text → Bool → Option PendingPairing → PairingGate → Option Text × PairingGate
resolve request_id accept none g = (none, g)
resolve request_id accept (some entry) g = (
  some entry.peer_key_b64,
  record g {
    pending = map_remove request_id g.pending;
    signals = (entry.responder, some accept) ∷ g.signals;
  },
)

unfoldable pub resolve_pending : Text → Bool → PairingGate → Option Text × PairingGate
resolve_pending request_id accept g = resolve request_id accept (map_get request_id g.pending) g

unfoldable pub forget_pending : Text → PairingGate → PairingGate
forget_pending request_id g = record g {
  pending = map_remove request_id g.pending;
  signals = dropped_sender (map_get request_id g.pending) g.signals;
}
