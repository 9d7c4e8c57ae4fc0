-- ===== src/Session/Loops.antt =====
-- The live loops: the desktop forwards frames and takes in commands; the phone receives and sends.
use portcode.Common.{decimal, ℕ, List, [], ◌∷◌, ◌++◌, Text, codes, Result, ok, err}
use portcode.Wire.{RemoteCommand, SyncFrame, command, ack}
use portcode.Session.Transport.{RecvError, Channel, send, and_then, closed, protocol}

-- One answer of the broadcast receiver. Past the last one the hub is closed.
pub data HubRecv (Value : Type 0) : Type 0 where
  frame : SyncFrame Value → HubRecv Value
  hub_closed : HubRecv Value
  lagged : ℕ → HubRecv Value

abbrev pub lag_error : ℕ → Text
lag_error n =
    codes "live forward lagged "
    ++ decimal n
    ++ codes
        " frames behind the broadcast buffer; reconnect + catch-up required to avoid dropping live events"

module _ {Value : Type 0} where
  unfoldable pub forward_live :
      List (HubRecv Value) → Channel Value → Result Text (Unit {0}) × Channel Value
  forward_live [] sink = (ok tt, sink)
  forward_live (frame f ∷ hub) sink = and_then (send f sink) (λ _ next. forward_live hub next)
  forward_live (hub_closed ∷ hub) sink = (ok tt, sink)
  forward_live (lagged n ∷ hub) sink = (err (lag_error n), sink)

  -- The handler keeps a state of its own; its error is dropped, its state is not.
  unfoldable pub handle_commands :
      {S : Type 0}
      → (RemoteCommand → S → Result Text (Unit {0}) × S)
      → List (Result RecvError (SyncFrame Value))
      → S
      → Result Text (Unit {0}) × S
  handle_commands handle [] s = (ok tt, s)
  handle_commands handle (ok (command c) ∷ incoming) s =
      handle_commands handle incoming (handle c s).1
  handle_commands handle (ok (ack session_id seq) ∷ incoming) s = handle_commands handle incoming s
  handle_commands handle (ok _ ∷ incoming) s = (err (codes "unexpected frame in command loop"), s)
  handle_commands handle (err closed ∷ incoming) s = (ok tt, s)
  handle_commands handle (err (protocol e) ∷ incoming) s = (err e, s)

  unfoldable pub run_client_recv :
      {S : Type 0}
      → (SyncFrame Value → S → S)
      → List (Result RecvError (SyncFrame Value))
      → S
      → Result Text (Unit {0}) × S
  run_client_recv on_frame [] s = (ok tt, s)
  run_client_recv on_frame (ok f ∷ incoming) s = run_client_recv on_frame incoming (on_frame f s)
  run_client_recv on_frame (err closed ∷ incoming) s = (ok tt, s)
  run_client_recv on_frame (err (protocol e) ∷ incoming) s = (err e, s)

  unfoldable pub send_command :
      RemoteCommand → Channel Value → Result Text (Unit {0}) × Channel Value
  send_command c sink = send (command c) sink
