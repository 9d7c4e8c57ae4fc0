-- ===== src/Session/Transport.antt =====
-- A frame channel: the traits `FrameSink` and `FrameSource` with the transport's answers written down.
use portcode.Common.{List, [], ◌∷◌, ◌++◌, Text, codes, Result, ok, err}
use portcode.Wire.{SyncFrame}

pub data RecvError : Type 0 where
  closed : RecvError
  protocol : Text → RecvError

-- `String::from(e)`
abbrev pub error_text : RecvError → Text
error_text closed = codes "channel closed"
error_text (protocol e) = e

-- What the transport will answer to each receive and each send to come, and the frames it accepted. A
-- receive past the last answer finds the channel closed; a send past the last one succeeds.
pub record Channel (Value : Type 0) : Type 0 where
  pub incoming : List (Result RecvError (SyncFrame Value))
  pub outcomes : List (Result Text (Unit {0}))
  pub sent : List (SyncFrame Value)

module _ {Value : Type 0} where
  -- A channel on which no send fails.
  abbrev pub open_channel :
      List (Result RecvError (SyncFrame Value)) → List (SyncFrame Value) → Channel Value
  open_channel incoming sent = record { incoming = incoming; outcomes = []; sent = sent }

  abbrev received :
      List (Result RecvError (SyncFrame Value))
      → Channel Value
      → Result RecvError (SyncFrame Value) × Channel Value
  received [] ch = (err closed, ch)
  received (r ∷ rs) ch = (r, record ch { incoming = rs })

  abbrev pub recv : Channel Value → Result RecvError (SyncFrame Value) × Channel Value
  recv ch = received ch.incoming ch

  abbrev answered :
      SyncFrame Value
      → List (Result Text (Unit {0}))
      → Channel Value
      → Result Text (Unit {0}) × Channel Value
  answered frame [] ch = (ok tt, record ch { sent = ch.sent ++ frame ∷ [] })
  answered frame (ok _ ∷ os) ch = (ok tt, record ch { outcomes = os; sent = ch.sent ++ frame ∷ [] })
  answered frame (err e ∷ os) ch = (err e, record ch { outcomes = os })

  abbrev pub send : SyncFrame Value → Channel Value → Result Text (Unit {0}) × Channel Value
  send frame ch = answered frame ch.outcomes ch

  -- `?` on a step of the channel.
  abbrev pub and_then :
      {A B : Type 0}
      → Result Text A × Channel Value
      → (A → Channel Value → Result Text B × Channel Value)
      → Result Text B × Channel Value
  and_then (ok a, ch) f = f a ch
  and_then (err e, ch) f = (err e, ch)

  -- `recv().await?`, where the error becomes a text.
  abbrev text_error :
      Result RecvError (SyncFrame Value) × Channel Value
      → Result Text (SyncFrame Value) × Channel Value
  text_error (ok frame, ch) = (ok frame, ch)
  text_error (err e, ch) = (err (error_text e), ch)

  abbrev pub recv? : Channel Value → Result Text (SyncFrame Value) × Channel Value
  recv? ch = text_error (recv ch)
