-- ===== src/Session/Intake.antt =====
-- The live loops: no gap in what is forwarded, no command lost or repeated.
use portcode.Common.{
  ◌≡◌, refl, sym, ap, ◌∙◌, Bool, true, false, List, [], ◌∷◌, ◌++◌, map, append_assoc, append-nil,
  Text, codes, all, Result, ok, err, is_ok, IsPrefix, IsPrefix-nil, IsPrefix-cons,
}
use portcode.Wire.{RemoteCommand, SyncFrame, command, ack}
use portcode.Session.Transport.{RecvError, Channel, closed, protocol}
use portcode.Session.Loops.{HubRecv, frame, hub_closed, lagged, forward_live, handle_commands}

-- The handler's states, one command after the other.
abbrev pub dispatch :
    {S : Type 0} → (RemoteCommand → S → Result Text (Unit {0}) × S) → List RemoteCommand → S → S
dispatch handle [] s = s
dispatch handle (c ∷ cs) s = dispatch handle cs (handle c s).1

module _ {Value : Type 0} where
  -- The frames that the hub delivers before it closes or reports a lag.
  abbrev pub delivered : List (HubRecv Value) → List (SyncFrame Value)
  delivered (frame f ∷ hub) = f ∷ delivered hub
  delivered _ = []

  -- The hub reports no lag before it closes.
  abbrev pub no_lag : List (HubRecv Value) → Bool
  no_lag (frame f ∷ hub) = no_lag hub
  no_lag (lagged n ∷ hub) = false
  no_lag _ = true

  -- What a forwarding run did: it sent a first part of the delivered frames behind those sent before, and
  -- if it ended well then all of them, with no lag.
  pub record IsForwarded (hub : List (HubRecv Value)) (sent : List (SyncFrame Value))
      (r : Result Text (Unit {0}) × Channel Value) : Type 0 where
    pub forwarded : List (SyncFrame Value)
    pub appended : r.1.sent ≡ sent ++ forwarded
    pub is_prefix : IsPrefix forwarded (delivered hub)
    pub complete : is_ok r.0 ≡ true → (forwarded ≡ delivered hub) × (no_lag hub ≡ true)

  IsForwarded-cons :
      (f : SyncFrame Value) (hub : List (HubRecv Value)) (sent : List (SyncFrame Value))
      (r : Result Text (Unit {0}) × Channel Value)
      → IsForwarded hub (sent ++ f ∷ []) r
      → IsForwarded (frame f ∷ hub) sent r
  IsForwarded-cons f hub sent r v = record {
    forwarded = f ∷ v.forwarded;
    appended = v.appended ∙ append_assoc sent (f ∷ []) v.forwarded;
    is_prefix = IsPrefix-cons f v.is_prefix;
    complete = λ h. (ap (◌∷◌ f) (v.complete h).0, (v.complete h).1);
  }

  nothing-IsForwarded :
      (hub : List (HubRecv Value)) (sink : Channel Value)
      (r : Result Text (Unit {0}) × Channel Value)
      → r.1.sent ≡ sink.sent
      → (is_ok r.0 ≡ true → ([] ≡ delivered hub) × (no_lag hub ≡ true))
      → IsForwarded hub sink.sent r
  nothing-IsForwarded hub sink r e h = record {
    forwarded = [];
    appended = e ∙ sym (append-nil sink.sent);
    is_prefix = IsPrefix-nil _;
    complete = h;
  }

  forward_live-lem :
      (hub : List (HubRecv Value)) (i : List (Result RecvError (SyncFrame Value)))
      (os : List (Result Text (Unit {0}))) (sent : List (SyncFrame Value))
      → IsForwarded hub sent
          (forward_live hub (record { incoming = i; outcomes = os; sent = sent }))
  unfolding forward_live
  forward_live-lem [] i os sent =
      nothing-IsForwarded [] (record { incoming = i; outcomes = os; sent = sent }) _ refl
        (λ h. (refl, refl))
  forward_live-lem (hub_closed ∷ hub) i os sent =
      nothing-IsForwarded (hub_closed ∷ hub) (record { incoming = i; outcomes = os; sent = sent }) _
        refl (λ h. (refl, refl))
  forward_live-lem (lagged n ∷ hub) i os sent =
      nothing-IsForwarded (lagged n ∷ hub) (record { incoming = i; outcomes = os; sent = sent }) _
        refl (λ h. cc)
  forward_live-lem (frame f ∷ hub) i [] sent =
      IsForwarded-cons f hub sent _ (forward_live-lem hub i [] (sent ++ f ∷ []))
  forward_live-lem (frame f ∷ hub) i (ok t ∷ os) sent =
      IsForwarded-cons f hub sent _ (forward_live-lem hub i os (sent ++ f ∷ []))
  forward_live-lem (frame f ∷ hub) i (err e ∷ os) sent =
      nothing-IsForwarded (frame f ∷ hub)
        (record { incoming = i; outcomes = err e ∷ os; sent = sent }) _ refl (λ h. cc)

  -- Forwarding sends the hub's frames in order and without a gap, whichever send fails. It ends well only
  -- if it sent every frame up to the hub's close and the hub reported no lag.
  pub forward_live-IsForwarded :
      (hub : List (HubRecv Value)) (sink : Channel Value)
      → IsForwarded hub sink.sent (forward_live hub sink)
  forward_live-IsForwarded hub sink = forward_live-lem hub sink.incoming sink.outcomes sink.sent

  abbrev pub is_intake : SyncFrame Value → Bool
  is_intake (command c) = true
  is_intake (ack session_id seq) = true
  is_intake _ = false

  abbrev pub goes_on : Result RecvError (SyncFrame Value) → Bool
  goes_on (ok f) = is_intake f
  goes_on (err e) = false

  abbrev pub commands_of : List (SyncFrame Value) → List RemoteCommand
  commands_of [] = []
  commands_of (command c ∷ frames) = c ∷ commands_of frames
  commands_of (_ ∷ frames) = commands_of frames

  -- How the answer that ends the intake is returned.
  abbrev pub verdict : Result RecvError (SyncFrame Value) → Result Text (Unit {0})
  verdict (ok f) = err (codes "unexpected frame in command loop")
  verdict (err closed) = ok tt
  verdict (err (protocol e)) = err e

  module _ {S : Type 0} (handle : RemoteCommand → S → Result Text (Unit {0}) × S) where
    stops :
        (stop : Result RecvError (SyncFrame Value))
        (rest : List (Result RecvError (SyncFrame Value))) (s : S)
        → goes_on stop ≡ false
        → handle_commands handle (stop ∷ rest) s ≡ (verdict stop, s)
    unfolding handle_commands
    stops (err closed) rest s h = refl
    stops (err (protocol e)) rest s h = refl
    stops (ok (command c)) rest s h = cc
    stops (ok (ack session_id seq)) rest s h = cc
    stops (ok _) rest s h = refl

    -- Intake hands every command to the handler once and in order, skips acknowledgements, goes on behind
    -- a command that the handler rejects, and ends at the first other answer of the transport: well at a
    -- clean close, and otherwise with an error.
    pub handle_commands-dispatch :
        (frames : List (SyncFrame Value)) (stop : Result RecvError (SyncFrame Value))
        (rest : List (Result RecvError (SyncFrame Value))) (s : S)
        → all is_intake frames ≡ true
        → goes_on stop ≡ false
        → handle_commands handle (map ok frames ++ stop ∷ rest) s
          ≡ (verdict stop, dispatch handle (commands_of frames) s)
    unfolding handle_commands
    handle_commands-dispatch [] stop rest s h k = stops stop rest s k
    handle_commands-dispatch (command c ∷ frames) stop rest s h k =
        handle_commands-dispatch frames stop rest (handle c s).1 h k
    handle_commands-dispatch (ack session_id seq ∷ frames) stop rest s h k =
        handle_commands-dispatch frames stop rest s h k
    handle_commands-dispatch (_ ∷ frames) stop rest s h k = absurd cc
