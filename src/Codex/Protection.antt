-- ===== src/Codex/Protection.antt =====
-- Terminal events in the deferred queue: no other event displaces them.
use portcode.Common.{◌≡◌, Bool, true, false, List, [], ◌∷◌, ◌++◌, ◌⊎◌, if◌then◌else◌}
use portcode.Codex.{DeferredEvent}
use portcode.Codex.Room.{AllTerminal}

module _ {Event : Type 0} where
  abbrev pub terminals : List (DeferredEvent Event) → List (DeferredEvent Event)
  terminals [] = []
  terminals (e ∷ es) = if e.terminal then e ∷ terminals es else terminals es

  -- A terminal event is stored, and loses terminal events only when nothing else is left.
  pub record IsStored (event : DeferredEvent Event) (es : List (DeferredEvent Event))
      (inserted : Bool) (out : List (DeferredEvent Event)) : Type 0 where
    pub stored : inserted ≡ true
    pub lost : List (DeferredEvent Event)
    pub in_order : terminals es ++ (event ∷ []) ≡ lost ++ terminals out
    pub only_terminal : (lost ≡ []) ⊎ AllTerminal out

  -- What enqueueing promises by the kind of the event.
  abbrev pub Promise :
      DeferredEvent Event
      → List (DeferredEvent Event)
      → Bool
      → List (DeferredEvent Event)
      → Bool
      → Type 0
  Promise event es inserted out true = IsStored event es inserted out
  Promise event es inserted out false = terminals out ≡ terminals es
